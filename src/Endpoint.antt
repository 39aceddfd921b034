-- ===== src/Endpoint.antt =====
-- nextendo-nex/endpoint.go and reaper.go: the connections of an endpoint and the registry that other
-- handlers look them up in.
pub mod State
pub mod Lookup
