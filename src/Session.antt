-- ===== src/Session.antt =====
-- The matchmaking structures of nextendo-nex/matchmaking.go and their values in
-- nextendo-nex/types.go: a session, its parameters and the variants that these hold.
pub mod Variant
pub mod Keys
pub mod Types
pub mod RoundTrip
