-- ===== src/Traversal.antt =====
-- nextendo-nex/secureconnection.go, natbridge.go and nattraversal.go: the station addresses that a
-- player registers, what a joiner is given of them, and the probes that players ask for.
pub mod Register
pub mod Bridge
pub mod Probes
pub mod Rules
