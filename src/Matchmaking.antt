-- ===== src/Matchmaking.antt =====
-- nextendo-nex/matchmaking_handlers.go, matchmaking_reservations.go, notification.go and the partial
-- updates of matchmaking_acnh.go: the in-memory matchmaking store and its handlers.
pub mod State
pub mod Nat
pub mod World
pub mod Reservations
pub mod Create
pub mod Join
pub mod Leave
pub mod Update
pub mod SessionPart
pub mod Seats
pub mod Invariant
pub mod Preservation
pub mod Steps
pub mod Selection
pub mod Departure
pub mod Attributes
pub mod Placement
pub mod NatRules
pub mod Criteria
pub mod Queries
pub mod QueryRules
pub mod Codes
pub mod CodeRules
pub mod NotifData
pub mod NotifRules
