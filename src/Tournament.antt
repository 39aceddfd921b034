-- ===== src/Tournament.antt =====
-- nextendo-nex/tournament.go: the tournaments that players create, and the structures that describe
-- them.
pub mod Blob
pub mod Store
pub mod Handlers
pub mod Form
pub mod Stamped
pub mod Rules
pub mod Invariant
pub mod Restart
pub mod Runs
pub mod Saved
pub mod Survival
