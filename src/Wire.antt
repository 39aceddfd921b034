-- ===== src/Wire.antt =====
-- The wire format of NEX values: nextendo-nex/stream.go, the structure framing of
-- nextendo-nex/types.go and the part of nextendo-nex/settings.go that drives both.
pub mod Settings
pub mod Out
pub mod In
pub mod Reads
