-- ===== src/Tournament/Survival.antt =====
-- nextendo-nex/tournament.go: what survives the end of a process.
use nextendo_mk8d_matchmakin.Base.{ℕ, ◌+◌, ◌^◌, ◌<◌, ◌≡◌, ◌⊎◌, true, false, []}
use nextendo_mk8d_matchmakin.Wire.Out.{Bytes}
use nextendo_mk8d_matchmakin.Tournament.Blob.{Tournament}
use nextendo_mk8d_matchmakin.Tournament.Store.{Draw, no_tournaments, restore}
use nextendo_mk8d_matchmakin.Tournament.Invariant.{TournamentsOk}
use nextendo_mk8d_matchmakin.Tournament.Saved.{
  Process, create_saved, join_saved, delete_saved, flush_turn, start_again,
}

-- A call, a turn of the flusher or a new process, where there is a file and while the ids fit 32 bits.
pub data ProcessStep (p : Process) : Process → Type 0 where
  creates :
      (owner : ℕ) (payload : Bytes) (d : Draw)
      → p.live.next_id + 1 < 2 ^ 32
      → ProcessStep p (create_saved p owner payload d)
  joins : (id pid : ℕ) → ProcessStep p (join_saved p id pid)
  deletes : (id pid : ℕ) → ProcessStep p (delete_saved p id pid)
  flushes : ProcessStep p (flush_turn true p)
  starts : ProcessStep p (start_again true p)

pub data ProcessRun (p : Process) : Process → Type 0 where
  here : ProcessRun p p
  next : {q r : Process} → ProcessRun p q → ProcessStep q r → ProcessRun p r

-- The first process, with an empty file.
abbrev pub first_process : Process
first_process = record { live = no_tournaments; dirty = false; file = [] }

record ProcessOk (p : Process) : Type 0 where
  live : TournamentsOk p.live
  file : TournamentsOk (restore no_tournaments p.file)
  synced : (p.dirty ≡ true) ⊎ ((restore no_tournaments p.file).by_id ≡ p.live.by_id)
