-- ===== src/Tournament/Saved.antt =====
-- nextendo-nex/tournament.go: `tournamentDirty`, a turn of `tournamentFlusher` and the start of a process.
-- Whether NEXTENDO_TOURNAMENT_FILE is set is an input, and writing the file succeeds.
use nextendo_mk8d_matchmakin.Base.{
  ℕ, if◌then◌else◌, Bool, true, false, not, ◌&&◌, ◌||◌, Option, none, some, List,
}
use nextendo_mk8d_matchmakin.Base.Lists.{contains}
use nextendo_mk8d_matchmakin.Wire.Out.{Bytes}
use nextendo_mk8d_matchmakin.Tournament.Blob.{Tournament}
use nextendo_mk8d_matchmakin.Tournament.Store.{
  Tournaments, Draw, no_tournaments, restore, flush, create, join, delete, tournament_by_id,
}

-- The store, `tournamentDirty`, and what the file holds.
pub record Process : Type 0 where
  pub live : Tournaments
  pub dirty : Bool
  pub file : List Tournament

abbrev pub is_made : Option Tournament → Bool
is_made none = false
is_made (some t) = true

-- `CreateTournament`, which sets the flag where it stores a tournament.
unfoldable pub create_saved : Process → ℕ → Bytes → Draw → Process
create_saved p owner payload d =
    let (ts, made) = create p.live owner payload d in
    record p { live = ts; dirty = p.dirty || is_made made }

abbrev pub is_new : Option Tournament → ℕ → Bool
is_new none pid = false
is_new (some t) pid = not (contains t.participants pid)

-- `joinTournament`, which sets the flag where it adds the player.
unfoldable pub join_saved : Process → ℕ → ℕ → Process
join_saved p id pid = record p {
  live = (join p.live id pid).0;
  dirty = p.dirty || is_new (tournament_by_id p.live id) pid;
}

-- `deleteTournament`, which sets the flag where it deletes.
unfoldable pub delete_saved : Process → ℕ → ℕ → Process
delete_saved p id pid =
    let (ts, done) = delete p.live id pid in record p { live = ts; dirty = p.dirty || done }

-- A turn of `tournamentFlusher`, which runs only where there is a file.
unfoldable pub flush_turn : Bool → Process → Process
flush_turn has_file p =
    if has_file && p.dirty then record { live = p.live; dirty = false; file = flush p.live } else p

-- The process ends, whatever was not written, and another one starts: `tournamentInit`.
unfoldable pub start_again : Bool → Process → Process
start_again has_file p = record {
  live = if has_file then restore no_tournaments p.file else no_tournaments;
  dirty = false;
  file = p.file;
}
