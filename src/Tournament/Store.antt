-- ===== src/Tournament/Store.antt =====
-- nextendo-nex/tournament.go: the store of tournaments. The file that it is restored from and written
-- to is JSON of a list of tournaments: the list is an input here.
use nextendo_mk8d_matchmakin.Base.{
  ℕ, ◌+◌, ◌%◌, ◌^◌, ◌==◌, ltb, leb, if◌then◌else◌, Bool, true, false, not, ◌||◌, Option, none, some,
  List, [], ◌∷◌, ◌++◌,
}
use nextendo_mk8d_matchmakin.Base.Lists.{length, contains}
use nextendo_mk8d_matchmakin.Base.Maps.{Table, find, insert, erase}
use nextendo_mk8d_matchmakin.Wire.Out.{Bytes}
use nextendo_mk8d_matchmakin.Tournament.Blob.{
  Tournament, tournament_max_blob, tournament_max, tournament_code, tournament_code_offset,
  valid_stored_tournament, is_empty_string_at, stamp_tournament,
}

-- `tournamentStore`
pub record Tournaments : Type 0 where
  pub by_id : Table Tournament
  pub quarantined : List Tournament
  pub next_id : ℕ

-- `tournaments` as the process starts
abbrev pub no_tournaments : Tournaments
no_tournaments = record { by_id = []; quarantined = []; next_id = 1000 }

-- What a creation draws at random, and its time: the mark, a byte for each digit of the code.
pub record Draw : Type 0 where
  pub mark : Bytes
  pub digits : Bytes
  pub created_at : ℕ

unfoldable pub restore_one : Tournaments → Tournament → Tournaments
restore_one ts t =
    let next = if leb ts.next_id t.id then (t.id + 1) % 2 ^ 32 else ts.next_id in
    if t.id == 0
    then ts
    else if not (valid_stored_tournament t)
    then record ts { quarantined = ts.quarantined ++ (t ∷ []); next_id = next }
    else record ts { by_id = insert t.id t ts.by_id; next_id = next }

-- The loop of `tournamentInit` over the entries of the file that are not null.
unfoldable pub restore : Tournaments → List Tournament → Tournaments
restore ts [] = ts
restore ts (t ∷ list) = restore (restore_one ts t) list

abbrev pub snapshot_values : Table Tournament → List Tournament
snapshot_values [] = []
snapshot_values ((id, t) ∷ m) = t ∷ snapshot_values m

-- The list that `tournamentFlusher` writes: the invalid ones first, so that they are kept.
unfoldable pub flush : Tournaments → List Tournament
flush ts = ts.quarantined ++ snapshot_values ts.by_id

-- The tournament that a creation makes.
unfoldable pub new_tournament : ℕ → ℕ → Bytes → Draw → Tournament
new_tournament id owner payload d = record {
  id = id;
  owner = owner;
  code = tournament_code d.digits;
  mark = d.mark;
  blob = stamp_tournament payload id d.mark (tournament_code d.digits);
  participants = owner ∷ [];
  created_at = d.created_at;
}

abbrev pub has_empty_code : Option ℕ → Bytes → Bool
has_empty_code none payload = false
has_empty_code (some i) payload = is_empty_string_at i payload

-- `CreateTournament`: the id is used up also where the result does not pass the check.
unfoldable pub create : Tournaments → ℕ → Bytes → Draw → Tournaments × Option Tournament
create ts owner payload d =
    let t = new_tournament ts.next_id owner payload d in
    let ts' = record ts { next_id = (ts.next_id + 1) % 2 ^ 32 } in
    if length payload == 0
      || ltb tournament_max_blob (length payload)
      || not (has_empty_code (tournament_code_offset payload) payload)
    then (ts, none)
    else if leb tournament_max (length ts.by_id)
    then (ts, none)
    else if not (valid_stored_tournament t)
    then (ts', none)
    else (record ts' { by_id = insert ts.next_id t ts.by_id }, some t)

abbrev pub if_valid : Option Tournament → Option Tournament
if_valid none = none
if_valid (some t) = if valid_stored_tournament t then some t else none

-- `tournamentByID`
unfoldable pub tournament_by_id : Tournaments → ℕ → Option Tournament
tournament_by_id ts id = if_valid (find id ts.by_id)

abbrev pub cons_some : Option Tournament → List Tournament → List Tournament
cons_some none rest = rest
cons_some (some t) rest = t ∷ rest

-- `allTournaments`, in the order in which the runtime ranges over the ids
unfoldable pub all_tournaments : Tournaments → List ℕ → List Tournament
all_tournaments ts [] = []
all_tournaments ts (id ∷ order) = cons_some (tournament_by_id ts id) (all_tournaments ts order)

unfoldable pub join_stored : Tournaments → ℕ → ℕ → Option Tournament → Tournaments × Bool
join_stored ts id pid none = (ts, false)
join_stored ts id pid (some t) = if contains t.participants pid then (ts, true) else (
  record ts {
    by_id = insert id (record t { participants = t.participants ++ (pid ∷ []) }) ts.by_id;
  },
  true,
)

-- `joinTournament`
unfoldable pub join : Tournaments → ℕ → ℕ → Tournaments × Bool
join ts id pid = join_stored ts id pid (tournament_by_id ts id)

unfoldable pub delete_stored : Tournaments → ℕ → ℕ → Option Tournament → Tournaments × Bool
delete_stored ts id pid none = (ts, false)
delete_stored ts id pid (some t) =
    if t.owner == pid then (record ts { by_id = erase id ts.by_id }, true) else (ts, false)

-- `deleteTournament`
unfoldable pub delete : Tournaments → ℕ → ℕ → Tournaments × Bool
delete ts id pid = delete_stored ts id pid (tournament_by_id ts id)
