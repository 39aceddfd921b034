-- ===== src/Tournament/Handlers.antt =====
-- nextendo-nex/tournament.go: the calls of MatchmakeExtension on tournaments, and the summaries that
-- the ranking protocol serves.
use nextendo_mk8d_matchmakin.Base.{
  ℕ, zero, suc, ◌+◌, ◌==◌, ltb, leb, if◌then◌else◌, ◌||◌, Option, none, some, List, [], ◌∷◌, ◌++◌,
}
use nextendo_mk8d_matchmakin.Base.Lists.{length, take, drop, get_or}
use nextendo_mk8d_matchmakin.Wire.Out.{Bytes, write_u8, write_u32, write_buffer, write_elements}
use nextendo_mk8d_matchmakin.Wire.In.{StreamIn, stream, read_u32, le_value}
use nextendo_mk8d_matchmakin.Rmc.{RmcMessage, core_invalid_argument}
use nextendo_mk8d_matchmakin.Endpoint.State.{Connection}
use nextendo_mk8d_matchmakin.Matchmaking.Create.{extension_success, extension_error}
use nextendo_mk8d_matchmakin.Tournament.Blob.{Tournament, valid_stored_tournament}
use nextendo_mk8d_matchmakin.Tournament.Store.{
  Tournaments, Draw, create, tournament_by_id, cons_some, all_tournaments, join, delete,
}

-- One entry of a list: its version, its length and its content.
unfoldable pub write_entry : ℕ → Bytes → Bytes
write_entry version blob = write_u8 version ++ write_buffer blob

unfoldable pub created : RmcMessage → ℕ → Tournaments × Option Tournament → Tournaments × RmcMessage
created req version (ts, none) = (ts, extension_error req core_invalid_argument)
created req version (ts, some t) = (ts, extension_success req (write_entry version t.blob))

-- `createTournament`
unfoldable pub create_tournament :
    Tournaments → Draw → Connection → RmcMessage → Tournaments × RmcMessage
create_tournament ts d caller req =
    let n = le_value (take 4 (drop 1 req.body)) in
    if ltb (length req.body) 5
    then (ts, extension_error req core_invalid_argument)
    else if n == 0 || ltb (length req.body) (5 + n)
    then (ts, extension_error req core_invalid_argument)
    else created req (get_or req.body 0 0) (create ts caller.pid (take n (drop 5 req.body)) d)

unfoldable pub valid_only : List Tournament → List Tournament
valid_only [] = []
valid_only (t ∷ list) =
    let rest = valid_only list in if valid_stored_tournament t then t ∷ rest else rest

-- `writeTournamentList`
unfoldable pub write_tournament_list : List Tournament → Bytes
write_tournament_list list =
    let valid = valid_only list in
    write_u32 (length valid) ++ write_elements (λ (t : Tournament). write_entry 1 t.blob) valid

-- The loop of `tournamentsByIDs`: at most `n` rounds, none after a failed read. The read that fails
-- looks up 0.
unfoldable pub tournaments_from : Tournaments → ℕ → StreamIn → List Tournament
tournaments_from ts zero i = []
tournaments_from ts (suc n) i =
    let (id, j) = read_u32 i in
    let rest = cons_some (tournament_by_id ts id) (tournaments_from ts n j) in
    if i.failed then [] else rest

-- `tournamentsByIDs`
unfoldable pub tournaments_by_ids : Tournaments → RmcMessage → RmcMessage
tournaments_by_ids ts req =
    let (n, i) = read_u32 (stream req.body) in
    extension_success req (write_tournament_list (tournaments_from ts n i))

-- `searchTournaments`: the first hundred.
unfoldable pub search_tournaments : Tournaments → List ℕ → RmcMessage → RmcMessage
search_tournaments ts order req =
    extension_success req (write_tournament_list (take 100 (all_tournaments ts order)))

-- `removeTournament` and `registerTournament`: acknowledged in any case.
unfoldable pub remove_tournament : Tournaments → Connection → RmcMessage → Tournaments × RmcMessage
remove_tournament ts caller req = (
  (if leb 4 (length req.body) then (delete ts (le_value (take 4 req.body)) caller.pid).0 else ts),
  extension_success req [],
)

unfoldable pub register_tournament :
    Tournaments → Connection → RmcMessage → Tournaments × RmcMessage
register_tournament ts caller req = (
  (if leb 4 (length req.body) then (join ts (le_value (take 4 req.body)) caller.pid).0 else ts),
  extension_success req [],
)

-- One summary: a version, the length 28, and seven numbers.
unfoldable pub write_summary : Tournament → Bytes
write_summary t =
    write_u8 1
    ++ write_buffer (
        write_u32 t.id
        ++ (write_u32 (length t.participants)
            ++ (write_u32 4 ++ (write_u32 0 ++ (write_u32 0 ++ (write_u32 0 ++ write_u32 0))))))

-- `TournamentSummaries`
unfoldable pub tournament_summaries : Tournaments → List ℕ → Bytes
tournament_summaries ts order =
    let list = all_tournaments ts order in
    write_u32 (length list) ++ write_elements write_summary list
