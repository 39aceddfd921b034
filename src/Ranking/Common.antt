-- ===== src/Ranking/Common.antt =====
-- nextendo-nex/ranking.go: the data that players publish about themselves, the results that they
-- submit, and the handler of the ranking protocol. The files hold JSON and base64, which are library
-- code: what they contain is a list of pairs here.
use nextendo_mk8d_matchmakin.Base.{
  ℕ, zero, suc, ◌==◌, ltb, leb, if◌then◌else◌, Bool, not, ◌&&◌, ◌||◌, Option, none, some, List, [],
  ◌∷◌, ◌++◌,
}
use nextendo_mk8d_matchmakin.Base.Lists.{length}
use nextendo_mk8d_matchmakin.Base.Maps.{Table, find, insert, erase}
use nextendo_mk8d_matchmakin.Wire.Settings.{Settings}
use nextendo_mk8d_matchmakin.Wire.Out.{Bytes, write_u8, write_u32, write_buffer, write_qbuffer}
use nextendo_mk8d_matchmakin.Wire.In.{StreamIn, stream, read_u32, read_pid, read_buffer}
use nextendo_mk8d_matchmakin.Rmc.{RmcMessage, rmc_success}
use nextendo_mk8d_matchmakin.Endpoint.State.{Connection}
use nextendo_mk8d_matchmakin.Matchmaking.Create.{not_implemented}
use nextendo_mk8d_matchmakin.Tournament.Store.{Tournaments}
use nextendo_mk8d_matchmakin.Tournament.Handlers.{tournament_summaries}
use nextendo_mk8d_matchmakin.Ranking.Board.{
  protocol_ranking, Boards, BoardKey, Calendar, Sort, record_score, competition_ranking,
}

abbrev pub common_data_max_len : ℕ
common_data_max_len = 4096

abbrev pub common_data_max_entries : ℕ
common_data_max_entries = 256

abbrev pub common_data_max_stored : ℕ
common_data_max_stored = 50000

-- The stores of the ranking protocol: `commonDataStore`, `scoresStore` (by player and method), the
-- boards.
pub record Rankings : Type 0 where
  pub common : Table Bytes
  pub scores : Table (Table Bytes)
  pub boards : Boards

abbrev has_size : Bytes → Bool
has_size blob = not (length blob == 0) && leb (length blob) common_data_max_len

-- `PutCommonData`
unfoldable pub put_common_data : Rankings → ℕ → Bytes → Rankings
put_common_data r pid blob =
    if has_size blob then record r { common = insert pid blob r.common } else r

-- `CommonData`, empty where there is none
unfoldable pub common_data : Rankings → ℕ → Bytes
common_data r pid = elim (find pid r.common) [ none ↦ [] | some blob ↦ blob ]

-- `ForgetCommonData`
unfoldable pub forget_common_data : Rankings → ℕ → Rankings
forget_common_data r pid = record r { common = erase pid r.common }

-- The loop of `loadCommonData` over the entries that decode.
unfoldable pub load_common_data : Rankings → List (ℕ × Bytes) → Rankings
load_common_data r [] = r
load_common_data r ((pid, blob) ∷ list) = load_common_data (put_common_data r pid blob) list

-- The loop of `writeCommonData`: what is ranged over until the bound is reached.
unfoldable pub saved_from : ℕ → Table Bytes → Table Bytes
saved_from room [] = []
saved_from zero (p ∷ m) = []
saved_from (suc room) (p ∷ m) = p ∷ saved_from room m

unfoldable pub write_common_data : Rankings → Table Bytes
write_common_data r = saved_from common_data_max_stored r.common

-- `uploadCommonData`
unfoldable pub upload_common_data : Rankings → Connection → RmcMessage → Rankings × RmcMessage
upload_common_data r caller req =
    let (blob, i) = read_buffer (stream req.body) in
    (
      (if i.failed then r else put_common_data r caller.pid blob),
      rmc_success protocol_ranking req.method req.call_id [],
    )

abbrev pub append_entry : Bytes → Option Bytes → Option Bytes
append_entry b none = none
append_entry b (some rest) = some (b ++ rest)

-- The loop of `commonDataByPIDs`; `none` where the request ends too early.
unfoldable pub write_common : Settings → Rankings → ℕ → StreamIn → Option Bytes
write_common s r zero i = some []
write_common s r (suc n) i =
    let (pid, j) = read_pid s i in
    let rest = append_entry (write_qbuffer (common_data r pid)) (write_common s r n j) in
    if j.failed then none else rest

abbrev pub common_body : ℕ → Option Bytes → Bytes
common_body count none = write_u32 0
common_body count (some entries) = write_u8 0 ++ write_buffer (write_u32 count ++ entries)

-- The body of `commonDataByPIDs`'s reply: an empty list, or what is stored of each player in order.
unfoldable pub common_data_body : Settings → Rankings → Bytes → Bytes
common_data_body s r body =
    let (count, i) = read_u32 (stream body) in
    if ltb (length body) 4
    then write_u32 0
    else if i.failed || count == 0 || ltb common_data_max_entries count
    then write_u32 0
    else common_body count (write_common s r count i)

-- `commonDataByPIDs`
unfoldable pub common_data_by_pids : Settings → Rankings → RmcMessage → RmcMessage
common_data_by_pids s r req =
    rmc_success protocol_ranking req.method req.call_id (common_data_body s r req.body)

abbrev pub scores_of : Option (Table Bytes) → Table Bytes
scores_of none = []
scores_of (some m) = m

-- `keepSubmittedScore`
unfoldable pub keep_submitted_score : Rankings → ℕ → ℕ → Bytes → Rankings
keep_submitted_score r pid method body =
    if has_size body
    then record r {
      scores = insert pid (insert method body (scores_of (find pid r.scores))) r.scores;
    }
    else r

-- `SubmittedScore`
unfoldable pub submitted_score : Rankings → ℕ → ℕ → Option Bytes
submitted_score r pid method = find method (scores_of (find pid r.scores))

-- What the ranking handler is given besides its stores.
pub record RankingWorld : Type 0 where
  pub now : ℕ
  pub sort : Sort
  pub calendar : ℕ → Calendar
  pub key_orders : ℕ → List BoardKey
  pub tournaments : Tournaments
  pub tournament_order : List ℕ

unfoldable pub submit_result :
    RankingWorld → Rankings → Connection → RmcMessage → Rankings × RmcMessage
submit_result w r caller req =
    let kept = keep_submitted_score r caller.pid req.method req.body in
    (
      (if req.method == 0x11
          then record kept { boards = (record_score kept.boards caller.pid w.now req.body).0 }
          else kept),
      rmc_success protocol_ranking req.method req.call_id (0 ∷ []),
    )

-- `RankingHandler`
unfoldable pub ranking_handler :
    Settings → RankingWorld → Rankings → Connection → RmcMessage → Rankings × RmcMessage
ranking_handler s w r caller req =
    if req.method == 0x4
    then upload_common_data r caller req
    else if req.method == 0x16
    then (r, common_data_by_pids s r req)
    else if req.method == 0x12
    then (
      r,
      rmc_success protocol_ranking req.method req.call_id
          (tournament_summaries w.tournaments w.tournament_order),
    )
    else if req.method == 0x10
    then (r, competition_ranking w.sort w.calendar w.key_orders r.boards req)
    else if req.method == 0x11 || req.method == 0x13
    then submit_result w r caller req
    else (r, not_implemented protocol_ranking req)
