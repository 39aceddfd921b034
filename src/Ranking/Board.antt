-- ===== src/Ranking/Board.antt =====
-- nextendo-nex/ranking_board.go: submissions of scores, the boards that keep the best one of each
-- player, and the pages that show them. A time is a number; what Go's `time` says of its calendar and
-- `sort.Slice` are parameters.
use nextendo_mk8d_matchmakin.Base.{
  ℕ, ◌+◌, ◌-◌, ◌*◌, ◌^◌, ◌==◌, ltb, leb, if◌then◌else◌, Bool, true, false, not, ◌&&◌, ◌||◌, Option,
  none, some, List, [], ◌∷◌, ◌++◌,
}
use nextendo_mk8d_matchmakin.Base.Lists.{length, take, drop, replicate}
use nextendo_mk8d_matchmakin.Base.Maps.{Table, find, insert}
use nextendo_mk8d_matchmakin.Wire.Out.{
  Bytes, write_u8, write_u16, write_u32, write_u64, write_buffer,
}
use nextendo_mk8d_matchmakin.Wire.In.{le_value}
use nextendo_mk8d_matchmakin.Rmc.{RmcMessage, rmc_success}

abbrev pub protocol_ranking : ℕ
protocol_ranking = 0x70

abbrev pub score_entry_body : ℕ
score_entry_body = 159

abbrev pub score_profile_len : ℕ
score_profile_len = 132

abbrev pub score_max_per_board : ℕ
score_max_per_board = 100

-- `boardEntry`
pub record BoardEntry : Type 0 where
  pub pid : ℕ
  pub score : ℕ
  pub profile : Bytes
  pub at : ℕ

-- `boardKey`
pub record BoardKey : Type 0 where
  pub tournament : ℕ
  pub category : ℕ

abbrev pub board_key_eq : BoardKey → BoardKey → Bool
board_key_eq a b = a.tournament == b.tournament && a.category == b.category

-- `boards`
abbrev pub Boards : Type 0
Boards = List (BoardKey × Table BoardEntry)

-- `boards[k]`, the empty board where it is missing
unfoldable pub find_board : BoardKey → Boards → Table BoardEntry
find_board k [] = []
find_board k ((j, b) ∷ bs) = if board_key_eq j k then b else find_board k bs

unfoldable pub put_board : BoardKey → Table BoardEntry → Boards → Boards
put_board k b [] = (k, b) ∷ []
put_board k b ((j, c) ∷ bs) = if board_key_eq j k then (j, b) ∷ bs else (j, c) ∷ put_board k b bs

-- A submission that parses.
pub record Submission : Type 0 where
  pub key : BoardKey
  pub score : ℕ
  pub profile : Bytes

-- The little-endian number of `n` bytes at a place.
abbrev pub le_at : ℕ → ℕ → Bytes → ℕ
le_at n place body = le_value (take n (drop place body))

-- `parseScoreSubmission`
unfoldable pub parse_score_submission : Bytes → Option Submission
parse_score_submission body =
    if ltb (length body) (0x1d + score_profile_len)
    then none
    else if not (le_at 2 0x1b body == score_profile_len)
    then none
    else if le_at 4 0x05 body == 0
    then none
    else some (record {
      key = record { tournament = le_at 4 0x05 body; category = le_at 4 0x09 body };
      score = le_at 4 0x11 body;
      profile = take score_profile_len (drop 0x1d body);
    })

-- The player's entry after a submission: a score that is not better only brings the profile.
unfoldable pub better_entry : ℕ → ℕ → Submission → Option BoardEntry → BoardEntry
better_entry pid now s none = record { pid = pid; score = s.score; profile = s.profile; at = now }
better_entry pid now s (some prev) =
    if leb s.score prev.score
    then record prev { profile = s.profile }
    else record { pid = pid; score = s.score; profile = s.profile; at = now }

unfoldable pub record_parsed : Boards → ℕ → ℕ → Option Submission → Boards × Bool
record_parsed bs pid now none = (bs, false)
record_parsed bs pid now (some s) =
    let board = find_board s.key bs in
    (put_board s.key (insert pid (better_entry pid now s (find pid board)) board) bs, true)

-- `recordScore`
unfoldable pub record_score : Boards → ℕ → ℕ → Bytes → Boards × Bool
record_score bs pid now body = record_parsed bs pid now (parse_score_submission body)

abbrev pub board_entries : Table BoardEntry → List BoardEntry
board_entries [] = []
board_entries ((pid, e) ∷ b) = e ∷ board_entries b

-- The comparison that `boardFor` gives to `sort.Slice`.
unfoldable pub comes_before : BoardEntry → BoardEntry → Bool
comes_before a b = if a.score == b.score then ltb a.at b.at else ltb b.score a.score

-- `sort.Slice` with that comparison
abbrev pub Sort : Type 0
Sort = List BoardEntry → List BoardEntry

-- `boardFor`
unfoldable pub board_for : Sort → Boards → BoardKey → List BoardEntry
board_for sort bs key = take score_max_per_board (sort (board_entries (find_board key bs)))

-- The fields of a time in UTC.
pub record Calendar : Type 0 where
  pub second : ℕ
  pub minute : ℕ
  pub hour : ℕ
  pub day : ℕ
  pub month : ℕ
  pub year : ℕ

-- `nexDateTime`: the fields of a calendar do not overlap, so that `|` is a sum.
unfoldable pub nex_date_time : Calendar → ℕ
nex_date_time c =
    c.second
    + c.minute * 2 ^ 6
    + c.hour * 2 ^ 12
    + c.day * 2 ^ 17
    + c.month * 2 ^ 22
    + c.year * 2 ^ 26

-- The profile of a row: 132 bytes, filled with zeros or cut where there are more or fewer.
unfoldable pub fixed_profile : Bytes → Bytes
fixed_profile p =
    if length p == score_profile_len
    then p
    else take score_profile_len p ++ replicate (score_profile_len - length p) 0

-- One row of `writeBoard`.
unfoldable pub write_row : (ℕ → Calendar) → ℕ → BoardEntry → Bytes
write_row calendar rank e =
    write_u8 0
    ++ (write_u32 score_entry_body
        ++ (write_u32 rank
            ++ (write_u64 e.pid
                ++ (write_u32 e.score
                    ++ (write_u64 (nex_date_time (calendar e.at))
                        ++ (write_u8 0xFF
                            ++ (write_u16 score_profile_len ++ fixed_profile e.profile)))))))

-- The loop over the entries, `i` rows after the first.
unfoldable pub write_rows : (ℕ → Calendar) → ℕ → List BoardEntry → Bytes
write_rows calendar i [] = []
write_rows calendar i (e ∷ es) = write_row calendar (i + 1) e ++ write_rows calendar (i + 1) es

unfoldable pub write_page : (ℕ → Calendar) → ℕ → List BoardEntry → Bytes
write_page calendar category es =
    write_u32 category
    ++ (write_u32 (length es)
        ++ (write_rows calendar 0 es ++ (write_u32 (length es) ++ (write_u32 4 ++ replicate 16 0))))

-- `writeBoard`: a list of one page, which has a version and a length.
unfoldable pub write_board : (ℕ → Calendar) → ℕ → List BoardEntry → Bytes
write_board calendar category es =
    write_u32 1 ++ (write_u8 0 ++ write_buffer (write_page calendar category es))

-- `boardCategoryFor`, with the keys in the order in which the runtime ranges over the boards
unfoldable pub board_category_for : List BoardKey → ℕ → ℕ
board_category_for [] tournament = 0
board_category_for (k ∷ ks) tournament =
    let rest = board_category_for ks tournament in
    if k.tournament == tournament then k.category else rest

no_board : RmcMessage → RmcMessage
no_board req = rmc_success protocol_ranking req.method req.call_id (write_u32 0)

ranking_reply : (ℕ → Calendar) → RmcMessage → ℕ → List BoardEntry → RmcMessage
unfolding no_board
ranking_reply calendar req category [] = no_board req
ranking_reply calendar req category (e ∷ es) =
    rmc_success protocol_ranking req.method req.call_id (write_board calendar category (e ∷ es))

-- `competitionRanking`; the category is looked up twice, each time in an order of its own.
unfoldable pub competition_ranking :
    Sort → (ℕ → Calendar) → (ℕ → List BoardKey) → Boards → RmcMessage → RmcMessage
unfolding no_board ranking_reply
competition_ranking sort calendar orders bs req =
    let tournament = le_at 4 5 req.body in
    let key : BoardKey = record {
      tournament = tournament;
      category = board_category_for (orders 0) tournament;
    } in
    if ltb (length req.body) 13
    then no_board req
    else ranking_reply calendar req (board_category_for (orders 1) tournament)
        (board_for sort bs key)

-- `boardPersisted`: an entry of the file.
pub record PersistedScore : Type 0 where
  pub tournament : ℕ
  pub category : ℕ
  pub pid : ℕ
  pub score : ℕ
  pub profile : Bytes
  pub at : ℕ

-- The loop of `boardInit`: the latest entry of a player counts.
unfoldable pub restore_scores : Boards → List PersistedScore → Boards
restore_scores bs [] = bs
restore_scores bs (p ∷ list) =
    let key : BoardKey = record { tournament = p.tournament; category = p.category } in
    let e : BoardEntry = record { pid = p.pid; score = p.score; profile = p.profile; at = p.at } in
    restore_scores
      (if not (length p.profile == score_profile_len) || p.tournament == 0
        then bs
        else put_board key (insert p.pid e (find_board key bs)) bs)
      list
