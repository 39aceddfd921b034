-- ===== src/Ranking/Best.antt =====
-- nextendo-nex/ranking_board.go, `recordScore`: the boards as a map from players to their best scores.
use nextendo_mk8d_matchmakin.Base.{
  ℕ, ◌≡◌, refl, ◌==◌, ==_iff, ltb, if◌then◌else◌, true, false, ◌&&◌, Option, none, some, List, [],
  ◌∷◌, arith, inl, inr, Bool-cases,
}
use nextendo_mk8d_matchmakin.Base.Maps.{Table, find, insert, find-insert}
use nextendo_mk8d_matchmakin.Wire.Out.{Bytes}
use nextendo_mk8d_matchmakin.Ranking.Board.{
  BoardEntry, BoardKey, Boards, Submission, board_key_eq, find_board, put_board,
  parse_score_submission, better_entry, record_parsed, record_score,
}

-- A player, the time and what it submits.
pub record Submitted : Type 0 where
  pub pid : ℕ
  pub now : ℕ
  pub body : Bytes

unfoldable pub record_all : Boards → List Submitted → Boards
record_all bs [] = bs
record_all bs (x ∷ xs) = record_all (record_score bs x.pid x.now x.body).0 xs

-- The score that the boards hold of a player.
abbrev pub score_of : Option BoardEntry → Option ℕ
score_of none = none
score_of (some e) = some (e.score)

abbrev pub kept_score : Boards → BoardKey → ℕ → Option ℕ
kept_score bs key pid = score_of (find pid (find_board key bs))

-- The abstract view: the greater of what was known and one more score.
abbrev pub greater : Option ℕ → ℕ → Option ℕ
greater none n = some n
greater (some m) n = if ltb m n then some n else some m

-- What one submission brings to a player on a board.
abbrev pub after_submission : BoardKey → ℕ → Option ℕ → ℕ → Option Submission → Option ℕ
after_submission key pid best submitter none = best
after_submission key pid best submitter (some s) =
    if submitter == pid && board_key_eq s.key key then greater best s.score else best

-- The best of a player's submissions to a board.
abbrev pub best_score : BoardKey → ℕ → Option ℕ → List Submitted → Option ℕ
best_score key pid best [] = best
best_score key pid best (x ∷ xs) =
    best_score key pid (after_submission key pid best x.pid (parse_score_submission x.body)) xs

board_key_sound : (a b : BoardKey) → board_key_eq a b ≡ true → a ≡ b
board_key_sound a b h = ground arith

board_key_trans : (a b c : BoardKey) → board_key_eq a b ≡ true → board_key_eq a c ≡ board_key_eq b c
board_key_trans a b c h = rw (board_key_sound a b h)

find_board-put_board :
    (k key : BoardKey) (b : Table BoardEntry) (bs : Boards)
    → find_board key (put_board k b bs) ≡ (if board_key_eq k key then b else find_board key bs)
unfolding find_board put_board
find_board-put_board k key b [] = refl
find_board-put_board k key b ((j, c) ∷ bs) = elim (Bool-cases (board_key_eq j k)) [
  | inl e ↦
      rw (e, board_key_trans j k key e)
        (elim (Bool-cases (board_key_eq k key)) [ inl t ↦ rw t | inr t ↦ rw t ])
  | inr e ↦ rw e (elim (Bool-cases (board_key_eq j key)) [
    | inl t ↦ rw t (apart t e)
    | inr t ↦ rw t (find_board-put_board k key b bs)
  ])
]
  where
    apart :
        board_key_eq j key ≡ true
        → board_key_eq j k ≡ false
        → c ≡ (if board_key_eq k key then b else c)
    apart t e = elim (Bool-cases (board_key_eq k key)) [
      | inl u ↦
          let back : board_key_eq j k ≡ true =
            ground (arith, board_key_sound j key t, board_key_sound k key u) in
          absurd (cc (back, e))
      | inr u ↦ rw u
    ]

score_of-better_entry :
    (pid now : ℕ) (s : Submission) (o : Option BoardEntry)
    → score_of (some (better_entry pid now s o)) ≡ greater (score_of o) s.score
unfolding better_entry
score_of-better_entry pid now s none = refl
score_of-better_entry pid now s (some prev) = ground arith

record_parsed_score :
    (bs : Boards) (submitter now : ℕ) (o : Option Submission) (key : BoardKey) (pid : ℕ)
    → kept_score (record_parsed bs submitter now o).0 key pid
      ≡ after_submission key pid (kept_score bs key pid) submitter o
unfolding record_parsed
record_parsed_score bs submitter now none key pid = refl
record_parsed_score bs submitter now (some s) key pid =
    let board = find_board s.key bs in
    let e = better_entry submitter now s (find submitter board) in
    rw (find_board-put_board s.key key (insert submitter e board) bs)
      (elim (Bool-cases (board_key_eq s.key key)) [
        | inr k ↦ rw k (elim (Bool-cases (submitter == pid)) [ inl p ↦ rw p | inr p ↦ rw p ])
        | inl k ↦
            rw (k, find-insert submitter pid e board)
              (elim (Bool-cases (submitter == pid)) [
                | inr p ↦ rw (p, board_key_sound s.key key k)
                | inl p ↦
                    rw (p, ← (==_iff submitter pid).0 p, ← board_key_sound s.key key k)
                      (score_of-better_entry submitter now s (find submitter board))
              ])
      ])

-- Refinement: what the boards hold of a player, whatever was submitted before, by whom, when and in
-- which order, is the greater of what they held at first and the best score of its submissions to that
-- tournament and category that parse.
pub record_all_best :
    (bs : Boards) (xs : List Submitted) (key : BoardKey) (pid : ℕ)
    → kept_score (record_all bs xs) key pid ≡ best_score key pid (kept_score bs key pid) xs
unfolding record_all record_score
record_all_best bs [] key pid = refl
record_all_best bs (x ∷ xs) key pid =
    rw (← record_parsed_score bs x.pid x.now (parse_score_submission x.body) key pid)
      (record_all_best (record_parsed bs x.pid x.now (parse_score_submission x.body)).0 xs key pid)
