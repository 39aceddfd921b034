-- ===== src/Examples/Boards.antt =====
-- Examples of the boards.
use nextendo_mk8d_matchmakin.Base.{
  ℕ, ◌+◌, ◌*◌, ◌≤◌, ◌≡◌, ◌⊎◌, refl, if◌then◌else◌, some, List, [], ◌∷◌, ◌++◌, inl, inr,
}
use nextendo_mk8d_matchmakin.Base.Lists.{length, replicate, Among}
use nextendo_mk8d_matchmakin.Wire.Out.{Bytes, le}
use nextendo_mk8d_matchmakin.Wire.In.{le_value}
use nextendo_mk8d_matchmakin.Ranking.Board.{
  BoardEntry, BoardKey, Boards, Calendar, comes_before, board_entries, find_board, put_board,
  board_for, write_board, parse_score_submission, better_entry, record_parsed, record_score,
}
use nextendo_mk8d_matchmakin.Ranking.Best.{
  Submitted, record_all, kept_score, best_score, record_all_best,
}
use nextendo_mk8d_matchmakin.Ranking.Pages.{IsSortOf, board_for_best, write_board_size}

-- A submission to tournament 77, category 393.
abbrev submission : ℕ → Bytes
submission score =
    replicate 5 0
    ++ (le 4 77
        ++ (le 4 393
            ++ (replicate 4 0 ++ (le 4 score ++ (replicate 6 0 ++ (132 ∷ 0 ∷ replicate 132 1))))))

abbrev key : BoardKey
key = record { tournament = 77; category = 393 }

abbrev submitted : ℕ → ℕ → Submitted
submitted now score = record { pid = 100; now = now; body = submission score }

record_all_best_example :
    kept_score (record_all [] (submitted 1 40 ∷ submitted 2 50 ∷ submitted 3 20 ∷ [])) key 100
    ≡ best_score key 100
        (kept_score [] key 100)
        (submitted 1 40 ∷ submitted 2 50 ∷ submitted 3 20 ∷ [])
record_all_best_example =
    record_all_best [] (submitted 1 40 ∷ submitted 2 50 ∷ submitted 3 20 ∷ []) key 100

best_of_three :
    kept_score (record_all [] (submitted 1 40 ∷ submitted 2 50 ∷ submitted 3 20 ∷ [])) key 100
    ≡ some 50
unfolding record_all record_score record_parsed parse_score_submission better_entry find_board
    put_board le le_value
best_of_three = refl

abbrev entry : ℕ → ℕ → BoardEntry
entry pid score = record { pid = pid; score = score; profile = replicate 132 1; at = pid }

abbrev boards : Boards
boards = (key, (100, entry 100 40) ∷ (200, entry 200 50) ∷ []) ∷ []

abbrev insert_entry : BoardEntry → List BoardEntry → List BoardEntry
insert_entry e [] = e ∷ []
insert_entry e (x ∷ xs) = if comes_before e x then e ∷ x ∷ xs else x ∷ insert_entry e xs

abbrev insertion_sort : List BoardEntry → List BoardEntry
insertion_sort [] = []
insertion_sort (e ∷ es) = insert_entry e (insertion_sort es)

sorted_here :
    IsSortOf
      (insertion_sort (board_entries (find_board key boards)))
      (board_entries (find_board key boards))
unfolding find_board comes_before
sorted_here = record {
  in_order = ((refl, tt), (tt, tt));
  same_length = refl;
  forth =
      λ e h. elim h [ inl a ↦ inr (inl a) | inr b ↦ elim b [ inl c ↦ inl c | inr d ↦ absurd d ] ];
  back =
      λ e h. elim h [ inl a ↦ inr (inl a) | inr b ↦ elim b [ inl c ↦ inl c | inr d ↦ absurd d ] ];
}

stored_here : Among (entry 100 40) (board_entries (find_board key boards))
unfolding find_board
stored_here = inl refl

shown_here : Among (entry 200 50) (board_for insertion_sort boards key)
unfolding board_for find_board comes_before
shown_here = inl refl

board_for_best_example :
    (length (board_for insertion_sort boards key) ≤ 100)
    × Among (entry 200 50) (board_entries (find_board key boards))
    × (Among (entry 100 40) (board_for insertion_sort boards key)
        ⊎ (length (board_for insertion_sort boards key) ≡ 100) × (40 ≤ 50))
board_for_best_example =
    board_for_best insertion_sort boards key (entry 100 40) sorted_here stored_here (entry 200 50)
      shown_here

abbrev calendar : ℕ → Calendar
calendar t = record { second = 1; minute = 2; hour = 3; day = 4; month = 5; year = 2026 }

write_board_size_example :
    length (write_board calendar 393 (entry 100 40 ∷ entry 200 50 ∷ []))
    ≡ 41 + 164 * length (entry 100 40 ∷ entry 200 50 ∷ [])
write_board_size_example = write_board_size calendar 393 (entry 100 40 ∷ entry 200 50 ∷ [])
