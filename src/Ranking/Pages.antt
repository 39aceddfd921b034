-- ===== src/Ranking/Pages.antt =====
-- nextendo-nex/ranking_board.go: which entries a board shows, and the size of what is written.
use nextendo_mk8d_matchmakin.Base.{
  ℕ, zero, suc, ◌+◌, ◌-◌, ◌*◌, ◌≤◌, ◌<◌, ◌≡◌, ◌⊎◌, refl, ◌==◌, false, List, [], ◌∷◌, ◌++◌, arith,
  inl, inr, Bool-cases,
}
use nextendo_mk8d_matchmakin.Base.Lists.{
  length, take, drop, replicate, All, Among, length-append, length-take, length-drop,
  length-replicate,
}
use nextendo_mk8d_matchmakin.Wire.Out.{Bytes, le, write_u8, write_u32, write_buffer}
use nextendo_mk8d_matchmakin.Wire.Reads.{length-le}
use nextendo_mk8d_matchmakin.Ranking.Board.{
  BoardEntry, BoardKey, Boards, Calendar, Sort, comes_before, board_entries, find_board, board_for,
  fixed_profile, write_row, write_rows, write_page, write_board,
}

-- No entry stands behind one that it comes before.
abbrev pub InOrder : List BoardEntry → Type 0
InOrder [] = Unit {0}
InOrder (e ∷ es) = All (λ later. comes_before later e ≡ false) es × InOrder es

-- What is documented of `sort.Slice`: the same entries, in an order that the comparison allows. The
-- order of entries that are equal to the comparison is not determined.
pub record IsSortOf (out es : List BoardEntry) : Type 0 where
  pub in_order : InOrder out
  pub same_length : length out ≡ length es
  pub forth : (e : BoardEntry) → Among e es → Among e out
  pub back : (e : BoardEntry) → Among e out → Among e es

InOrder-split :
    (n : ℕ) (es : List BoardEntry) (a b : BoardEntry)
    → InOrder es
    → Among a (take n es)
    → Among b (drop n es)
    → comes_before b a ≡ false
InOrder-split zero es a b o ha hb = elim ha [ ]
InOrder-split (suc n) [] a b o ha hb = elim ha [ ]
InOrder-split (suc n) (e ∷ es) a b o (inl same) hb = rw same (everywhere es o.0 (in_drop n es hb))
  where
    in_drop : (k : ℕ) (xs : List BoardEntry) → Among b (drop k xs) → Among b xs
    in_drop zero xs h = h
    in_drop (suc k) [] h = h
    in_drop (suc k) (x ∷ xs) h = inr (in_drop k xs h)

    everywhere :
        (xs : List BoardEntry)
        → All (λ later. comes_before later e ≡ false) xs
        → Among b xs
        → comes_before b e ≡ false
    everywhere [] a h = elim h [ ]
    everywhere (x ∷ xs) a (inl t) = rw t a.0
    everywhere (x ∷ xs) a (inr h) = everywhere xs a.1 h
InOrder-split (suc n) (e ∷ es) a b o (inr more) hb = InOrder-split n es a b o.1 more hb

take-Among : (n : ℕ) (es : List BoardEntry) (a : BoardEntry) → Among a (take n es) → Among a es
take-Among zero es a h = elim h [ ]
take-Among (suc n) [] a h = elim h [ ]
take-Among (suc n) (e ∷ es) a (inl t) = inl t
take-Among (suc n) (e ∷ es) a (inr h) = inr (take-Among n es a h)

Among-take-drop :
    (n : ℕ) (es : List BoardEntry) (a : BoardEntry)
    → Among a es
    → Among a (take n es) ⊎ Among a (drop n es)
Among-take-drop zero es a h = inr h
Among-take-drop (suc n) [] a h = inl h
Among-take-drop (suc n) (e ∷ es) a (inl t) = inl (inl t)
Among-take-drop (suc n) (e ∷ es) a (inr h) = elim (Among-take-drop n es a h) [
  | inl l ↦ inl (inr l)
  | inr r ↦ inr r
]

comes_before_scores : (a b : BoardEntry) → comes_before b a ≡ false → b.score ≤ a.score
unfolding comes_before
comes_before_scores a b h = ground arith

-- When the sort of the board's entries is one: the board shows at most a hundred of them, and a
-- stored entry is shown, or the board shows a hundred and none with a lower score.
pub board_for_best :
    (sort : Sort) (bs : Boards) (key : BoardKey) (e : BoardEntry)
    → IsSortOf (sort (board_entries (find_board key bs))) (board_entries (find_board key bs))
    → Among e (board_entries (find_board key bs))
    → (shown : BoardEntry) → Among shown (board_for sort bs key)
    → (length (board_for sort bs key) ≤ 100)
      × Among shown (board_entries (find_board key bs))
      × (Among e (board_for sort bs key)
          ⊎ (length (board_for sort bs key) ≡ 100) × (e.score ≤ shown.score))
unfolding board_for
board_for_best sort bs key e s h shown hs =
    let es = board_entries (find_board key bs) in
    let out = sort es in
    (
      omega (arith, length-take 100 out),
      s.back shown (take-Among 100 out shown hs),
      elim (Among-take-drop 100 out e (s.forth e h)) [
        | inl l ↦ inl l
        | inr r ↦ inr (
          full out r,
          comes_before_scores shown e (InOrder-split 100 out shown e s.in_order hs r),
        )
      ],
    )
  where
    nonempty : (xs : List BoardEntry) → Among e xs → 0 < length xs
    nonempty [] h = elim h [ ]
    nonempty (x ∷ xs) h = omega arith

    full : (xs : List BoardEntry) → Among e (drop 100 xs) → length (take 100 xs) ≡ 100
    full xs r = omega (arith, length-take 100 xs, length-drop 100 xs, nonempty (drop 100 xs) r)

length-fixed_profile : (p : Bytes) → length (fixed_profile p) ≡ 132
unfolding fixed_profile
length-fixed_profile p = elim (Bool-cases (length p == 132)) [
  | inl e ↦ rw e (ground arith)
  | inr e ↦ rw e (
      omega (
        arith,
        length-append (take 132 p) (replicate (132 - length p) 0),
        length-take 132 p,
        length-replicate {A = ℕ} (132 - length p) 0,
      ))
]

length-write_row :
    (calendar : ℕ → Calendar) (i : ℕ) (e : BoardEntry) → length (write_row calendar i e) ≡ 164
unfolding write_row le
length-write_row calendar i e = omega (arith, length-fixed_profile e.profile)

length-write_rows :
    (calendar : ℕ → Calendar) (i : ℕ) (es : List BoardEntry)
    → length (write_rows calendar i es) ≡ 164 * length es
unfolding write_rows
length-write_rows calendar i [] = refl
length-write_rows calendar i (e ∷ es) = omega (
  arith,
  length-append (write_row calendar (i + 1) e) (write_rows calendar (i + 1) es),
  length-write_row calendar (i + 1) e,
  length-write_rows calendar (i + 1) es,
)

-- Whatever the profiles are, a board of n entries takes 41 + 164 * n bytes: 9 before the page, 8 at its
-- head, 164 for each row and 24 at its foot.
pub write_board_size :
    (calendar : ℕ → Calendar) (category : ℕ) (es : List BoardEntry)
    → length (write_board calendar category es) ≡ 41 + 164 * length es
unfolding write_board write_page write_buffer
write_board_size calendar category es =
    let rows = write_rows calendar 0 es in
    let foot = write_u32 (length es) ++ (write_u32 4 ++ replicate 16 0) in
    let page = write_u32 category ++ (write_u32 (length es) ++ (rows ++ foot)) in
    omega (
      arith,
      length-write_rows calendar 0 es,
      length-append rows foot,
      length-append (write_u32 (length es)) (write_u32 4 ++ replicate 16 0),
      length-append (write_u32 4) (replicate 16 0),
      length-append (write_u32 (length es)) (rows ++ foot),
      length-append (write_u32 category) (write_u32 (length es) ++ (rows ++ foot)),
      length-append (write_u32 1) (write_u8 0 ++ (write_u32 (length page) ++ page)),
      length-append (write_u8 0) (write_u32 (length page) ++ page),
      length-append (write_u32 (length page)) page,
      length-le 4 1,
      length-le 1 0,
      length-le 4 (length page),
      length-le 4 category,
      length-le 4 (length es),
      length-le 4 4,
    )
