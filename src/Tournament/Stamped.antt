-- ===== src/Tournament/Stamped.antt =====
-- nextendo-nex/tournament.go: what completing a tournament's structure yields, and that it passes the
-- check on stored tournaments.
use nextendo_mk8d_matchmakin.Base.{
  ℕ, zero, suc, ◌+◌, ◌-◌, ◌^◌, ◌≤◌, ◌<◌, ◌≡◌, refl, ap, ◌∙◌, sym, ◌==◌, ==_refl, ltb, leb, true,
  false, some, [], ◌∷◌, ◌++◌, arith,
}
use nextendo_mk8d_matchmakin.Base.Lists.{length, take, drop, get_or, length-append}
use nextendo_mk8d_matchmakin.Wire.Out.{Bytes, le, write_u32}
use nextendo_mk8d_matchmakin.Wire.Reads.{length-le, le_value-le}
use nextendo_mk8d_matchmakin.Session.Keys.{bytes_eq_refl}
use nextendo_mk8d_matchmakin.Tournament.Blob.{
  Tournament, tournament_code_offset, le16_at, copy_into, stamp_head, stamp_code, stamp_tournament,
  code_string, valid_tournament_code, tournament_code, all_digits, matches_at,
  tournament_code_matches, valid_stored_tournament,
}
use nextendo_mk8d_matchmakin.Tournament.Form.{
  Form, IsForm, form_bytes, middle_bytes, payload_bytes, code_place, form_code_offset, take_exact,
  drop_exact, length-form_bytes, length-middle_bytes,
}
use mathlib.Core.List.{append_assoc}

length-tournament_code : (ds : Bytes) → length (tournament_code ds) ≡ length ds
unfolding tournament_code
length-tournament_code [] = refl
length-tournament_code (v ∷ vs) = ap suc (length-tournament_code vs)

all_digits-tournament_code : (ds : Bytes) → all_digits (tournament_code ds) ≡ true
unfolding tournament_code all_digits
all_digits-tournament_code [] = refl
all_digits-tournament_code (v ∷ vs) = ground (arith, all_digits-tournament_code vs)

-- A code drawn from twelve bytes is valid.
pub valid-tournament_code :
    (ds : Bytes) → length ds ≡ 12 → valid_tournament_code (tournament_code ds) ≡ true
unfolding valid_tournament_code
valid-tournament_code ds h =
    ground (arith, length-tournament_code ds, all_digits-tournament_code ds)

length-valid_code : (code : Bytes) → valid_tournament_code code ≡ true → length code ≡ 12
unfolding valid_tournament_code
length-valid_code code h = ground arith

copy_into_whole : (dst src : Bytes) → length dst ≡ length src → copy_into dst src ≡ src
unfolding copy_into
copy_into_whole [] [] h = refl
copy_into_whole [] (v ∷ src) h = absurd (omega arith)
copy_into_whole (d ∷ dst) [] h = absurd (omega arith)
copy_into_whole (d ∷ dst) (v ∷ src) h = ap (λ t. v ∷ t) (copy_into_whole dst src (omega arith))

-- The structure up to the code.
abbrev pub start_bytes : Form → Bytes → Bytes → Bytes
start_bytes f id mark = id ++ (mark ++ middle_bytes f)

form_bytes_split :
    (f : Form) (id mark code : Bytes)
    → form_bytes f id mark code ≡ start_bytes f id mark ++ (code ++ f.after)
unfolding form_bytes
form_bytes_split f id mark code = simp append_assoc

module _ (f : Form) (id mark : Bytes) (hi : length id ≡ 4) (hm : length mark ≡ 8) where
  length-start_bytes : length (start_bytes f id mark) ≡ code_place f
  length-start_bytes =
      omega (arith, length-append id (mark ++ middle_bytes f), length-append mark (middle_bytes f))

  take_start :
      (code : Bytes) → take (code_place f) (form_bytes f id mark code) ≡ start_bytes f id mark
  take_start code =
      rw (form_bytes_split f id mark code)
        (take_exact (code_place f) (start_bytes f id mark) _ length-start_bytes)

  pub drop_start :
      (code : Bytes) → drop (code_place f) (form_bytes f id mark code) ≡ code ++ f.after
  drop_start code =
      rw (form_bytes_split f id mark code)
        (drop_exact (code_place f) (start_bytes f id mark) _ length-start_bytes)

  drop_code :
      (code : Bytes) (n : ℕ)
      → length code ≡ n
      → drop (code_place f + n) (form_bytes f id mark code) ≡ f.after
  drop_code code n h =
      let split : form_bytes f id mark code ≡ (start_bytes f id mark ++ code) ++ f.after =
        form_bytes_split f id mark code ∙ simp append_assoc in
      rw split (
        drop_exact (code_place f + n) (start_bytes f id mark ++ code) f.after
          (omega (arith, length-start_bytes, length-append (start_bytes f id mark) code)))

stamp_head_form :
    (f : Form) (id : ℕ) (mark code : Bytes)
    → IsForm f
    → length mark ≡ 8
    → stamp_head (form_bytes f f.id_bytes f.mark_bytes code) id mark
      ≡ form_bytes f (write_u32 id) mark code
unfolding stamp_head form_bytes
stamp_head_form f id mark code ok hm =
    let rest = middle_bytes f ++ (code ++ f.after) in
    let assoc : f.id_bytes ++ (f.mark_bytes ++ rest) ≡ (f.id_bytes ++ f.mark_bytes) ++ rest =
      simp append_assoc in
    rw
      (
        drop_exact 4 f.id_bytes (f.mark_bytes ++ rest) ok.id_size,
        take_exact 8 f.mark_bytes rest ok.mark_size,
        copy_into_whole f.mark_bytes mark (ok.mark_size ∙ sym hm),
      )
      (ap (λ (t : Bytes). write_u32 id ++ (mark ++ t))
        (rw assoc (
          drop_exact 12 (f.id_bytes ++ f.mark_bytes) rest
            (omega (arith, ok.id_size, ok.mark_size, length-append f.id_bytes f.mark_bytes)))))

-- Completing a structure of the form puts the id and the mark in their places and the code, as a
-- string, in the place of the empty string, and changes nothing else.
pub stamp_tournament_form :
    (f : Form) (id : ℕ) (mark code : Bytes)
    → IsForm f
    → length mark ≡ 8
    → valid_tournament_code code ≡ true
    → stamp_tournament (payload_bytes f) id mark code
      ≡ form_bytes f (write_u32 id) mark (code_string code)
unfolding stamp_tournament stamp_code
stamp_tournament_form f id mark code ok hm valid =
    let hi : length (write_u32 id) ≡ 4 = length-le 4 id in
    let empty : Bytes = 1 ∷ 0 ∷ 0 ∷ [] in
    let big : ltb (length (payload_bytes f)) 12 ≡ false =
      ground (arith, length-form_bytes f f.id_bytes f.mark_bytes empty ok.id_size ok.mark_size) in
    rw
      (
        big,
        stamp_head_form f id mark empty ok hm,
        form_code_offset f (write_u32 id) mark empty ok hi hm (omega arith),
      )
      (rw (
        valid,
        drop_start f (write_u32 id) mark hi hm empty,
        take_start f (write_u32 id) mark hi hm empty,
        drop_code f (write_u32 id) mark hi hm empty 3 refl,
        form_bytes_split f (write_u32 id) mark (code_string code),
      ))

length-code_string : (code : Bytes) → length code ≡ 12 → length (code_string code) ≡ 15
length-code_string code h = omega (
  arith,
  length-le 2 (length code + 1),
  length-append (le 2 (length code + 1)) (code ++ (0 ∷ [])),
  length-append code (0 ∷ []),
)

get_or-drop : (n : ℕ) (xs : Bytes) (d : ℕ) → get_or xs n d ≡ get_or (drop n xs) 0 d
get_or-drop zero [] d = refl
get_or-drop zero (x ∷ xs) d = refl
get_or-drop (suc n) [] d = refl
get_or-drop (suc n) (x ∷ xs) d = get_or-drop n xs d

module _ (f : Form) (id mark code : Bytes) (ok : IsForm f) (hi : length id ≡ 4)
    (hm : length mark ≡ 8) (valid : valid_tournament_code code ≡ true) where
  stamped : Bytes
  stamped = form_bytes f id mark (code_string code)

  hc : length code ≡ 12
  hc = length-valid_code code valid

  code_length_field : le16_at (code_place f) stamped ≡ 13
  unfolding stamped
  code_length_field =
      rw
        (
          drop_start f id mark hi hm (code_string code),
          append_assoc (le 2 (length code + 1)) (code ++ (0 ∷ [])) f.after,
          take_exact 2 (le 2 (length code + 1)) ((code ++ (0 ∷ [])) ++ f.after)
              (length-le 2 (length code + 1)),
        )
        (le_value-le 2 (length code + 1) (omega (arith, hc)) ∙ omega (arith, hc))

  -- The structure taken apart once more, before and behind the digits.
  at_digits : stamped ≡ (start_bytes f id mark ++ le 2 (length code + 1)) ++ (code ++ (0 ∷ f.after))
  unfolding stamped
  at_digits = form_bytes_split f id mark (code_string code) ∙ simp append_assoc

  code_digits_field : take 12 (drop (code_place f + 2) stamped) ≡ code
  code_digits_field =
      rw
        (
          at_digits,
          drop_exact (code_place f + 2) (start_bytes f id mark ++ le 2 (length code + 1))
              (code ++ (0 ∷ f.after))
              (omega (
                arith,
                length-start_bytes f id mark hi hm,
                length-le 2 (length code + 1),
                length-append (start_bytes f id mark) (le 2 (length code + 1)),
              )),
        )
        (take_exact 12 code (0 ∷ f.after) hc)

  code_end_field : get_or stamped (code_place f + 14) 0 ≡ 0
  code_end_field =
      let head = (start_bytes f id mark ++ le 2 (length code + 1)) ++ code in
      let split : stamped ≡ head ++ (0 ∷ f.after) = at_digits ∙ simp append_assoc in
      get_or-drop (code_place f + 14) stamped 0
      ∙ rw (
        split,
        drop_exact (code_place f + 14) head (0 ∷ f.after) (
            omega (
              arith,
              hc,
              length-start_bytes f id mark hi hm,
              length-le 2 (length code + 1),
              length-append (start_bytes f id mark ++ le 2 (length code + 1)) code,
              length-append (start_bytes f id mark) (le 2 (length code + 1)),
            )),
      )

  length-stamped : length stamped ≡ code_place f + 15 + length f.after
  unfolding stamped
  length-stamped =
      omega
        (arith, length-form_bytes f id mark (code_string code) hi hm, length-code_string code hc)

  stamped_matches : tournament_code_matches stamped code ≡ true
  unfolding tournament_code_matches matches_at
  stamped_matches =
      let offset : tournament_code_offset stamped ≡ some (code_place f) =
        unfold stamped in
        form_code_offset f id mark (code_string code) ok hi hm
          (omega (arith, length-code_string code hc)) in
      let room : leb (code_place f + 2) (length stamped) ≡ true = ground (arith, length-stamped) in
      let whole : leb (code_place f + 2 + 13) (length stamped) ≡ true =
        ground (arith, length-stamped) in
      let place : code_place f + 2 + 13 - 1 ≡ code_place f + 14 = omega arith in
      rw (
        offset,
        valid,
        code_length_field,
        room,
        whole,
        place,
        code_end_field,
        code_digits_field,
        bytes_eq_refl code,
      )

-- A tournament whose structure is of the form, with its id, which fits 32 bits and is not 0, and its
-- code, and is at most 12 bytes longer than what a creator may send, passes the check.
pub valid_stored_form :
    (f : Form) (t : Tournament) (mark : Bytes)
    → IsForm f
    → length mark ≡ 8
    → valid_tournament_code t.code ≡ true
    → (t.id == 0) ≡ false
    → t.id < 256 ^ 4
    → length (payload_bytes f) ≤ 4096
    → t.blob ≡ form_bytes f (write_u32 t.id) mark (code_string t.code)
    → valid_stored_tournament t ≡ true
unfolding valid_stored_tournament
valid_stored_form f t mark ok hm valid nonzero small fits e =
    let hi : length (write_u32 t.id) ≡ 4 = length-le 4 t.id in
    let long = length-stamped f (write_u32 t.id) mark t.code ok hi hm valid in
    let sent =
      length-form_bytes f f.id_bytes f.mark_bytes (1 ∷ 0 ∷ 0 ∷ []) ok.id_size ok.mark_size in
    let matches = stamped_matches f (write_u32 t.id) mark t.code ok hi hm valid in
    let first : take 4 (form_bytes f (write_u32 t.id) mark (code_string t.code)) ≡ write_u32 t.id =
      unfold form_bytes in take_exact 4 (write_u32 t.id) _ hi in
    unfold stamped in
    let low : leb 12 (length (form_bytes f (write_u32 t.id) mark (code_string t.code))) ≡ true =
      ground (arith, long, length-middle_bytes f ok) in
    let high : leb (length (form_bytes f (write_u32 t.id) mark (code_string t.code))) (4096 + 12)
        ≡ true =
      ground (arith, long, sent) in
    rw (e, nonzero, low, high, first, le_value-le 4 t.id small, ==_refl t.id, matches)
