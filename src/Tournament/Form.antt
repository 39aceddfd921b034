-- ===== src/Tournament/Form.antt =====
-- nextendo-nex/tournament.go: the form of a tournament's structure, and what completing it yields.
use nextendo_mk8d_matchmakin.Base.{
  ℕ, suc, ◌+◌, ◌-◌, ◌%◌, ◌^◌, ◌≤◌, ◌<◌, ◌≡◌, ap, ◌∙◌, sym, ◌==◌, ltb, leb, true, false, not, ◌||◌,
  some, List, [], ◌∷◌, ◌++◌, arith,
}
use nextendo_mk8d_matchmakin.Base.Lists.{
  length, take, drop, All, length-append, take-append_length, drop-append_length,
}
use nextendo_mk8d_matchmakin.Wire.Out.{Bytes, le}
use nextendo_mk8d_matchmakin.Tournament.Blob.{walk_properties, tournament_code_offset, le16_at}
use nextendo_mk8d_matchmakin.Wire.Reads.{length-le, le_value-le}
use mathlib.Core.List.{append_assoc}

-- A rule of the property list: its id, its type and its value.
pub data Property : Type 0 where
  short : (id a b : ℕ) → Property
  medium : (id a b c : ℕ) → Property
  long : (id a b c d e : ℕ) → Property

abbrev pub property_bytes : Property → Bytes
property_bytes (short id a b) = id ∷ 1 ∷ a ∷ b ∷ []
property_bytes (medium id a b c) = id ∷ 2 ∷ a ∷ b ∷ c ∷ []
property_bytes (long id a b c d e) = id ∷ 4 ∷ a ∷ b ∷ c ∷ d ∷ e ∷ []

abbrev pub property_id : Property → ℕ
property_id (short id a b) = id
property_id (medium id a b c) = id
property_id (long id a b c d e) = id

abbrev pub properties_bytes : List Property → Bytes
properties_bytes [] = []
properties_bytes (p ∷ ps) = property_bytes p ++ properties_bytes ps

-- No rule has the id that ends the list.
abbrev pub AreRules : List Property → Type 0
AreRules ps = All (λ p. (property_id p == 0xFF) ≡ false) ps

walk_property :
    (p : Property) (pos : ℕ) (bs : Bytes)
    → (property_id p == 0xFF) ≡ false
    → walk_properties 0 pos (property_bytes p ++ bs)
      ≡ walk_properties 0 (pos + length (property_bytes p)) bs
unfolding walk_properties
walk_property (short id a b) pos bs h =
    let e : (suc (suc (suc (length bs))) == 0) ≡ false = ground arith in
    rw (h, e) (ap (λ (k : ℕ). walk_properties 0 k bs) (omega arith))
walk_property (medium id a b c) pos bs h =
    let e : (suc (suc (suc (suc (length bs)))) == 0) ≡ false = ground arith in
    rw (h, e) (ap (λ (k : ℕ). walk_properties 0 k bs) (omega arith))
walk_property (long id a b c d e) pos bs h =
    let l : (suc (suc (suc (suc (suc (suc (length bs)))))) == 0) ≡ false = ground arith in
    rw (h, l) (ap (λ (k : ℕ). walk_properties 0 k bs) (omega arith))

-- The walk passes the rules.
pub walk_rules :
    (ps : List Property) (pos : ℕ) (bs : Bytes)
    → AreRules ps
    → walk_properties 0 pos (properties_bytes ps ++ bs)
      ≡ walk_properties 0 (pos + length (properties_bytes ps)) bs
walk_rules [] pos bs h = ap (λ (k : ℕ). walk_properties 0 k bs) (omega arith)
walk_rules (p ∷ ps) pos bs h = rw (append_assoc (property_bytes p) (properties_bytes ps) bs) (
    walk_property p pos (properties_bytes ps ++ bs) h.0
    ∙ walk_rules ps (pos + length (property_bytes p)) bs h.1
    ∙ ap (λ (k : ℕ). walk_properties 0 k bs)
        (omega (arith, length-append (property_bytes p) (properties_bytes ps))))

-- The structure that a creator sends, taken apart: four bytes of id and eight of mark, what stands
-- before the name, the name, the rules and the end of their list, and what stands behind the code.
pub record Form : Type 0 where
  pub id_bytes : Bytes
  pub mark_bytes : Bytes
  pub before : Bytes
  pub name : Bytes
  pub rules : List Property
  pub e1 : ℕ
  pub e2 : ℕ
  pub e3 : ℕ
  pub e4 : ℕ
  pub after : Bytes

-- The bytes between the mark and the code.
unfoldable pub middle_bytes : Form → Bytes
middle_bytes f =
    f.before
    ++ (le 2 (length f.name)
        ++ (f.name ++ (properties_bytes f.rules ++ (0xFF ∷ f.e1 ∷ f.e2 ∷ f.e3 ∷ f.e4 ∷ []))))

-- The whole structure, with an id, a mark and the code as a string of the wire.
unfoldable pub form_bytes : Form → Bytes → Bytes → Bytes → Bytes
form_bytes f id mark code = id ++ (mark ++ (middle_bytes f ++ (code ++ f.after)))

pub record IsForm (f : Form) : Type 0 where
  pub id_size : length f.id_bytes ≡ 4
  pub mark_size : length f.mark_bytes ≡ 8
  pub before_size : length f.before ≡ 0x69 - 12
  pub name_size : length f.name < 256 ^ 2
  pub name_end : 2 ≤ length f.name
  pub name_even : length f.name % 2 ≡ 0
  pub are_rules : AreRules f.rules

-- What the creator sends: an empty string for the code.
abbrev pub payload_bytes : Form → Bytes
payload_bytes f = form_bytes f f.id_bytes f.mark_bytes (1 ∷ 0 ∷ 0 ∷ [])

abbrev pub code_place : Form → ℕ
code_place f = 12 + length (middle_bytes f)

pub take_exact : (n : ℕ) (xs ys : Bytes) → length xs ≡ n → take n (xs ++ ys) ≡ xs
take_exact n xs ys h = rw (← h) (take-append_length xs ys)

pub drop_exact : (n : ℕ) (xs ys : Bytes) → length xs ≡ n → drop n (xs ++ ys) ≡ ys
drop_exact n xs ys h = rw (← h) (drop-append_length xs ys)

-- What follows the rules.
abbrev ending : Form → Bytes → Bytes
ending f code = 0xFF ∷ f.e1 ∷ f.e2 ∷ f.e3 ∷ f.e4 ∷ (code ++ f.after)

abbrev prefix : Form → Bytes → Bytes → Bytes
prefix f id mark = id ++ (mark ++ f.before)

form_bytes_name :
    (f : Form) (id mark code : Bytes)
    → form_bytes f id mark code
      ≡ prefix f id mark
        ++ (le 2 (length f.name) ++ (f.name ++ (properties_bytes f.rules ++ ending f code)))
unfolding form_bytes middle_bytes
form_bytes_name f id mark code = simp append_assoc

length-prefix :
    (f : Form) (id mark : Bytes)
    → IsForm f
    → length id ≡ 4
    → length mark ≡ 8
    → length (prefix f id mark) ≡ 0x69
length-prefix f id mark ok hi hm =
    omega (arith, ok.before_size, length-append id (mark ++ f.before), length-append mark f.before)

form_name_length :
    (f : Form) (id mark code : Bytes)
    → IsForm f
    → length id ≡ 4
    → length mark ≡ 8
    → le16_at 0x69 (form_bytes f id mark code) ≡ length f.name
form_name_length f id mark code ok hi hm =
    rw
      (
        form_bytes_name f id mark code,
        drop_exact 0x69 (prefix f id mark) _ (length-prefix f id mark ok hi hm),
        take_exact 2 (le 2 (length f.name)) (f.name ++ (properties_bytes f.rules ++ ending f code))
            (length-le 2 (length f.name)),
      )
      (le_value-le 2 (length f.name) ok.name_size)

form_rules_at :
    (f : Form) (id mark code : Bytes)
    → IsForm f
    → length id ≡ 4
    → length mark ≡ 8
    → drop (0x69 + 2 + length f.name) (form_bytes f id mark code)
      ≡ properties_bytes f.rules ++ ending f code
form_rules_at f id mark code ok hi hm =
    let head = prefix f id mark ++ (le 2 (length f.name) ++ f.name) in
    let split : form_bytes f id mark code ≡ head ++ (properties_bytes f.rules ++ ending f code) =
      form_bytes_name f id mark code ∙ simp append_assoc in
    rw split (
      drop_exact (0x69 + 2 + length f.name) head _ (
        omega (
          arith,
          length-prefix f id mark ok hi hm,
          length-le 2 (length f.name),
          length-append (prefix f id mark) (le 2 (length f.name) ++ f.name),
          length-append (le 2 (length f.name)) f.name,
        )))

walk_ending :
    (f : Form) (pos : ℕ) (code : Bytes)
    → 3 ≤ length code
    → walk_properties 0 pos (ending f code) ≡ some (pos + 5)
unfolding walk_properties
walk_ending f pos code h =
    let l = length-append code f.after in
    let e : leb 8 (suc (suc (suc (suc (suc (length (code ++ f.after))))))) ≡ true =
      ground (arith, l) in
    rw e

pub length-middle_bytes :
    (f : Form)
    → IsForm f
    → 12 + length (middle_bytes f)
      ≡ 0x69 + 2 + length f.name + length (properties_bytes f.rules) + 5
unfolding middle_bytes
length-middle_bytes f ok =
    let end = 0xFF ∷ f.e1 ∷ f.e2 ∷ f.e3 ∷ f.e4 ∷ [] in
    omega (
      arith,
      ok.before_size,
      length-le 2 (length f.name),
      length-append f.before
          (le 2 (length f.name) ++ (f.name ++ (properties_bytes f.rules ++ end))),
      length-append (le 2 (length f.name)) (f.name ++ (properties_bytes f.rules ++ end)),
      length-append f.name (properties_bytes f.rules ++ end),
      length-append (properties_bytes f.rules) end,
    )

pub length-form_bytes :
    (f : Form) (id mark code : Bytes)
    → length id ≡ 4
    → length mark ≡ 8
    → length (form_bytes f id mark code) ≡ code_place f + length code + length f.after
unfolding form_bytes
length-form_bytes f id mark code hi hm = omega (
  arith,
  length-append id (mark ++ (middle_bytes f ++ (code ++ f.after))),
  length-append mark (middle_bytes f ++ (code ++ f.after)),
  length-append (middle_bytes f) (code ++ f.after),
  length-append code f.after,
)

-- The code is found behind the end of the rules, whatever the id, the mark and the code are.
pub form_code_offset :
    (f : Form) (id mark code : Bytes)
    → IsForm f
    → length id ≡ 4
    → length mark ≡ 8
    → 3 ≤ length code
    → tournament_code_offset (form_bytes f id mark code) ≡ some (code_place f)
unfolding tournament_code_offset
form_code_offset f id mark code ok hi hm hc =
    let n = length f.name in
    let big : ltb (length (form_bytes f id mark code)) (0x69 + 2) ≡ false =
      ground (arith, length-form_bytes f id mark code hi hm, length-middle_bytes f ok) in
    let named : (ltb n 2 || not (n % 2 == 0)) ≡ false = ground (arith, ok.name_end, ok.name_even) in
    rw (form_name_length f id mark code ok hi hm, big, named)
      (rw (form_rules_at f id mark code ok hi hm) (
        walk_rules f.rules (0x69 + 2 + n) (ending f code) ok.are_rules
        ∙ walk_ending f (0x69 + 2 + n + length (properties_bytes f.rules)) code hc
        ∙ ap some (sym (length-middle_bytes f ok))))
