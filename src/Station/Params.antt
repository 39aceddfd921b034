-- ===== src/Station/Params.antt =====
-- nextendo-nex/types.go: reading the parameters of a station address that were set.
use nextendo_mk8d_matchmakin.Base.{
  ℕ, zero, suc, ◌+◌, ◌-◌, ◌*◌, ◌/◌, ◌%◌, ◌^◌, ◌≤◌, ◌<◌, ◌≡◌, ◌≢◌, refl, ap, ◌∙◌, sym, ◌==◌, lt→ltb,
  leb, if◌then◌else◌, true, false, ◌&&◌, none, some, List, [], ◌∷◌, ◌++◌, arith, inl, inr,
  Bool-cases,
}
use nextendo_mk8d_matchmakin.Wire.Out.{Bytes}
use nextendo_mk8d_matchmakin.Session.Variant.{bytes_eq}
use nextendo_mk8d_matchmakin.Session.Keys.{bytes_eq_sound, bytes_eq_refl}
use nextendo_mk8d_matchmakin.Station.{
  StationUrl, find_text, set_text, erase_text, set_param, get_param, has_param, remove_param,
  digits_value, unsigned_digits, positive_bits, atoi_bits, get_int,
}
use nextendo_mk8d_matchmakin.Station.Parse.{decimal, itoa, set_int}
use native.Mathlib.Nat.{pow-suc}

find_text-set_text :
    (k j v : Bytes) (m : List (Bytes × Bytes))
    → find_text j (set_text k v m) ≡ (if bytes_eq k j then some v else find_text j m)
find_text-set_text k j v [] = refl
find_text-set_text k j v ((i, w) ∷ m) = elim (Bool-cases (bytes_eq i k)) [
  | inl e ↦
      let same = bytes_eq_sound i k e in
      rw (e, same) (elim (Bool-cases (bytes_eq k j)) [ inl t ↦ rw t | inr t ↦ rw t ])
  | inr e ↦ rw e (elim (Bool-cases (bytes_eq i j)) [
    | inl t ↦ rw t (apart t e)
    | inr t ↦ rw t (find_text-set_text k j v m)
  ])
]
  where
    apart :
        bytes_eq i j ≡ true
        → bytes_eq i k ≡ false
        → some w ≡ (if bytes_eq k j then some v else some w)
    apart t e = elim (Bool-cases (bytes_eq k j)) [
      | inl u ↦
          let same : i ≡ k = bytes_eq_sound i j t ∙ sym (bytes_eq_sound k j u) in
          let back : bytes_eq i k ≡ true = rw same (bytes_eq_refl k) in absurd (cc (back, e))
      | inr u ↦ rw u
    ]

-- A parameter that was set is read, and every other one is as before.
pub get_param-set_param :
    (u : StationUrl) (k j v : Bytes)
    → get_param (set_param u k v) j ≡ (if bytes_eq k j then v else get_param u j)
unfolding get_param set_param
get_param-set_param u k j v =
    rw (find_text-set_text k j v u.params)
      (elim (Bool-cases (bytes_eq k j)) [ inl t ↦ rw t | inr t ↦ rw t ])

find_text-erase_text :
    (k j : Bytes) (m : List (Bytes × Bytes))
    → find_text j (erase_text k m) ≡ (if bytes_eq k j then none else find_text j m)
find_text-erase_text k j [] = elim (Bool-cases (bytes_eq k j)) [ inl t ↦ rw t | inr t ↦ rw t ]
find_text-erase_text k j ((i, w) ∷ m) = elim (Bool-cases (bytes_eq i k)) [
  | inl e ↦
      let same = bytes_eq_sound i k e in
      rw (e, same, find_text-erase_text k j m)
        (elim (Bool-cases (bytes_eq k j)) [ inl t ↦ rw t | inr t ↦ rw t ])
  | inr e ↦ rw e (elim (Bool-cases (bytes_eq i j)) [
    | inl t ↦ rw t (apart t e)
    | inr t ↦ rw t (find_text-erase_text k j m)
  ])
]
  where
    apart :
        bytes_eq i j ≡ true
        → bytes_eq i k ≡ false
        → some w ≡ (if bytes_eq k j then none else some w)
    apart t e = elim (Bool-cases (bytes_eq k j)) [
      | inl u ↦
          let same : i ≡ k = bytes_eq_sound i j t ∙ sym (bytes_eq_sound k j u) in
          let back : bytes_eq i k ≡ true = rw same (bytes_eq_refl k) in absurd (cc (back, e))
      | inr u ↦ rw u
    ]

-- A parameter that was removed is read as the empty text, and every other one is as before.
pub get_param-remove_param :
    (u : StationUrl) (k j : Bytes)
    → get_param (remove_param u k) j ≡ (if bytes_eq k j then [] else get_param u j)
unfolding get_param remove_param
get_param-remove_param u k j =
    rw (find_text-erase_text k j u.params)
      (elim (Bool-cases (bytes_eq k j)) [ inl t ↦ rw t | inr t ↦ rw t ])

pub has_param-remove_param :
    (u : StationUrl) (k j : Bytes)
    → has_param (remove_param u k) j ≡ (if bytes_eq k j then false else has_param u j)
unfolding has_param remove_param
has_param-remove_param u k j =
    rw (find_text-erase_text k j u.params)
      (elim (Bool-cases (bytes_eq k j)) [ inl t ↦ rw t | inr t ↦ rw t ])

digits_value-snoc :
    (acc : ℕ) (cs : Bytes) (n c : ℕ)
    → digits_value acc cs ≡ some n
    → b'0' ≤ c
    → c ≤ b'9'
    → digits_value acc (cs ++ (c ∷ [])) ≡ some (n * 10 + (c - b'0'))
unfolding digits_value
digits_value-snoc acc [] n c h lo hi = ground arith
digits_value-snoc acc (d ∷ cs) n c h lo hi = elim (Bool-cases (leb b'0' d && leb d b'9')) [
  | inl e ↦ rw e (digits_value-snoc (acc * 10 + (d - b'0')) cs n c (rw e at h) lo hi)
  | inr e ↦ absurd (cc (rw e at h))
]

digits_value-decimal : (fuel n : ℕ) → n < 10 ^ fuel → digits_value 0 (decimal fuel n) ≡ some n
unfolding decimal
digits_value-decimal zero n h = unfold digits_value in ap some (omega arith)
digits_value-decimal (suc fuel) n h = elim (Bool-cases (n / 10 == 0)) [
  | inl e ↦ rw e (
      digits_value-snoc 0 [] 0 (b'0' + n % 10) (unfold digits_value in refl) (omega arith)
        (omega arith)
      ∙ ap some (ground arith))
  | inr e ↦
      let less : n / 10 < 10 ^ fuel = omega (arith, pow-suc 10 fuel) in
      rw e (
        digits_value-snoc 0 (decimal fuel (n / 10)) (n / 10) (b'0' + n % 10)
          (digits_value-decimal fuel (n / 10) less) (omega arith) (omega arith)
        ∙ ap some (omega arith))
]

digits_value_head :
    (c n : ℕ) (cs : Bytes) → digits_value 0 (c ∷ cs) ≡ some n → (leb b'0' c && leb c b'9') ≡ true
unfolding digits_value
digits_value_head c n cs h = elim (Bool-cases (leb b'0' c && leb c b'9')) [
  | inl t ↦ t
  | inr t ↦ absurd (cc (rw t at h))
]

atoi_bits_digits :
    (text : Bytes) (n : ℕ)
    → digits_value 0 text ≡ some n
    → text ≢ []
    → n < 2 ^ 63
    → atoi_bits text ≡ n
unfolding atoi_bits unsigned_digits positive_bits
atoi_bits_digits [] n h e small = absurd (e refl)
atoi_bits_digits (c ∷ cs) n h e small =
    let digit = digits_value_head c n cs h in
    let minus : (c == b'-') ≡ false = ground arith in
    let plus : (c == b'+') ≡ false = ground arith in rw (minus, plus, h) (ground arith)

snoc_nonempty : (xs : Bytes) (c : ℕ) → (xs ++ (c ∷ [])) ≢ []
snoc_nonempty [] c h = cc
snoc_nonempty (x ∷ xs) c h = cc

decimal_nonempty : (fuel n : ℕ) → decimal (suc fuel) n ≢ []
unfolding decimal
decimal_nonempty fuel n = snoc_nonempty _ _

-- An integer parameter below 2 ^ 63 that was set is read.
pub get_int-set_int :
    (u : StationUrl) (k : Bytes) (v : ℕ) → v < 2 ^ 63 → get_int (set_int u k v) k ≡ v
unfolding get_int set_int itoa
get_int-set_int u k v h =
    rw (lt→ltb v (2 ^ 63) h, get_param-set_param u k k (decimal 20 v), bytes_eq_refl k)
      (atoi_bits_digits (decimal 20 v) v (digits_value-decimal 20 v (omega arith))
        (decimal_nonempty 19 v) h)

-- Setting one parameter leaves the integers of the others.
pub get_int-set_param_ne :
    (u : StationUrl) (k j v : Bytes)
    → bytes_eq k j ≡ false
    → get_int (set_param u k v) j ≡ get_int u j
unfolding get_int
get_int-set_param_ne u k j v h = rw (get_param-set_param u k j v, h)
