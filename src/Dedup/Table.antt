-- ===== src/Dedup/Table.antt =====
-- server/rmc_dedup.go: the map from keys to entries: what its operations do to a look-up.
use nextendo_mk8d_matchmakin.Session.Keys.{bytes_eq_sound, bytes_eq_refl}
use nextendo_mk8d_matchmakin.Base.{
  ℕ, suc, ◌≤◌, ◌≡◌, refl, if◌then◌else◌, Bool, true, false, none, some, [], ◌∷◌, arith, inl, inr,
  Bool-cases,
}
use nextendo_mk8d_matchmakin.Base.Lists.{length}
use nextendo_mk8d_matchmakin.Dedup.{
  Key, key_eq, Entry, Entries, find_entry, put_entry, erase_entry, is_kept, prune,
}

pub key_eq_sound : (a b : Key) → key_eq a b ≡ true → a ≡ b
key_eq_sound a b h = ground (arith, bytes_eq_sound a.body_hash b.body_hash)

pub key_eq_refl : (a : Key) → key_eq a a ≡ true
key_eq_refl a = ground (arith, bytes_eq_refl a.body_hash)

pub key_eq_sym : (a b : Key) → key_eq a b ≡ true → key_eq b a ≡ true
key_eq_sym a b h = rw (key_eq_sound a b h) (key_eq_refl b)

pub key_ne_sym : (a b : Key) → key_eq a b ≡ false → key_eq b a ≡ false
key_ne_sym a b h = elim (Bool-cases (key_eq b a)) [
  | inl t ↦ absurd (both (key_eq_sym b a t) h)
  | inr t ↦ t
]
  where
    both : {x : Bool} → x ≡ true → x ≡ false → ⊥
    both p q = cc

-- A key that differs from one key and equals another tells the two apart.
apart : (i k j : Key) → key_eq i k ≡ false → key_eq i j ≡ true → key_eq k j ≡ false
apart i k j h t = rw (key_eq_sound i j t) at (key_ne_sym i k h)

pub find-put :
    (k j : Key) (e : Entry) (m : Entries)
    → find_entry j (put_entry k e m) ≡ (if key_eq k j then some e else find_entry j m)
find-put k j e [] = refl
find-put k j e ((i, f) ∷ m) = elim (Bool-cases (key_eq i k)) [
  | inl t ↦ rw (key_eq_sound i k t, key_eq_refl k) (ground arith)
  | inr t ↦ rw t (elim (Bool-cases (key_eq i j)) [
    | inl u ↦ rw (u, apart i k j t u) refl
    | inr u ↦ rw u (find-put k j e m)
  ])
]

pub find-erase :
    (k j : Key) (m : Entries)
    → find_entry j (erase_entry k m) ≡ (if key_eq k j then none else find_entry j m)
find-erase k j [] = ground arith
find-erase k j ((i, f) ∷ m) = elim (Bool-cases (key_eq i k)) [
  | inl t ↦ rw (key_eq_sound i k t, key_eq_refl k, find-erase k j m) (ground arith)
  | inr t ↦ rw t (elim (Bool-cases (key_eq i j)) [
    | inl u ↦ rw (u, apart i k j t u) refl
    | inr u ↦ rw u (find-erase k j m)
  ])
]

pub length-put : (k : Key) (e : Entry) (m : Entries) → length (put_entry k e m) ≤ suc (length m)
length-put k e [] = omega arith
length-put k e ((i, f) ∷ m) = ground (arith, length-put k e m)

pub length-put_found :
    (k : Key) (e f : Entry) (m : Entries)
    → find_entry k m ≡ some f
    → length (put_entry k e m) ≡ length m
length-put_found k e f [] h = cc
length-put_found k e f ((i, g) ∷ m) h = ground (arith, length-put_found k e f m)

pub length-erase_le : (k : Key) (m : Entries) → length (erase_entry k m) ≤ length m
length-erase_le k [] = omega arith
length-erase_le k ((i, f) ∷ m) = ground (arith, length-erase_le k m)

pub length-prune_le : (now : ℕ) (m : Entries) → length (prune now m) ≤ length m
unfolding prune
length-prune_le now [] = omega arith
length-prune_le now ((i, f) ∷ m) = ground (arith, length-prune_le now m)

-- What pruning keeps is still found.
pub find-prune :
    (now : ℕ) (k : Key) (e : Entry) (m : Entries)
    → find_entry k m ≡ some e
    → is_kept now e ≡ true
    → find_entry k (prune now m) ≡ some e
unfolding prune
find-prune now k e [] h kept = cc
find-prune now k e ((i, f) ∷ m) h kept = ground (arith, find-prune now k e m)
