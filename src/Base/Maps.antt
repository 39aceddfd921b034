-- ===== src/Base/Maps.antt =====
-- A Go map keyed by numbers as an association list. The order of the list carries no meaning of its
-- own: where the source ranges over a map, the model takes the order as an argument or states a
-- result that holds for each order.
use Prim.Native.Nat.{ℕ, suc, ◌≤◌, ◌<◌}
use mathlib.Core.Path.{◌≡◌, refl}
use mathlib.Core.Bool.{Bool, true, false}
use mathlib.Core.Option.{Option, none, some}
use mathlib.Core.List.{List, [], ◌∷◌}
use native.Mathlib.Omega.{arith}
use nextendo_mk8d_matchmakin.Base.Tests.{◌==◌, if◌then◌else◌}
use nextendo_mk8d_matchmakin.Base.Lists.{length}

abbrev pub Table {ℓ} : Type ℓ → Type ℓ
Table V = List (ℕ × V)

module _ {ℓ} {V : Type ℓ} where
  -- `m[k]`, with `none` for a missing key.
  abbrev pub find : ℕ → Table V → Option V
  find k [] = none
  find k ((j, v) ∷ m) = if j == k then some v else find k m

  abbrev pub has : ℕ → Table V → Bool
  has k [] = false
  has k ((j, v) ∷ m) = if j == k then true else has k m

  -- `m[k] = v`
  abbrev pub insert : ℕ → V → Table V → Table V
  insert k v [] = (k, v) ∷ []
  insert k v ((j, w) ∷ m) = if j == k then (k, v) ∷ m else (j, w) ∷ insert k v m

  -- `delete(m, k)`
  abbrev pub erase : ℕ → Table V → Table V
  erase k [] = []
  erase k ((j, w) ∷ m) = if j == k then erase k m else (j, w) ∷ erase k m

  abbrev pub keys : Table V → List ℕ
  keys [] = []
  keys ((j, w) ∷ m) = j ∷ keys m

  -- The entries whose value passes the test.
  abbrev pub keep_values : (V → Bool) → Table V → Table V
  keep_values p [] = []
  keep_values p ((j, w) ∷ m) = if p w then (j, w) ∷ keep_values p m else keep_values p m

  pub find-insert :
      (k j : ℕ) (v : V) (m : Table V)
      → find j (insert k v m) ≡ (if k == j then some v else find j m)
  find-insert k j v [] = refl
  find-insert k j v ((i, w) ∷ m) = ground (arith, find-insert k j v m)

  pub find-erase :
      (k j : ℕ) (m : Table V) → find j (erase k m) ≡ (if k == j then none else find j m)
  find-erase k j [] = ground arith
  find-erase k j ((i, w) ∷ m) = ground (arith, find-erase k j m)

  pub length-erase_le : (k : ℕ) (m : Table V) → length (erase k m) ≤ length m
  length-erase_le k [] = omega arith
  length-erase_le k ((i, w) ∷ m) = ground (arith, length-erase_le k m)

  -- Deleting a key that is there makes the map smaller.
  pub length-erase_found : (k : ℕ) (m : Table V) → has k m ≡ true → length (erase k m) < length m
  length-erase_found k [] h = cc
  length-erase_found k ((i, w) ∷ m) h = ground (arith, length-erase_le k m, length-erase_found k m)

  pub length-keep_values_le : (p : V → Bool) (m : Table V) → length (keep_values p m) ≤ length m
  length-keep_values_le p [] = omega arith
  length-keep_values_le p ((i, w) ∷ m) = ground (arith, length-keep_values_le p m)

  -- Writing to a key that is there keeps the size; any other write adds one.
  pub length-insert :
      (k : ℕ) (v : V) (m : Table V)
      → length (insert k v m) ≡ (if has k m then length m else suc (length m))
  length-insert k v [] = refl
  length-insert k v ((i, w) ∷ m) = ground (arith, length-insert k v m)

  pub has-find : (k : ℕ) (m : Table V) {v : V} → find k m ≡ some v → has k m ≡ true
  has-find k [] h = cc
  has-find k ((i, w) ∷ m) {v} h = ground (arith, has-find k m {v = v})

  pub find-has-none : (k : ℕ) (m : Table V) → has k m ≡ false → find k m ≡ none
  find-has-none k [] h = refl
  find-has-none k ((i, w) ∷ m) h = ground (arith, find-has-none k m)

  pub has-find-none : (k : ℕ) (m : Table V) → find k m ≡ none → has k m ≡ false
  has-find-none k [] h = refl
  has-find-none k ((i, w) ∷ m) h = ground (arith, has-find-none k m)

  -- A property of every entry's value, read and written through the operations.
  abbrev pub Every {κ} : (ℕ → V → Type κ) → Table V → Type κ
  Every P [] = Unit {κ}
  Every P ((j, v) ∷ m) = P j v × Every P m

module _ {ℓ κ} {V : Type ℓ} (P : ℕ → V → Type κ) where
  pub Every-find : (k : ℕ) (m : Table V) {v : V} → Every P m → find k m ≡ some v → P k v
  Every-find k [] {v} e h = cc
  Every-find k ((j, w) ∷ m) {v} e h = ground (arith, Every-find k m {v = v} e.1, e.0)

  pub Every-insert : (k : ℕ) (v : V) (m : Table V) → P k v → Every P m → Every P (insert k v m)
  Every-insert k v [] h e = (h, tt)
  Every-insert k v ((j, w) ∷ m) h e = ground (arith, Every-insert k v m h e.1, h, e.0, e.1)

  pub Every-erase : (k : ℕ) (m : Table V) → Every P m → Every P (erase k m)
  Every-erase k [] e = tt
  Every-erase k ((j, w) ∷ m) e = ground (arith, Every-erase k m e.1, e.0)
