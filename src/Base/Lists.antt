-- ===== src/Base/Lists.antt =====
-- Lists measured by native numbers, under the library's names, and lists of numbers as sets.
use Prim.Native.Nat.{ℕ, zero, suc, ◌+◌, ◌-◌, ◌≤◌, ◌<◌, min}
use mathlib.Core.Path.{◌≡◌, refl, ap}
use mathlib.Core.Logic.{◌⊎◌}
use mathlib.Core.Bool.{Bool, false, ◌||◌}
use mathlib.Core.List.{List, [], ◌∷◌, ◌++◌}
use native.Mathlib.Omega.{arith}
use nextendo_mk8d_matchmakin.Base.Tests.{◌==◌, if◌then◌else◌}

module _ {ℓ} {A : Type ℓ} where
  abbrev pub length : List A → ℕ
  length [] = 0
  length (x ∷ xs) = suc (length xs)

  abbrev pub take : ℕ → List A → List A
  take zero xs = []
  take (suc n) [] = []
  take (suc n) (x ∷ xs) = x ∷ take n xs

  abbrev pub drop : ℕ → List A → List A
  drop zero xs = xs
  drop (suc n) [] = []
  drop (suc n) (x ∷ xs) = drop n xs

  abbrev pub replicate : ℕ → A → List A
  replicate zero a = []
  replicate (suc n) a = a ∷ replicate n a

  abbrev pub get_or : List A → ℕ → A → A
  get_or [] i d = d
  get_or (x ∷ xs) zero d = x
  get_or (x ∷ xs) (suc i) d = get_or xs i d

  -- A write out of bounds changes nothing.
  abbrev pub set : List A → ℕ → A → List A
  set [] i v = []
  set (x ∷ xs) zero v = v ∷ xs
  set (x ∷ xs) (suc i) v = x ∷ set xs i v

  abbrev pub All {κ} : (A → Type κ) → List A → Type κ
  All P [] = Unit {κ}
  All P (x ∷ xs) = P x × All P xs

-- A value is among those of a list.
abbrev pub Among : {A : Type 0} → A → List A → Type 0
Among a [] = ⊥
Among a (x ∷ xs) = (a ≡ x) ⊎ Among a xs

module _ {ℓ} {A : Type ℓ} where
  pub length-append : (xs ys : List A) → length (xs ++ ys) ≡ length xs + length ys
  length-append [] ys = omega arith
  length-append (x ∷ xs) ys = omega (arith, length-append xs ys)

  pub length-set : (xs : List A) (i : ℕ) (v : A) → length (set xs i v) ≡ length xs
  length-set [] i v = refl
  length-set (x ∷ xs) zero v = refl
  length-set (x ∷ xs) (suc i) v = ap suc (length-set xs i v)

  pub length-take : (n : ℕ) (xs : List A) → length (take n xs) ≡ min n (length xs)
  length-take zero xs = omega arith
  length-take (suc n) [] = omega arith
  length-take (suc n) (x ∷ xs) = omega (arith, length-take n xs)

  pub length-drop : (n : ℕ) (xs : List A) → length (drop n xs) ≡ length xs - n
  length-drop zero xs = omega arith
  length-drop (suc n) [] = omega arith
  length-drop (suc n) (x ∷ xs) = omega (arith, length-drop n xs)

  pub length-replicate : (n : ℕ) (a : A) → length (replicate n a) ≡ n
  length-replicate zero a = refl
  length-replicate (suc n) a = ap suc (length-replicate n a)

  pub take-append_length : (xs ys : List A) → take (length xs) (xs ++ ys) ≡ xs
  take-append_length [] ys = refl
  take-append_length (x ∷ xs) ys = ap (λ t. x ∷ t) (take-append_length xs ys)

  pub drop-append_length : (xs ys : List A) → drop (length xs) (xs ++ ys) ≡ ys
  drop-append_length [] ys = refl
  drop-append_length (x ∷ xs) ys = drop-append_length xs ys

  pub take-append-drop : (n : ℕ) (xs : List A) → take n xs ++ drop n xs ≡ xs
  take-append-drop zero xs = refl
  take-append-drop (suc n) [] = refl
  take-append-drop (suc n) (x ∷ xs) = ap (λ t. x ∷ t) (take-append-drop n xs)

  pub take_all : (n : ℕ) (xs : List A) → length xs ≤ n → take n xs ≡ xs
  take_all zero [] h = refl
  take_all zero (x ∷ xs) h = absurd (omega arith)
  take_all (suc n) [] h = refl
  take_all (suc n) (x ∷ xs) h = ap (λ t. x ∷ t) (take_all n xs (omega arith))

-- Sets of numbers as lists.
abbrev pub contains : List ℕ → ℕ → Bool
contains [] p = false
contains (x ∷ xs) p = x == p || contains xs p

abbrev pub remove : List ℕ → ℕ → List ℕ
remove [] p = []
remove (x ∷ xs) p = if x == p then remove xs p else x ∷ remove xs p

-- No number stands twice.
abbrev pub Distinct : List ℕ → Type 0
Distinct [] = Unit {0}
Distinct (x ∷ xs) = (contains xs x ≡ false) × Distinct xs

pub contains-append :
    (xs ys : List ℕ) (p : ℕ) → contains (xs ++ ys) p ≡ (contains xs p || contains ys p)
contains-append [] ys p = refl
contains-append (x ∷ xs) ys p = ground (arith, contains-append xs ys p)

pub contains-remove :
    (xs : List ℕ) (p q : ℕ) → contains (remove xs p) q ≡ (if p == q then false else contains xs q)
contains-remove [] p q = ground arith
contains-remove (x ∷ xs) p q = ground (arith, contains-remove xs p q)

pub remove-Distinct : (xs : List ℕ) (p : ℕ) → Distinct xs → Distinct (remove xs p)
remove-Distinct [] p d = tt
remove-Distinct (x ∷ xs) p d = ground (arith, remove-Distinct xs p d.1, contains-remove xs p x)

pub snoc-Distinct :
    (xs : List ℕ) (p : ℕ) → Distinct xs → contains xs p ≡ false → Distinct (xs ++ (p ∷ []))
snoc-Distinct [] p d h = (refl, tt)
snoc-Distinct (x ∷ xs) p d h = ground (arith, snoc-Distinct xs p d.1, contains-append xs (p ∷ []) x)

pub length-remove_le : (xs : List ℕ) (p : ℕ) → length (remove xs p) ≤ length xs
length-remove_le [] p = omega arith
length-remove_le (x ∷ xs) p = ground (arith, length-remove_le xs p)

-- What is not in the list is not removed.
pub remove_absent : (xs : List ℕ) (p : ℕ) → contains xs p ≡ false → remove xs p ≡ xs
remove_absent [] p h = refl
remove_absent (x ∷ xs) p h = ground (arith, remove_absent xs p)

contains-set :
    (t : List ℕ) (k x q : ℕ)
    → contains t q ≡ false
    → (x == q) ≡ false
    → contains (set t k x) q ≡ false
contains-set [] k x q h e = refl
contains-set (y ∷ t) zero x q h e = ground arith
contains-set (y ∷ t) (suc k) x q h e = ground (arith, contains-set t k x q)

set-Distinct : (t : List ℕ) (k x : ℕ) → Distinct t → contains t x ≡ false → Distinct (set t k x)
set-Distinct [] k x d h = tt
set-Distinct (y ∷ t) zero x d h = ground arith
set-Distinct (y ∷ t) (suc k) x d h =
    ground (arith, set-Distinct t k x d.1, contains-set t k x y d.0)

contains-get_or :
    (t : List ℕ) (k q : ℕ) → k < length t → contains t q ≡ false → (get_or t k 0 == q) ≡ false
contains-get_or [] k q h e = elim h [ ]
contains-get_or (y ∷ t) zero q h e = ground arith
contains-get_or (y ∷ t) (suc k) q h e = ground (arith, contains-get_or t k q)

contains-set_self :
    (t : List ℕ) (k x : ℕ)
    → k < length t
    → Distinct t
    → contains t x ≡ false
    → contains (set t k x) (get_or t k 0) ≡ false
contains-set_self [] k x h d e = elim h [ ]
contains-set_self (y ∷ t) zero x h d e = ground arith
contains-set_self (y ∷ t) (suc k) x h d e =
    ground (arith, contains-set_self t k x, contains-get_or t k y)

-- Exchanging the first number with another one keeps the numbers distinct.
pub swap-Distinct :
    (xs : List ℕ) (i : ℕ)
    → i < length xs
    → Distinct xs
    → Distinct (set (set xs 0 (get_or xs i 0)) i (get_or xs 0 0))
swap-Distinct [] i h d = elim h [ ]
swap-Distinct (x ∷ t) zero h d = d
swap-Distinct (x ∷ t) (suc k) h d =
    (contains-set_self t k x (omega arith) d.1 d.0, set-Distinct t k x d.1 d.0)
