-- ===== src/Wire/Reads.antt =====
-- `Reads p xs a`: the reader takes exactly the bytes `xs` off a healthy stream, whatever follows
-- them, and yields `a`. One rule for each reader of `In`, and one for the bind.
use nextendo_mk8d_matchmakin.Base.{
  ℕ, zero, suc, ◌+◌, ◌*◌, ◌/◌, ◌^◌, ◌≤◌, ◌<◌, ◌≡◌, refl, ap, ◌==◌, le→ltb, if◌then◌else◌, Bool,
  true, false, List, [], ◌∷◌, ◌++◌, arith, inl, inr, Bool-cases,
}
use nextendo_mk8d_matchmakin.Base.Lists.{
  All, length, length-append, take-append_length, drop-append_length,
}
use nextendo_mk8d_matchmakin.Wire.Settings.{Settings}
use nextendo_mk8d_matchmakin.Wire.Out.{
  Bytes, le, write_u8, write_u16, write_u32, write_bool, write_pid, write_string, write_buffer,
  write_elements, write_list, write_level,
}
use nextendo_mk8d_matchmakin.Wire.In.{
  StreamIn, stream, Reader, ◌>>=◌, give, le_value, read, read_le, read_u8, read_u16, read_u32,
  read_bool, read_pid, strip_zero, read_string, read_buffer, read_elements, read_list, string_body,
  counted, read_level,
}
use mathlib.Core.List.{append-nil, append_assoc}
use native.Mathlib.Nat.{pow-suc}

abbrev pub Reads : {A : Type 0} → Reader A → Bytes → A → Type 0
Reads p xs a = (rest : Bytes) → p (stream (xs ++ rest)) ≡ (a, stream rest)

pub give-Reads : {A : Type 0} (a : A) → Reads (give a) [] a
give-Reads a rest = refl

pub bind-Reads :
    {A B : Type 0} (p : Reader A) (f : A → Reader B) (xs ys : Bytes) (a : A) (b : B)
    → Reads p xs a
    → Reads (f a) ys b
    → Reads (p >>= f) (xs ++ ys) b
bind-Reads p f xs ys a b hp hf rest = rw (append_assoc xs ys rest, hp (ys ++ rest)) (hf rest)

pub length-le : (n v : ℕ) → length (le n v) ≡ n
unfolding le
length-le zero v = refl
length-le (suc n) v = ap suc (length-le n (v / 256))

-- `n` bytes hold every number below `256 ^ n`.
pub le_value-le : (n v : ℕ) → v < 256 ^ n → le_value (le n v) ≡ v
unfolding le le_value
le_value-le zero v h = omega arith
le_value-le (suc n) v h =
    let h' : v < 256 * 256 ^ n = omega (arith, pow-suc 256 n) in
    omega (arith, le_value-le n (v / 256) (omega arith))

-- Bytes that are there are read.
pub read-Reads : (n : ℕ) (xs : Bytes) → length xs ≡ n → Reads (read n) xs xs
unfolding read
read-Reads n xs h rest = rw (← h) (
    rw (le→ltb (length (xs ++ rest)) (length xs) (omega (arith, length-append xs rest)))
      (rw (take-append_length xs rest, drop-append_length xs rest)))

pub le-Reads : (n v : ℕ) → v < 256 ^ n → Reads (read_le n) (le n v) v
unfolding read_le
le-Reads n v h rest =
    rw (read-Reads n (le n v) (length-le n v) rest)
      (rw (le→ltb (length (le n v)) n (omega (arith, length-le n v))) (rw (le_value-le n v h)))

pub bool-Reads : (b : Bool) → Reads read_bool (write_bool b) b
unfolding read_bool write_bool
bool-Reads true rest = rw (le-Reads 1 1 (omega arith) rest)
bool-Reads false rest = rw (le-Reads 1 0 (omega arith) rest)

-- A principal id fits the width that the settings choose.
abbrev pub FitsPid : Settings → ℕ → Type 0
FitsPid s v = v < (if s.pid_size == 8 then 256 ^ 8 else 256 ^ 4)

pub pid-Reads : (s : Settings) (v : ℕ) → FitsPid s v → Reads (read_pid s) (write_pid s v) v
pid-Reads s v h = elim (Bool-cases (s.pid_size == 8)) [
  | inl e ↦ rw e (le-Reads 8 v (rw e at h))
  | inr e ↦ rw e (le-Reads 4 v (rw e at h))
]

strip_zero_snoc : (xs : Bytes) → strip_zero (xs ++ (0 ∷ [])) ≡ xs
unfolding strip_zero
strip_zero_snoc [] = refl
strip_zero_snoc (x ∷ []) = refl
strip_zero_snoc (x ∷ y ∷ xs) = ap (λ t. x ∷ t) (strip_zero_snoc (y ∷ xs))

-- The length on the wire counts the closing zero, so the longest string has 65534 bytes.
abbrev pub FitsString : Bytes → Type 0
FitsString str = length str + 1 < 256 ^ 2

string_body-Reads : (str : Bytes) → Reads (string_body (length str + 1)) (str ++ (0 ∷ [])) str
unfolding string_body
string_body-Reads str rest =
    rw (read-Reads (length str + 1) (str ++ (0 ∷ [])) (length-append str (0 ∷ [])) rest) (
      rw
        (le→ltb (length (str ++ (0 ∷ []))) (length str + 1)
          (omega (arith, length-append str (0 ∷ []))))
        (rw (strip_zero_snoc str)))

nonzero : (n : ℕ) → (n + 1 == 0) ≡ false
nonzero n = ground arith

pub string-Reads : (str : Bytes) → FitsString str → Reads read_string (write_string str) str
unfolding read_string write_string
string-Reads str h =
    bind-Reads read_u16 (λ n. if n == 0 then give [] else string_body n)
      (write_u16 (length str + 1)) (str ++ (0 ∷ [])) (length str + 1) str
      (le-Reads 2 (length str + 1) h) (rw (nonzero (length str)) (string_body-Reads str))

abbrev pub FitsBuffer : Bytes → Type 0
FitsBuffer b = length b < 256 ^ 4

pub buffer-Reads : (b : Bytes) → FitsBuffer b → Reads read_buffer (write_buffer b) b
unfolding read_buffer write_buffer
buffer-Reads b h =
    bind-Reads read_u32 read (write_u32 (length b)) b (length b) b (le-Reads 4 (length b) h)
      (read-Reads (length b) b refl)

pub elements-Reads :
    {A : Type 0} (p : Reader A) (f : A → Bytes) (Ok : A → Type 0)
    → ((a : A) → Ok a → Reads p (f a) a)
    → (xs : List A) → All Ok xs
    → Reads (read_elements p (length xs)) (write_elements f xs) xs
unfolding read_elements write_elements
elements-Reads p f Ok h [] ok rest = refl
elements-Reads p f Ok h (x ∷ xs) ok rest = rw (
  append_assoc (f x) (write_elements f xs) rest,
  h x ok.0 (write_elements f xs ++ rest),
  elements-Reads p f Ok h xs ok.1 rest,
)

length-write_elements :
    {A : Type 0} (f : A → Bytes)
    → ((a : A) → 1 ≤ length (f a))
    → (xs : List A) → length xs ≤ length (write_elements f xs)
unfolding write_elements
length-write_elements f one [] = omega arith
length-write_elements f one (x ∷ xs) =
    omega (arith, length-append (f x) (write_elements f xs), one x, length-write_elements f one xs)

-- Each element takes a byte at least, so the count passes the sanity check.
pub list-Reads :
    {A : Type 0} (p : Reader A) (f : A → Bytes) (Ok : A → Type 0)
    → ((a : A) → Ok a → Reads p (f a) a)
    → ((a : A) → 1 ≤ length (f a))
    → (xs : List A) → All Ok xs
    → length xs < 256 ^ 4
    → Reads (read_list p) (write_list f xs) xs
unfolding read_list write_list counted
list-Reads p f Ok h one xs ok fits =
    bind-Reads read_u32 (counted p) (write_u32 (length xs)) (write_elements f xs) (length xs) xs
      (le-Reads 4 (length xs) fits)
      (λ rest.
        rw
          (le→ltb (length (write_elements f xs ++ rest)) (length xs) (
            omega
              (arith, length-append (write_elements f xs) rest, length-write_elements f one xs)))
          (elements-Reads p f Ok h xs ok rest))

Reads-whole :
    {A : Type 0} (load : Reader A) (body : Bytes) (a : A)
    → Reads load body a
    → (load (stream body)).0 ≡ a
Reads-whole load body a h = rw (append-nil body) at (ap (λ (r : _ × StreamIn). r.0) (h []))

-- A framed level yields what its reader takes from the body alone, be the body read to its end or
-- not.
pub framed_level-Reads :
    {A : Type 0} (s : Settings) (version : ℕ) (load : Reader A) (body : Bytes)
    → s.struct_header ≡ true
    → version < 256
    → FitsBuffer body
    → Reads (read_level s load) (write_level s version body) (load (stream body)).0
unfolding read_level write_level
framed_level-Reads s version load body on hv hb = rw on (
    bind-Reads read_u8 (λ _. read_buffer >>= λ b. give (load (stream b)).0) (write_u8 version)
      (write_buffer body) version (load (stream body)).0 (le-Reads 1 version hv)
      (λ rest. rw (buffer-Reads body hb rest)))

-- A level is read back whatever stands behind it.
pub level-Reads :
    {A : Type 0} (s : Settings) (version : ℕ) (load : Reader A) (body : Bytes) (a : A)
    → version < 256
    → FitsBuffer body
    → Reads load body a
    → Reads (read_level s load) (write_level s version body) a
level-Reads s version load body a hv hb h = elim (Bool-cases s.struct_header) [
  | inl e ↦ rw (Reads-whole load body a h) at (framed_level-Reads s version load body e hv hb)
  | inr e ↦ unfold read_level write_level in rw e h
]
