-- ===== src/Matchmaking/CodeRules.antt =====
-- nextendo-nex/matchmaking_handlers.go, `makeCode`, `privateRoomCreate` and `resolveCode`: the form of
-- a room code, which ids share one, and a code's way from the room's creation to a joiner.
use nextendo_mk8d_matchmakin.Base.{
  ℕ, zero, suc, ◌+◌, ◌/◌, ◌%◌, ◌^◌, ◌<◌, ◌≡◌, ◌↔◌, ◌⊎◌, refl, ap, ◌==◌, Bool, true, false, ◌&&◌,
  Option, some, List, [], ◌∷◌, ◌++◌, arith, inl, inr, Option-cases,
}
use nextendo_mk8d_matchmakin.Base.Lists.{length, get_or, All, Among}
use nextendo_mk8d_matchmakin.Base.Maps.{find}
use nextendo_mk8d_matchmakin.Wire.Out.{Bytes, le, write_u8, write_string, write_buffer, write_u32}
use nextendo_mk8d_matchmakin.Wire.In.{read, read_le, le_value, strip_zero, string_body, read_string}
use nextendo_mk8d_matchmakin.Session.Keys.{bytes_eq_refl}
use nextendo_mk8d_matchmakin.Rmc.{RmcMessage}
use nextendo_mk8d_matchmakin.Matchmaking.State.{Gathering, Store, Codes}
use nextendo_mk8d_matchmakin.Matchmaking.Create.{extension_success}
use nextendo_mk8d_matchmakin.Matchmaking.Leave.{request_gid}
use nextendo_mk8d_matchmakin.Matchmaking.SessionPart.{insert_code}
use nextendo_mk8d_matchmakin.Matchmaking.Update.{index_of}
use nextendo_mk8d_matchmakin.Matchmaking.Codes.{
  alphabet, code_digits, next_code_rand, set_code, make_code, private_room_create, find_code,
  request_code, resolve_code,
}

get_or-Among : {A : Type 0} (xs : List A) (i : ℕ) (d : A) → i < length xs → Among (get_or xs i d) xs
get_or-Among [] i d h = elim h [ ]
get_or-Among (x ∷ xs) zero d h = inl refl
get_or-Among (x ∷ xs) (suc i) d h = inr (get_or-Among xs i d (omega arith))

length-code_digits : (n x : ℕ) → length (code_digits n x) ≡ n
unfolding code_digits
length-code_digits zero x = refl
length-code_digits (suc n) x = ap suc (length-code_digits n (x / 33))

code_digits-All : (n x : ℕ) → All (λ b. Among b alphabet) (code_digits n x)
unfolding code_digits
code_digits-All zero x = tt
code_digits-All (suc n) x =
    (get_or-Among alphabet (x % 33) 0 (omega arith), code_digits-All n (x / 33))

-- Every code has five characters, all of the alphabet.
pub make_code_form :
    (m : Store) (gid : ℕ)
    → (length (make_code m gid).1 ≡ 5) × All (λ b. Among b alphabet) (make_code m gid).1
unfolding make_code
make_code_form m gid = (length-code_digits 5 _, code_digits-All 5 _)

-- The alphabet has no character twice: each one tells its place.
place_is : Option ℕ → ℕ → Bool
place_is (some j) i = j == i
place_is _ i = false

own_places : ℕ → Bytes → Bool
own_places i [] = true
own_places i (c ∷ cs) = place_is (index_of c alphabet) i && own_places (i + 1) cs

own_place :
    (cs : Bytes) (i j k : ℕ)
    → own_places i cs ≡ true
    → j < length cs
    → k ≡ i + j
    → place_is (index_of (get_or cs j 0) alphabet) k ≡ true
unfolding own_places
own_place [] i j k h lt e = absurd (omega arith)
own_place (c ∷ cs) i zero k h lt e =
    let same : k ≡ i = omega arith in
    let first : place_is (index_of c alphabet) i ≡ true = ground arith in rw (same, first)
own_place (c ∷ cs) i (suc j) k h lt e =
    own_place cs (i + 1) j k (ground arith) (omega arith) (omega arith)

alphabet_places : own_places 0 alphabet ≡ true
unfolding own_places place_is index_of
alphabet_places = refl

alphabet_apart : (i j : ℕ) → i < 33 → j < 33 → get_or alphabet i 0 ≡ get_or alphabet j 0 → i ≡ j
unfolding place_is
alphabet_apart i j hi hj e =
    let p = own_place alphabet 0 i i alphabet_places hi (omega arith) in
    let q = own_place alphabet 0 j j alphabet_places hj (omega arith) in
    placed (index_of (get_or alphabet j 0) alphabet) (rw e at p) q
  where
    placed : (o : Option ℕ) → place_is o i ≡ true → place_is o j ≡ true → i ≡ j
    placed o p q = elim (Option-cases o) [ inl e ↦ ground arith | inr (k, e) ↦ ground arith ]

same_place : (x y : ℕ) → get_or alphabet (x % 33) 0 ≡ get_or alphabet (y % 33) 0 → x % 33 ≡ y % 33
same_place x y e = alphabet_apart (x % 33) (y % 33) (omega arith) (omega arith) e

heads : {xs ys : Bytes} {a b : ℕ} → (a ∷ xs) ≡ (b ∷ ys) → (a ≡ b) × (xs ≡ ys)
heads e = (cc, cc)

code_digits_step :
    (n x y : ℕ)
    → code_digits (suc n) x ≡ code_digits (suc n) y
    → (x % 33 ≡ y % 33) × (code_digits n (x / 33) ≡ code_digits n (y / 33))
unfolding code_digits
code_digits_step n x y e = let (h, t) = heads e in (same_place x y h, t)

code_digits_value : (x y : ℕ) → code_digits 5 x ≡ code_digits 5 y → x % 39135393 ≡ y % 39135393
code_digits_value x y e =
    let (a, e1) = code_digits_step 4 x y e in
    let (b, e2) = code_digits_step 3 (x / 33) (y / 33) e1 in
    let (c, e3) = code_digits_step 2 (x / 33 / 33) (y / 33 / 33) e2 in
    let (d, e4) = code_digits_step 1 (x / 33 / 33 / 33) (y / 33 / 33 / 33) e3 in
    let (f, e5) = code_digits_step 0 (x / 33 / 33 / 33 / 33) (y / 33 / 33 / 33 / 33) e4 in
    omega arith

code_digits_low : (x y : ℕ) → x % 39135393 ≡ y % 39135393 → code_digits 5 x ≡ code_digits 5 y
unfolding code_digits
code_digits_low x y e =
    let a : x % 33 ≡ y % 33 = omega arith in
    let b : x / 33 % 33 ≡ y / 33 % 33 = omega arith in
    let c : x / 33 / 33 % 33 ≡ y / 33 / 33 % 33 = omega arith in
    let d : x / 33 / 33 / 33 % 33 ≡ y / 33 / 33 / 33 % 33 = omega arith in
    let f : x / 33 / 33 / 33 / 33 % 33 ≡ y / 33 / 33 / 33 / 33 % 33 = omega arith in
    rw (a, b, c, d, f)

-- Two rooms, of the same server or at different times, get the same code exactly when the generator's
-- next values agree modulo 33 ^ 5: codes are not checked against those in use.
pub make_code_same_iff :
    (m m' : Store) (gid gid' : ℕ)
    → ((make_code m gid).1 ≡ (make_code m' gid').1)
      ↔ (next_code_rand m.code_rand gid % 33 ^ 5 ≡ next_code_rand m'.code_rand gid' % 33 ^ 5)
unfolding make_code
make_code_same_iff m m' gid gid' = (code_digits_value _ _, code_digits_low _ _)

find_code-insert_code : (k : Bytes) (gid : ℕ) (m : Codes) → find_code k (insert_code k gid m) ≡ gid
unfolding find_code
find_code-insert_code k gid [] = rw (bytes_eq_refl k)
find_code-insert_code k gid ((j, v) ∷ m) =
    ground (arith, bytes_eq_refl k, find_code-insert_code k gid m)

by_code-set_code :
    (gid : ℕ) (code : Bytes) (o : Option Gathering) (m : Store)
    → (set_code gid code o m).by_code ≡ m.by_code
unfolding set_code
by_code-set_code gid code o m = elim (Option-cases o) [ inl e ↦ rw e | inr (g, e) ↦ rw e ]

-- A request for a code comes as the string alone or behind a structure header.
abbrev pub AsksFor : Bytes → RmcMessage → Type 0
AsksFor code req =
    (req.body ≡ write_string code) ⊎ (req.body ≡ write_u8 0 ++ write_buffer (write_string code))

request_code_plain : (x : ℕ) → request_code (write_string (code_digits 5 x)) ≡ code_digits 5 x
unfolding request_code write_string code_digits le read_string read_le le_value read string_body
    strip_zero
request_code_plain x = refl

request_code_framed :
    (x : ℕ)
    → request_code (write_u8 0 ++ write_buffer (write_string (code_digits 5 x))) ≡ code_digits 5 x
unfolding request_code write_string write_buffer code_digits le read_string read_le le_value read
    string_body strip_zero
request_code_framed x = refl

-- After a room was created, a request for its code, with or without a structure header, is answered
-- by the id that it was created for.
pub resolve_code-private_room_create :
    (m : Store) (req joiner : RmcMessage)
    → AsksFor (make_code m (request_gid req)).1 joiner
    → resolve_code (private_room_create m req).store joiner
      ≡ extension_success joiner (write_u32 (request_gid req))
unfolding resolve_code private_room_create make_code
resolve_code-private_room_create m req joiner asks =
    let gid = request_gid req in
    let x = next_code_rand m.code_rand gid in
    let same : request_code joiner.body ≡ code_digits 5 x = elim asks [
      | inl e ↦ rw e (request_code_plain x)
      | inr e ↦ rw e (request_code_framed x)
    ] in
    rw (same, by_code-set_code gid (code_digits 5 x) (find gid m.gatherings) _)
      (rw (find_code-insert_code (code_digits 5 x) gid m.by_code))
