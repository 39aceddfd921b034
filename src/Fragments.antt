-- ===== src/Fragments.antt =====
-- nextendo-nex/endpoint.go: a payload sent in fragments (sendData) and put together again as
-- `processData` does it, which the console does alike. The pauses between fragments, and a connection
-- that is closed on the way, are left out.
use nextendo_mk8d_matchmakin.Base.{
  ℕ, zero, suc, ◌+◌, ◌-◌, ◌*◌, ◌%◌, ◌≤◌, ◌≡◌, refl, sym, ap, ◌∙◌, ◌==◌, leb, if◌then◌else◌, List,
  [], ◌∷◌, ◌++◌, arith, inl, inr, Bool-cases,
}
use nextendo_mk8d_matchmakin.Base.Lists.{length, take, drop, take_all}
use nextendo_mk8d_matchmakin.Wire.Out.{Bytes}
use mathlib.Core.List.{append_assoc}

-- A fragment's id and its bytes.
abbrev pub Fragment : Type 0
Fragment = ℕ × Bytes

-- The loop of `sendData`: the id is a uint8, and 0 marks the last fragment.
unfoldable pub fragment_loop : ℕ → ℕ → ℕ → Bytes → List Fragment
fragment_loop zero size id rest = []
fragment_loop (suc fuel) size id rest =
    let later = fragment_loop fuel size ((id + 1) % 256) (drop size rest) in
    if leb (length rest) size
    then (0, rest) ∷ []
    else (id, take size rest) ∷ (if id == 0 then [] else later)

abbrev pub fragment_size_or_default : ℕ → ℕ
fragment_size_or_default size = if size == 0 then 1300 else size

-- `sendData`: 256 turns reach the id 0 again.
unfoldable pub send_data : ℕ → Bytes → List Fragment
send_data size payload =
    if leb (length payload) (fragment_size_or_default size)
    then (0, payload) ∷ []
    else fragment_loop 256 (fragment_size_or_default size) 1 payload

-- The end of `processData` for fragments in order: what is in the buffer, and what was handed on.
unfoldable pub reassemble : Bytes → List Fragment → Bytes × List Bytes
reassemble buf [] = (buf, [])
reassemble buf ((id, chunk) ∷ fs) =
    let (left, handed) = reassemble [] fs in
    if id == 0 then (left, (buf ++ chunk) ∷ handed) else reassemble (buf ++ chunk) fs

take_plus : (m n : ℕ) (xs : Bytes) → take (m + n) xs ≡ take m xs ++ take n (drop m xs)
take_plus zero n xs = let e : 0 + n ≡ n = omega arith in rw e refl
take_plus (suc m) n [] = take_all (suc m + n) [] (omega arith) ∙ sym (take_all n [] (omega arith))
take_plus (suc m) n (x ∷ xs) =
    let e : suc m + n ≡ suc (m + n) = omega arith in rw e (ap (λ t. x ∷ t) (take_plus m n xs))

times_suc : (m size : ℕ) → suc m * size ≡ size + m * size
times_suc m size = omega arith

plus_none : (size : ℕ) → size + 0 * size ≡ size
plus_none size = omega arith

loop-reassembled :
    (turns size : ℕ) (buf rest : Bytes)
    → 1 ≤ turns
    → turns ≤ 256
    → reassemble buf (fragment_loop turns size ((257 - turns) % 256) rest)
      ≡ ([], (buf ++ take (turns * size) rest) ∷ [])
unfolding fragment_loop reassemble
loop-reassembled zero size buf rest h k = absurd (omega arith)
loop-reassembled (suc m) size buf rest h k = elim (Bool-cases (leb (length rest) size)) [
  | inl t ↦
      let all : length rest ≤ size = ground (arith, t) in
      rw (t, take_all (suc m * size) rest (omega (arith, times_suc m size, all))) refl
  | inr t ↦ elim (Bool-cases ((257 - suc m) % 256 == 0)) [
    | inl u ↦
        let last : m ≡ 0 = ground (arith, u, h, k) in
        rw (t, u, last, times_suc 0 size) (rw (plus_none size) refl)
    | inr u ↦
        let more : 1 ≤ m = ground (arith, u, h, k) in
        let follows : ((257 - suc m) % 256 + 1) % 256 ≡ (257 - m) % 256 =
          omega (arith, h, k, more) in
        rw
          (
            t,
            u,
            follows,
            loop-reassembled m size (buf ++ take size rest) (drop size rest) more (omega arith),
            times_suc m size,
            take_plus size (m * size) rest,
            append_assoc buf (take size rest) (take (m * size) (drop size rest)),
          )
          refl
  ]
]

-- However long a payload is, what the receiver hands on is one message: the payload, cut after 256
-- fragments' bytes; nothing is left over.
pub reassemble-send_data :
    (size : ℕ) (payload : Bytes)
    → reassemble [] (send_data size payload)
      ≡ ([], take (256 * fragment_size_or_default size) payload ∷ [])
unfolding send_data
reassemble-send_data size payload =
    let most = fragment_size_or_default size in
    elim (Bool-cases (leb (length payload) most)) [
      | inl t ↦
          let all : length payload ≤ 256 * most = ground (arith, t) in
          rw (t, take_all (256 * most) payload all) (unfold reassemble in refl)
      | inr t ↦ rw t (loop-reassembled 256 most [] payload (omega arith) (omega arith))
    ]
