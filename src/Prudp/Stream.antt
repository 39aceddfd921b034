-- ===== src/Prudp/Stream.antt =====
-- nextendo-nex/prudp_lite.go and `Feed` of nextendo-nex/endpoint.go: decoding a byte stream that arrives in pieces.
use nextendo_mk8d_matchmakin.Base.{
  ℕ, zero, suc, ◌≤◌, ◌<◌, ◌≡◌, refl, sym, ap, ◌∙◌, ◌==◌, ltb, true, false, some, List, [], ◌∷◌,
  ◌++◌, arith, inl, inr, Bool-cases, Option-cases, le→ltb,
}
use nextendo_mk8d_matchmakin.Base.Lists.{length, take, drop, get_or, length-append, length-drop}
use nextendo_mk8d_matchmakin.Wire.Out.{Bytes}
use mathlib.Core.List.{append_assoc}
use nextendo_mk8d_matchmakin.Prudp.{
  Packet, Decoded, byte_at, u16_at, options_end, packet_end, options_in, payload_in, with_packet,
  decode_header, decode_options, decode_loop, decode_packets, feed,
}

get_or-append : (a b : Bytes) (i : ℕ) → i < length a → get_or (a ++ b) i 0 ≡ get_or a i 0
get_or-append [] b i h = absurd (omega arith)
get_or-append (x ∷ a) b zero h = refl
get_or-append (x ∷ a) b (suc i) h = get_or-append a b i (omega arith)

drop-append : (a b : Bytes) (n : ℕ) → n ≤ length a → drop n (a ++ b) ≡ drop n a ++ b
drop-append a b zero h = refl
drop-append [] b (suc n) h = absurd (omega arith)
drop-append (x ∷ a) b (suc n) h = drop-append a b n (omega arith)

take-append : (a b : Bytes) (n : ℕ) → n ≤ length a → take n (a ++ b) ≡ take n a
take-append a b zero h = refl
take-append [] b (suc n) h = absurd (omega arith)
take-append (x ∷ a) b (suc n) h = ap (λ t. x ∷ t) (take-append a b n (omega arith))

-- One turn takes twelve bytes at least, so any fuel from the length on gives the same.
pub decode_loop_fuel :
    (f g : ℕ) (buf : Bytes)
    → length buf ≤ f
    → length buf ≤ g
    → decode_loop f buf ≡ decode_loop g buf
unfolding decode_loop
decode_loop_fuel zero zero buf h k = refl
decode_loop_fuel zero (suc g) buf h k = ground arith
decode_loop_fuel (suc f) zero buf h k = ground arith
decode_loop_fuel (suc f) (suc g) buf h k = elim (Bool-cases (ltb (length buf) 12)) [
  | inl t ↦ rw t refl
  | inr t ↦
      let fewer = length-drop (packet_end buf) buf in
      rw (decode_loop_fuel f g (drop (packet_end buf) buf) (ground arith) (ground arith)) refl
]

-- The packets of one decoding before those of another.
abbrev pub after : List Packet → Decoded → Decoded
after ps d = record d { packets = ps ++ d.packets }

-- A complete packet at the front.
abbrev pub Complete : Bytes → Packet → Type 0
Complete buf p =
    (12 ≤ length buf)
    × (byte_at buf 0 ≡ 0x80)
    × (packet_end buf ≤ length buf)
    × (decode_options (byte_at buf 1) (decode_header buf) (options_in buf) ≡ some p)

pub decode_packets-Complete :
    (buf : Bytes) (p : Packet)
    → Complete buf p
    → decode_packets buf
      ≡ after
          (record p { payload = payload_in buf } ∷ [])
          (decode_packets (drop (packet_end buf) buf))
unfolding decode_packets
decode_packets-Complete buf p c =
    let long : ltb (length buf) 12 ≡ false = le→ltb (length buf) 12 c.0 in
    let magic : (byte_at buf 0 == 0x80) ≡ true = ground (arith, c.1) in
    let whole : ltb (length buf) (packet_end buf) ≡ false =
      le→ltb (length buf) (packet_end buf) c.2 in
    let next = drop (packet_end buf) buf in
    let fewer = length-drop (packet_end buf) buf in
    decode_loop_fuel (length buf) (suc (length buf)) buf (omega arith) (omega arith)
    ∙ unfold decode_loop with_packet in
      rw
        (
          long,
          magic,
          whole,
          c.3,
          decode_loop_fuel (length buf) (length next) next (omega (arith, fewer)) (omega arith),
        )
        refl

header-append : (a b : Bytes) → 12 ≤ length a → decode_header (a ++ b) ≡ decode_header a
unfolding decode_header
header-append a b h =
    rw
      (
        get_or-append a b 4 (omega (arith, h)),
        get_or-append a b 5 (omega (arith, h)),
        get_or-append a b 6 (omega (arith, h)),
        get_or-append a b 7 (omega (arith, h)),
        get_or-append a b 8 (omega (arith, h)),
        get_or-append a b 9 (omega (arith, h)),
        get_or-append a b 10 (omega (arith, h)),
        get_or-append a b 11 (omega (arith, h)),
      )
      refl

packet_end-append : (a b : Bytes) → 12 ≤ length a → packet_end (a ++ b) ≡ packet_end a
packet_end-append a b h =
    rw
      (
        get_or-append a b 1 (omega (arith, h)),
        get_or-append a b 2 (omega (arith, h)),
        get_or-append a b 3 (omega (arith, h)),
      )
      refl

-- A complete packet stays one, whatever follows.
append-Complete : (a b : Bytes) (p : Packet) → Complete a p → Complete (a ++ b) p
append-Complete a b p c =
    let sum = length-append a b in
    let size = get_or-append a b 1 (omega (arith, c.0)) in
    let front : options_in (a ++ b) ≡ options_in a =
      rw (size, drop-append a b 12 c.0)
        (take-append (drop 12 a) b (byte_at a 1) (omega (arith, length-drop 12 a, c.2))) in
    (
      omega (arith, c.0, sum),
      get_or-append a b 0 (omega (arith, c.0)) ∙ c.1,
      rw (packet_end-append a b c.0) (omega (arith, c.2, sum)),
      rw (front, size, header-append a b c.0) c.3,
    )

payload_in-append :
    (a b : Bytes) → 12 ≤ length a → packet_end a ≤ length a → payload_in (a ++ b) ≡ payload_in a
payload_in-append a b h w =
    rw
      (
        get_or-append a b 1 (omega (arith, h)),
        get_or-append a b 2 (omega (arith, h)),
        get_or-append a b 3 (omega (arith, h)),
        drop-append a b (options_end a) (omega (arith, w)),
      )
      (take-append (drop (options_end a) a) b (u16_at a 2)
        (omega (arith, w, length-drop (options_end a) a)))

after-after :
    (p : Packet) (ps : List Packet) (d : Decoded) → after (p ∷ []) (after ps d) ≡ after (p ∷ ps) d
after-after p ps d = refl

stream_loop :
    (fuel : ℕ) (a b : Bytes)
    → length a ≤ fuel
    → (decode_loop fuel a).failed ≡ false
    → decode_packets (a ++ b)
      ≡ after (decode_loop fuel a).packets (decode_packets ((decode_loop fuel a).rest ++ b))
unfolding decode_loop with_packet
stream_loop zero a b h f = refl
stream_loop (suc fuel) a b h f = elim (Bool-cases (ltb (length a) 12)) [
  | inl t ↦ rw t refl
  | inr t ↦ elim (Bool-cases (byte_at a 0 == 0x80)) [
    | inr u ↦ absurd (never (rw (t, u) at f))
    | inl u ↦ elim (Bool-cases (ltb (length a) (packet_end a))) [
      | inl v ↦ rw (t, u, v) refl
      | inr v ↦
          elim (Option-cases (decode_options (byte_at a 1) (decode_header a) (options_in a))) [
            | inl w ↦ absurd (never (rw (t, u, v, w) at f))
            | inr (p, w) ↦
                let c : Complete a p = (ground arith, ground arith, ground arith, w) in
                let fewer = length-drop (packet_end a) a in
                let later =
                  stream_loop fuel (drop (packet_end a) a) b (ground arith)
                    (rw (t, u, v, w) at f) in
                rw (t, u, v, w)
                  (decode_packets-Complete (a ++ b) p (append-Complete a b p c)
                    ∙ rw
                        (
                          payload_in-append a b c.0 c.2,
                          packet_end-append a b c.0,
                          drop-append a b (packet_end a) c.2,
                          later,
                        )
                        refl)
          ]
    ]
  ]
]
  where
    never : true ≡ false → ⊥
    never e = cc

-- Decoding does not depend on where the stream is cut: when the first part decodes without an error,
-- decoding the whole gives the packets of the first part and then those of what it left together with
-- the second part.
pub decode_packets-append :
    (a b : Bytes)
    → (decode_packets a).failed ≡ false
    → decode_packets (a ++ b)
      ≡ after (decode_packets a).packets (decode_packets ((decode_packets a).rest ++ b))
decode_packets-append a b f = unfold decode_packets in stream_loop (length a) a b (omega arith) f

-- When neither a buffer with a first piece nor the buffer with both pieces fails to decode, feeding
-- the two pieces one after the other handles the same packets in the same order, and keeps the same
-- bytes, as feeding them at once.
pub feed-append :
    (kept x y : Bytes)
    → (decode_packets (kept ++ x)).failed ≡ false
    → (decode_packets (kept ++ (x ++ y))).failed ≡ false
    → let (left, first) = feed kept x in
      let (left', second) = feed left y in feed kept (x ++ y) ≡ (left', first ++ second)
unfolding feed
feed-append kept x y f g =
    let cut = rw (append_assoc kept x y) at (decode_packets-append (kept ++ x) y f) in
    let ok : (decode_packets ((decode_packets (kept ++ x)).rest ++ y)).failed ≡ false =
      ap (λ d. d.failed) (sym cut) ∙ g in
    rw (f, ok, cut) (rw ok refl)
