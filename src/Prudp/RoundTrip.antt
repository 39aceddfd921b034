-- ===== src/Prudp/RoundTrip.antt =====
-- nextendo-nex/prudp_lite.go: decoding what `EncodePacket` writes.
use nextendo_mk8d_matchmakin.Base.{
  ℕ, zero, suc, ◌+◌, ◌*◌, ◌/◌, ◌%◌, ◌^◌, ◌<◌, ◌≡◌, refl, sym, ◌∙◌, if◌then◌else◌, false, not, ◌&&◌,
  ◌||◌, some, [], ◌∷◌, ◌++◌, arith, inl, inr, Bool-cases, le→ltb,
}
use nextendo_mk8d_matchmakin.Base.Lists.{
  length, drop, length-append, take-append_length, drop-append_length,
}
use nextendo_mk8d_matchmakin.Wire.Out.{Bytes, le, write_u32}
use nextendo_mk8d_matchmakin.Wire.Reads.{le_value-le, length-le}
use mathlib.Core.List.{append-nil, append_assoc}
use nextendo_mk8d_matchmakin.Prudp.{
  Packet, is_syn, is_connect, has_ack, put_option, support_option, connection_option,
  signature_option, encode_options, encode_packet, apply_option, byte_at, u16_at, packet_end,
  options_in, payload_in, decode_header, decode_options, decode_packets,
}
use nextendo_mk8d_matchmakin.Prudp.Stream.{Complete, after, decode_packets-Complete}

-- The fields fit the header and the options.
pub record FitsPacket (p : Packet) : Type 0 where
  pub packet_type : p.packet_type < 16
  pub flags : p.flags < 4096
  pub source_type : p.source_type < 16
  pub dest_type : p.dest_type < 16
  pub source_port : p.source_port < 256
  pub dest_port : p.dest_port < 256
  pub fragment_id : p.fragment_id < 256
  pub packet_id : p.packet_id < 2 ^ 16
  pub minor_version : p.minor_version < 256
  pub supported_func : p.supported_func < 2 ^ 24
  pub options : length (encode_options p) < 256
  pub payload : length p.payload < 2 ^ 16

-- What the options of the packet's kind carry; the rest is lost.
abbrev pub carried : Packet → Packet
carried p = record p {
  minor_version = if is_syn p || is_connect p then p.minor_version else 0;
  supported_func = if is_syn p || is_connect p then p.supported_func else 0;
  connection_sig = if is_syn p && has_ack p then p.connection_sig else [];
  signature = if is_connect p && not (has_ack p) then p.signature else [];
}

-- One option at the front is applied.
decode_put :
    (fuel : ℕ) (p : Packet) (id : ℕ) (val more : Bytes)
    → id < 256
    → length val < 256
    → decode_options (suc fuel) p (put_option id val ++ more)
      ≡ decode_options fuel (apply_option id val p) more
unfolding decode_options le
decode_put fuel p id val more h k =
    let small : id % 256 ≡ id = omega arith in
    let short : length val % 256 ≡ length val = omega arith in
    rw
      (
        small,
        short,
        le→ltb (length (val ++ more)) (length val) (omega (arith, length-append val more)),
        take-append_length val more,
        drop-append_length val more,
      )
      refl

-- The support option's value.
apply_support :
    (p : Packet) (minor func : ℕ)
    → minor < 256
    → func < 2 ^ 24
    → apply_option 0 (write_u32 (minor + func * 256)) p
      ≡ record p { minor_version = minor; supported_func = func }
unfolding apply_option
apply_support p minor func h k =
    let low : (minor + func * 256) % 256 ≡ minor = omega arith in
    let high : (minor + func * 256) / 256 ≡ func = omega arith in
    rw (length-le 4 (minor + func * 256), le_value-le 4 (minor + func * 256) (omega arith))
      (rw (low, high) refl)

decode_one :
    (p : Packet) (id : ℕ) (v : Bytes)
    → id < 256
    → length v < 256
    → decode_options (length (put_option id v ++ [])) p (put_option id v ++ [])
      ≡ some (apply_option id v p)
decode_one p id v h k =
    unfold le in decode_put (suc (length (v ++ []))) p id v [] h k ∙ unfold decode_options in refl

decode_two :
    (p : Packet) (id : ℕ) (v : Bytes) (id' : ℕ) (w : Bytes)
    → id < 256
    → length v < 256
    → id' < 256
    → length w < 256
    → decode_options
        (length (put_option id v ++ put_option id' w))
        p
        (put_option id v ++ put_option id' w)
      ≡ some (apply_option id' w (apply_option id v p))
decode_two p id v id' w h k h' k' = rw (← append-nil (put_option id' w)) (
    unfold le in
    decode_put (suc (length (v ++ (put_option id' w ++ [])))) p id v (put_option id' w ++ []) h k
    ∙ (decode_put (length (v ++ (put_option id' w ++ []))) (apply_option id v p) id' w [] h' k'
        ∙ unfold decode_options in refl))

length-two :
    (id : ℕ) (v : Bytes) (id' : ℕ) (w : Bytes)
    → length (put_option id v ++ put_option id' w) ≡ 4 + length v + length w
unfolding le
length-two id v id' w = omega (arith, length-append v (put_option id' w))

-- The header's fields alone.
abbrev bare : Packet → Packet
bare p = record p {
  signature = [];
  connection_sig = [];
  minor_version = 0;
  supported_func = 0;
  payload = [];
}

options-decoded :
    (p : Packet)
    → FitsPacket p
    → decode_options (length (encode_options p)) (bare p) (encode_options p)
      ≡ some (record (carried p) { payload = [] })
unfolding encode_options support_option connection_option signature_option
options-decoded p h = elim (Bool-cases (is_syn p)) [
  | inl s ↦
      let other : is_connect p ≡ false = ground arith in
      elim (Bool-cases (has_ack p)) [
        | inl a ↦
            let total =
              rw (append-nil (put_option 1 p.connection_sig)) at (rw (s, other, a) at h.options) in
            rw (s, other, a)
              (rw (append-nil (put_option 1 p.connection_sig)) (
                decode_two (bare p) 0 value 1 p.connection_sig (omega arith) small (omega arith)
                  (omega (arith, total, length-two 0 value 1 p.connection_sig))
                ∙ rw support (unfold apply_option in refl)))
        | inr a ↦
            rw (s, other, a) (decode_one (bare p) 0 value (omega arith) small ∙ rw support refl)
      ]
  | inr s ↦ elim (Bool-cases (is_connect p)) [
    | inl c ↦ elim (Bool-cases (has_ack p)) [
      | inl a ↦ rw (s, c, a) (decode_one (bare p) 0 value (omega arith) small ∙ rw support refl)
      | inr a ↦
          let total = rw (s, c, a) at h.options in
          rw (s, c, a)
            (decode_two (bare p) 0 value 128 p.signature (omega arith) small (omega arith)
                (omega (arith, total, length-two 0 value 128 p.signature))
              ∙ rw support (unfold apply_option in refl))
    ]
    | inr c ↦ rw (s, c) (unfold decode_options in refl)
  ]
]
  where
    value : Bytes
    value = write_u32 (p.minor_version + p.supported_func * 256)

    small : length value < 256
    small = unfold le in omega arith

    support :
        apply_option 0 value (bare p)
        ≡ record (bare p) { minor_version = p.minor_version; supported_func = p.supported_func }
    support =
        apply_support (bare p) p.minor_version p.supported_func h.minor_version h.supported_func

packet_header :
    (p : Packet) (tail : Bytes) → FitsPacket p → decode_header (encode_packet p ++ tail) ≡ bare p
unfolding encode_packet le decode_header
packet_header p tail h =
    let ends = p.source_type * 16 % 256 + p.dest_type % 16 in
    let kind = p.packet_type % 16 + p.flags * 16 % 65536 in
    let source_type : ends % 256 / 16 ≡ p.source_type = omega (arith, h.source_type, h.dest_type) in
    let dest_type : ends % 256 % 16 ≡ p.dest_type = omega (arith, h.source_type, h.dest_type) in
    let packet_type : (kind % 256 + 256 * (kind / 256 % 256)) % 16 ≡ p.packet_type =
      omega (arith, h.packet_type, h.flags) in
    let flags : (kind % 256 + 256 * (kind / 256 % 256)) / 16 ≡ p.flags =
      omega (arith, h.packet_type, h.flags) in
    let source_port : p.source_port % 256 ≡ p.source_port = omega (arith, h.source_port) in
    let dest_port : p.dest_port % 256 ≡ p.dest_port = omega (arith, h.dest_port) in
    let fragment_id : p.fragment_id % 256 ≡ p.fragment_id = omega (arith, h.fragment_id) in
    let packet_id : p.packet_id % 256 + 256 * (p.packet_id / 256 % 256) ≡ p.packet_id =
      omega (arith, h.packet_id) in
    rw (source_type, dest_type, packet_type, flags, source_port, dest_port, fragment_id, packet_id)
      refl

drop_header :
    (p : Packet) (tail : Bytes)
    → drop 12 (encode_packet p ++ tail) ≡ (encode_options p ++ p.payload) ++ tail
unfolding encode_packet le
drop_header p tail = refl

sizes :
    (p : Packet) (tail : Bytes)
    → FitsPacket p
    → (byte_at (encode_packet p ++ tail) 1 ≡ length (encode_options p))
      × (u16_at (encode_packet p ++ tail) 2 ≡ length p.payload)
unfolding encode_packet le
sizes p tail h = (omega (arith, h.options), omega (arith, h.payload))

drop_nil : (n : ℕ) → drop {A = ℕ} n [] ≡ []
drop_nil zero = refl
drop_nil (suc n) = refl

drop_plus : (m n : ℕ) (xs : Bytes) → drop (m + n) xs ≡ drop n (drop m xs)
drop_plus zero n xs = let e : 0 + n ≡ n = omega arith in rw e refl
drop_plus (suc m) n [] = drop_nil (suc m + n) ∙ sym (drop_nil n)
drop_plus (suc m) n (x ∷ xs) =
    let e : suc m + n ≡ suc (m + n) = omega arith in rw e (drop_plus m n xs)

-- Where the parts of an encoded packet stand.
parts :
    (p : Packet) (tail : Bytes)
    → FitsPacket p
    → let buf = encode_packet p ++ tail in
      (options_in buf ≡ encode_options p)
      × (payload_in buf ≡ p.payload)
      × (drop (packet_end buf) buf ≡ tail)
parts p tail h =
    let buf = encode_packet p ++ tail in
    let (o, l) = sizes p tail h in
    let body : drop 12 buf ≡ encode_options p ++ (p.payload ++ tail) =
      drop_header p tail ∙ append_assoc (encode_options p) p.payload tail in
    let behind : drop (12 + length (encode_options p)) buf ≡ p.payload ++ tail =
      drop_plus 12 (length (encode_options p)) buf
      ∙ rw (body) (drop-append_length (encode_options p) (p.payload ++ tail)) in
    (
      rw (o, body) (take-append_length (encode_options p) (p.payload ++ tail)),
      rw (o, l, behind) (take-append_length p.payload tail),
      rw (o, l)
          (drop_plus (12 + length (encode_options p)) (length p.payload) buf
            ∙ rw behind (drop-append_length p.payload tail)),
    )

packet-Complete :
    (p : Packet) (tail : Bytes)
    → FitsPacket p
    → Complete (encode_packet p ++ tail) (record (carried p) { payload = [] })
packet-Complete p tail h =
    let (o, l) = sizes p tail h in
    (
      unfold encode_packet le in omega arith,
      unfold encode_packet le in refl,
      rw (o, l)
          (unfold encode_packet le in
            omega (
              arith,
              length-append (encode_options p ++ p.payload) tail,
              length-append (encode_options p) p.payload,
            )),
      rw ((parts p tail h).0, o, packet_header p tail h) (options-decoded p h),
    )

-- Every packet whose fields, options and payload fit is decoded from its encoding, with the fields
-- that the options of its kind carry, whatever follows it; and what follows is decoded as it would be
-- without it.
pub decode_packets-encode_packet :
    (p : Packet) (tail : Bytes)
    → FitsPacket p
    → decode_packets (encode_packet p ++ tail) ≡ after (carried p ∷ []) (decode_packets tail)
decode_packets-encode_packet p tail h =
    let (_, payload, rest) = parts p tail h in
    decode_packets-Complete (encode_packet p ++ tail) (record (carried p) { payload = [] })
      (packet-Complete p tail h)
    ∙ rw (payload, rest) refl
