-- ===== src/Prudp.antt =====
-- nextendo-nex/prudp_lite.go: packets and their options, and the decoder that takes complete packets
-- off a buffer.
use nextendo_mk8d_matchmakin.Base.{
  ℕ, zero, suc, ◌+◌, ◌*◌, ◌/◌, ◌%◌, ◌^◌, ◌==◌, ltb, if◌then◌else◌, Bool, true, false, not, ◌&&◌,
  ◌||◌, Option, none, some, List, [], ◌∷◌, ◌++◌,
}
use nextendo_mk8d_matchmakin.Base.Lists.{length, take, drop, get_or}
use nextendo_mk8d_matchmakin.Base.Bits.{test_bit}
use nextendo_mk8d_matchmakin.Wire.Out.{Bytes, write_u8, write_u16, write_u32}
use nextendo_mk8d_matchmakin.Wire.In.{le_value}
pub mod Stream
pub mod RoundTrip

-- `Packet`
pub record Packet : Type 0 where
  pub packet_type : ℕ
  pub flags : ℕ
  pub source_type : ℕ
  pub source_port : ℕ
  pub dest_type : ℕ
  pub dest_port : ℕ
  pub fragment_id : ℕ
  pub packet_id : ℕ
  pub signature : Bytes
  pub connection_sig : Bytes
  pub minor_version : ℕ
  pub supported_func : ℕ
  pub payload : Bytes

abbrev pub is_syn : Packet → Bool
is_syn p = p.packet_type == 0

abbrev pub is_connect : Packet → Bool
is_connect p = p.packet_type == 1

-- `HasFlag(FlagACK)`
abbrev pub has_ack : Packet → Bool
has_ack p = test_bit 0 p.flags

abbrev pub put_option : ℕ → Bytes → Bytes
put_option id val = write_u8 id ++ (write_u8 (length val) ++ val)

-- The three options of `encodeLiteOptions`. The minor version is a byte, so the source's bitwise or
-- is a sum.
unfoldable pub support_option : Packet → Bytes
support_option p =
    if is_syn p || is_connect p
    then put_option 0 (write_u32 (p.minor_version + p.supported_func * 256))
    else []

unfoldable pub connection_option : Packet → Bytes
connection_option p = if is_syn p && has_ack p then put_option 1 p.connection_sig else []

unfoldable pub signature_option : Packet → Bytes
signature_option p = if is_connect p && not (has_ack p) then put_option 128 p.signature else []

-- `encodeLiteOptions`
unfoldable pub encode_options : Packet → Bytes
encode_options p = support_option p ++ (connection_option p ++ signature_option p)

-- `EncodePacket`
unfoldable pub encode_packet : Packet → Bytes
encode_packet p =
    write_u8 0x80
    ++ (write_u8 (length (encode_options p))
        ++ (write_u16 (length p.payload)
            ++ (write_u8 (p.source_type * 16 % 256 + p.dest_type % 16)
                ++ (write_u8 p.source_port
                    ++ (write_u8 p.dest_port
                        ++ (write_u8 p.fragment_id
                            ++ (write_u16 (p.packet_type % 16 + p.flags * 16 % 2 ^ 16)
                                ++ (write_u16 p.packet_id ++ (encode_options p ++ p.payload)))))))))

-- The `switch` of `decodeLiteOptions`.
unfoldable pub apply_option : ℕ → Bytes → Packet → Packet
apply_option id val p =
    if id == 0
    then (if length val == 4
        then record p { minor_version = le_value val % 256; supported_func = le_value val / 256 }
        else p)
    else if id == 1
    then record p { connection_sig = val }
    else if id == 128
    then record p { signature = val }
    else p

-- `decodeLiteOptions`; each turn of the loop takes two bytes at least.
unfoldable pub decode_options : ℕ → Packet → Bytes → Option Packet
decode_options fuel p [] = some p
decode_options fuel p (id ∷ []) = none
decode_options zero p (id ∷ size ∷ more) = none
decode_options (suc fuel) p (id ∷ size ∷ more) =
    let rest = decode_options fuel (apply_option id (take size more) p) (drop size more) in
    if ltb (length more) size then none else rest

abbrev pub byte_at : Bytes → ℕ → ℕ
byte_at buf i = get_or buf i 0

abbrev pub u16_at : Bytes → ℕ → ℕ
u16_at buf i = byte_at buf i + 256 * byte_at buf (i + 1)

-- The twelve bytes of the header.
unfoldable pub decode_header : Bytes → Packet
decode_header buf = record {
  packet_type = u16_at buf 8 % 16;
  flags = u16_at buf 8 / 16;
  source_type = byte_at buf 4 / 16;
  source_port = byte_at buf 5;
  dest_type = byte_at buf 4 % 16;
  dest_port = byte_at buf 6;
  fragment_id = byte_at buf 7;
  packet_id = u16_at buf 10;
  signature = [];
  connection_sig = [];
  minor_version = 0;
  supported_func = 0;
  payload = [];
}

-- The results of `DecodePackets`: the packets, the bytes that are left, and whether there was an
-- error.
pub record Decoded : Type 0 where
  pub packets : List Packet
  pub rest : Bytes
  pub failed : Bool

abbrev pub stop : Bytes → Bool → Decoded
stop buf failed = record { packets = []; rest = buf; failed = failed }

abbrev pub options_end : Bytes → ℕ
options_end buf = 12 + byte_at buf 1

abbrev pub packet_end : Bytes → ℕ
packet_end buf = options_end buf + u16_at buf 2

abbrev pub options_in : Bytes → Bytes
options_in buf = take (byte_at buf 1) (drop 12 buf)

abbrev pub payload_in : Bytes → Bytes
payload_in buf = take (u16_at buf 2) (drop (options_end buf) buf)

-- A complete packet with its options read, and what the loop does later.
unfoldable pub with_packet : Bytes → Option Packet → Decoded → Decoded
with_packet buf none later = stop buf true
with_packet buf (some p) later = record later {
  packets = (record p { payload = payload_in buf }) ∷ later.packets;
}

-- The loop of `DecodePackets`; each turn takes twelve bytes at least.
unfoldable pub decode_loop : ℕ → Bytes → Decoded
decode_loop zero buf = stop buf false
decode_loop (suc fuel) buf =
    let later = decode_loop fuel (drop (packet_end buf) buf) in
    if ltb (length buf) 12
    then stop buf false
    else if not (byte_at buf 0 == 0x80)
    then stop buf true
    else if ltb (length buf) (packet_end buf)
    then stop buf false
    else with_packet buf (decode_options (byte_at buf 1) (decode_header buf) (options_in buf)) later

-- `DecodePackets`
unfoldable pub decode_packets : Bytes → Decoded
decode_packets buf = decode_loop (length buf) buf

-- `Feed`: what was kept before, and new bytes. An error drops the bytes and the packets before it.
unfoldable pub feed : Bytes → Bytes → Bytes × List Packet
feed kept arrived =
    let d = decode_packets (kept ++ arrived) in if d.failed then ([], []) else (d.rest, d.packets)
