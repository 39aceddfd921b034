-- ===== src/Examples/Packets.antt =====
-- Examples of packets.
use nextendo_mk8d_matchmakin.Base.{◌≡◌, refl, false, [], ◌∷◌, ◌++◌, arith}
use nextendo_mk8d_matchmakin.Wire.Out.{Bytes, le}
use nextendo_mk8d_matchmakin.Prudp.{
  Packet, support_option, connection_option, signature_option, encode_options, encode_packet,
  decode_options, decode_header, with_packet, decode_loop, decode_packets, feed,
}
use nextendo_mk8d_matchmakin.Fragments.{send_data, fragment_loop, reassemble, reassemble-send_data}
use nextendo_mk8d_matchmakin.Prudp.Stream.{after, feed-append}
use nextendo_mk8d_matchmakin.Prudp.RoundTrip.{FitsPacket, carried, decode_packets-encode_packet}

-- A server's answer to SYN, and a short DATA packet.
abbrev syn : Packet
syn = record {
  packet_type = 0;
  flags = 1;
  source_type = 10;
  source_port = 1;
  dest_type = 11;
  dest_port = 15;
  fragment_id = 0;
  packet_id = 0;
  signature = [];
  connection_sig = 3 ∷ 4 ∷ [];
  minor_version = 5;
  supported_func = 7;
  payload = [];
}

abbrev data_packet : Packet
data_packet = record syn {
  packet_type = 2;
  flags = 6;
  fragment_id = 0;
  packet_id = 300;
  connection_sig = [];
  minor_version = 0;
  supported_func = 0;
  payload = 9 ∷ 8 ∷ 7 ∷ [];
}

syn-FitsPacket : FitsPacket syn
unfolding encode_options support_option connection_option signature_option le
syn-FitsPacket = record {
  packet_type = omega arith;
  flags = omega arith;
  source_type = omega arith;
  dest_type = omega arith;
  source_port = omega arith;
  dest_port = omega arith;
  fragment_id = omega arith;
  packet_id = omega arith;
  minor_version = omega arith;
  supported_func = omega arith;
  options = omega arith;
  payload = omega arith;
}

decode_packets-encode_packet_example :
    decode_packets (encode_packet syn ++ (0x80 ∷ 0 ∷ []))
    ≡ after (carried syn ∷ []) (decode_packets (0x80 ∷ 0 ∷ []))
decode_packets-encode_packet_example =
    decode_packets-encode_packet syn (0x80 ∷ 0 ∷ []) syn-FitsPacket

-- The data packet's bytes, cut behind the fifth.
abbrev first_bytes : Bytes
first_bytes = 0x80 ∷ 0 ∷ 3 ∷ 0 ∷ 0xAB ∷ []

abbrev last_bytes : Bytes
last_bytes = 1 ∷ 15 ∷ 0 ∷ 0x62 ∷ 0 ∷ 0x2C ∷ 1 ∷ 9 ∷ 8 ∷ 7 ∷ []

cut_packet : encode_packet data_packet ≡ first_bytes ++ last_bytes
unfolding encode_packet encode_options support_option connection_option signature_option le
cut_packet = refl

whole_packet :
    decode_packets (first_bytes ++ last_bytes)
    ≡ record { packets = data_packet ∷ []; rest = []; failed = false }
unfolding decode_packets decode_loop with_packet decode_options decode_header
whole_packet = refl

feed-append_example : feed [] (first_bytes ++ last_bytes) ≡ (
  (feed (feed [] first_bytes).0 last_bytes).0,
  (feed [] first_bytes).1 ++ (feed (feed [] first_bytes).0 last_bytes).1,
)
feed-append_example =
    feed-append [] first_bytes last_bytes (unfold decode_packets decode_loop in refl)
      (unfold decode_packets decode_loop with_packet decode_options decode_header in refl)

reassemble-send_data_example :
    reassemble [] (send_data 2 (1 ∷ 2 ∷ 3 ∷ [])) ≡ ([], (1 ∷ 2 ∷ 3 ∷ []) ∷ [])
reassemble-send_data_example = reassemble-send_data 2 (1 ∷ 2 ∷ 3 ∷ [])

two_fragments : send_data 2 (1 ∷ 2 ∷ 3 ∷ []) ≡ (1, 1 ∷ 2 ∷ []) ∷ (0, 3 ∷ []) ∷ []
unfolding send_data fragment_loop
two_fragments = refl
