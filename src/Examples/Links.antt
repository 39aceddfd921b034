-- ===== src/Examples/Links.antt =====
-- Examples of packets that wait for their acknowledgement.
use nextendo_mk8d_matchmakin.Base.{◌≡◌, refl, some, [], ◌∷◌, arith}
use nextendo_mk8d_matchmakin.Base.Maps.{find}
use nextendo_mk8d_matchmakin.Prudp.{Packet}
use nextendo_mk8d_matchmakin.Acks.{
  Link, send_one_fragment, process_data, multi_ack, ack_packets, erase_all, above, extra_acks,
}
use nextendo_mk8d_matchmakin.Acks.Pending.{link_run, sends, acks, pending_until_acked}

abbrev link : Link
link = record {
  src_type = 10;
  src_port = 1;
  dst_type = 10;
  dst_port = 15;
  frag_buf = [];
  out_reliable = 3;
  pending = [];
}

-- Another fragment is sent, and an acknowledgement covers only that one.
pending_until_acked_example :
    find 3
      (link_run
        (send_one_fragment link (0, 7 ∷ [])).0
        (sends (0, 8 ∷ []) ∷ acks 2 (4 ∷ []) ∷ [])).pending
    ≡ some (send_one_fragment link (0, 7 ∷ [])).1
pending_until_acked_example =
    pending_until_acked link (0, 7 ∷ []) (sends (0, 8 ∷ []) ∷ acks 2 (4 ∷ []) ∷ []) (omega arith)

-- An aggregate acknowledgement of everything up to 3, and of 6, as it arrives in a packet.
aggregate : Packet
aggregate = record {
  packet_type = 2;
  flags = 512;
  source_type = 10;
  source_port = 15;
  dest_type = 10;
  dest_port = 1;
  fragment_id = 0;
  packet_id = 0;
  signature = [];
  connection_sig = [];
  minor_version = 0;
  supported_func = 0;
  payload = 0 ∷ 1 ∷ 3 ∷ 0 ∷ 6 ∷ 0 ∷ [];
}

abbrev waiting : Link
waiting = record link { pending = (2, []) ∷ (3, []) ∷ (5, 9 ∷ []) ∷ (6, []) ∷ [] }

aggregate_acked : (process_data waiting aggregate).link.pending ≡ (5, 9 ∷ []) ∷ []
unfolding aggregate process_data multi_ack ack_packets erase_all above extra_acks
aggregate_acked = refl
