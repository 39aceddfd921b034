-- ===== src/Acks.antt =====
-- nextendo-nex/endpoint.go: the data packets of one connection in both directions, acknowledgements,
-- and the packets that are kept to be sent again. The pauses and the timer are left out. Each function
-- is one step here; `sendOneFragment` takes two locks one after the other, and what another goroutine
-- does in between is not modelled.
use nextendo_mk8d_matchmakin.Base.{
  ℕ, zero, suc, ◌+◌, ◌*◌, ◌%◌, ◌^◌, ◌==◌, ltb, leb, if◌then◌else◌, Bool, true, false, ◌||◌, Option,
  none, some, List, [], ◌∷◌, ◌++◌,
}
use nextendo_mk8d_matchmakin.Base.Lists.{length, drop, contains}
use nextendo_mk8d_matchmakin.Base.Bits.{test_bit}
use nextendo_mk8d_matchmakin.Base.Maps.{Table, find, insert, erase}
use nextendo_mk8d_matchmakin.Wire.Out.{Bytes}
use nextendo_mk8d_matchmakin.Prudp.{Packet, has_ack, byte_at, u16_at, encode_packet}
use nextendo_mk8d_matchmakin.Fragments.{Fragment}
pub mod Pending

-- The fields of `Connection` that data packets read and change.
pub record Link : Type 0 where
  pub src_type : ℕ
  pub src_port : ℕ
  pub dst_type : ℕ
  pub dst_port : ℕ
  pub frag_buf : Bytes
  pub out_reliable : ℕ
  pub pending : Table Bytes

abbrev needs_ack : Packet → Bool
needs_ack p = test_bit 2 p.flags

abbrev has_multi_ack : Packet → Bool
has_multi_ack p = test_bit 9 p.flags

abbrev packet_from : Link → ℕ → ℕ → ℕ → ℕ → Bytes → Packet
packet_from l packet_type flags fragment_id packet_id payload = record {
  packet_type = packet_type;
  flags = flags;
  source_type = l.src_type;
  source_port = l.src_port;
  dest_type = l.dst_type;
  dest_port = l.dst_port;
  fragment_id = fragment_id;
  packet_id = packet_id;
  signature = [];
  connection_sig = [];
  minor_version = 0;
  supported_func = 0;
  payload = payload;
}

-- The bytes of a fragment's packet, with the flags Reliable and NeedAck.
unfoldable pub encode_fragment : Link → Fragment → Bytes
encode_fragment l (id, chunk) = encode_packet (packet_from l 2 6 id l.out_reliable chunk)

-- `sendOneFragment`: the sequence id is a uint16.
unfoldable pub send_one_fragment : Link → Fragment → Link × Bytes
send_one_fragment l f = (
  record l {
    out_reliable = (l.out_reliable + 1) % 2 ^ 16;
    pending = insert l.out_reliable (encode_fragment l f) l.pending;
  },
  encode_fragment l f,
)

unfoldable pub above : ℕ → Table Bytes → Table Bytes
above base [] = []
above base ((id, b) ∷ m) = if leb id base then above base m else (id, b) ∷ above base m

unfoldable pub erase_all : List ℕ → Table Bytes → Table Bytes
erase_all [] m = m
erase_all (id ∷ ids) m = erase_all ids (erase id m)

-- `ackPackets`
unfoldable pub ack_packets : ℕ → List ℕ → Link → Link
ack_packets base extra l = record l { pending = erase_all extra (above base l.pending) }

-- `sendAck`
unfoldable pub send_ack : Link → Packet → Bytes
send_ack l p = encode_packet (packet_from l p.packet_type 1 p.fragment_id p.packet_id [])

-- The loop over the extra ids of an aggregate acknowledgement.
unfoldable pub extra_acks : ℕ → Bytes → List ℕ
extra_acks (suc n) (a ∷ b ∷ bs) = (a + 256 * b) ∷ extra_acks n bs
extra_acks _ _ = []

unfoldable pub multi_ack : Link → Bytes → Link
multi_ack l payload =
    if ltb (length payload) 4
    then l
    else ack_packets (u16_at payload 2) (extra_acks (byte_at payload 1) (drop 4 payload)) l

-- What `processData` does: the connection, what it sends, what it hands to `dispatchRMC`.
pub record Handled : Type 0 where
  pub link : Link
  pub sent : List Bytes
  pub handed : Option Bytes

-- The acknowledgement that a packet asks for.
abbrev pub ack_for : Link → Packet → List Bytes
ack_for l p = if needs_ack p then send_ack l p ∷ [] else []

-- `processData`
unfoldable pub process_data : Link → Packet → Handled
process_data l p =
    if has_multi_ack p
    then record { link = multi_ack l p.payload; sent = []; handed = none }
    else if has_ack p
    then record { link = ack_packets p.packet_id [] l; sent = []; handed = none }
    else if p.fragment_id == 0
    then record {
      link = record l { frag_buf = [] };
      sent = ack_for l p;
      handed = some (l.frag_buf ++ p.payload);
    }
    else record {
      link = record l { frag_buf = l.frag_buf ++ p.payload };
      sent = ack_for l p;
      handed = none;
    }

-- `processPing`
unfoldable pub process_ping : Link → Packet → List Bytes
process_ping l p = if has_ack p then [] else ack_for l p

abbrev cons_bytes : Option Bytes → List Bytes → List Bytes
cons_bytes none bs = bs
cons_bytes (some b) bs = b ∷ bs

-- One turn of `retransmitLoop` on a connection that is open, in the order in which the runtime ranges
-- over the ids.
unfoldable pub retransmit : List ℕ → Link → List Bytes
retransmit [] l = []
retransmit (id ∷ order) l = cons_bytes (find id l.pending) (retransmit order l)
