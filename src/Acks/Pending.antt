-- ===== src/Acks/Pending.antt =====
-- nextendo-nex/endpoint.go: how long a packet that was sent is kept to be sent again.
use nextendo_mk8d_matchmakin.Base.{
  ℕ, suc, ◌+◌, ◌%◌, ◌^◌, ◌<◌, ◌≡◌, refl, ◌==◌, leb, if◌then◌else◌, Bool, true, false, ◌||◌, none,
  some, List, [], ◌∷◌, arith,
}
use nextendo_mk8d_matchmakin.Base.Lists.{contains}
use nextendo_mk8d_matchmakin.Base.Maps.{Table, find, erase, find-insert, find-erase}
use nextendo_mk8d_matchmakin.Wire.Out.{Bytes}
use nextendo_mk8d_matchmakin.Fragments.{Fragment}
use nextendo_mk8d_matchmakin.Acks.{
  Link, encode_fragment, send_one_fragment, above, erase_all, ack_packets,
}

find-above :
    (k base : ℕ) (m : Table Bytes) → find k (above base m) ≡ (if leb k base then none else find k m)
unfolding above
find-above k base [] = ground arith
find-above k base ((id, b) ∷ m) = ground (arith, find-above k base m)

find-erase_all :
    (k : ℕ) (ids : List ℕ) (m : Table Bytes)
    → find k (erase_all ids m) ≡ (if contains ids k then none else find k m)
unfolding erase_all
find-erase_all k [] m = refl
find-erase_all k (id ∷ ids) m = ground (arith, find-erase_all k ids (erase id m), find-erase id k m)

-- What happens to the pool: a fragment is sent, or an acknowledgement arrives.
pub data LinkEvent : Type 0 where
  sends : Fragment → LinkEvent
  acks : ℕ → List ℕ → LinkEvent

unfoldable pub happens : Link → LinkEvent → Link
happens l (sends f) = (send_one_fragment l f).0
happens l (acks base extra) = ack_packets base extra l

unfoldable pub link_run : Link → List LinkEvent → Link
link_run l [] = l
link_run l (e ∷ es) = link_run (happens l e) es

-- Some acknowledgement covers the id.
abbrev pub covered : ℕ → List LinkEvent → Bool
covered k [] = false
covered k (sends f ∷ es) = covered k es
covered k (acks base extra ∷ es) = (leb k base || contains extra k) || covered k es

abbrev pub sends_in : List LinkEvent → ℕ
sends_in [] = 0
sends_in (sends f ∷ es) = suc (sends_in es)
sends_in (acks base extra ∷ es) = sends_in es

find-ack_packets :
    (k base : ℕ) (extra : List ℕ) (l : Link)
    → find k (ack_packets base extra l).pending
      ≡ (if leb k base || contains extra k then none else find k l.pending)
unfolding ack_packets
find-ack_packets k base extra l =
    ground (arith, find-erase_all k extra (above base l.pending), find-above k base l.pending)

find-link_run :
    (k : ℕ) (l : Link) (es : List LinkEvent)
    → k < l.out_reliable
    → l.out_reliable + sends_in es < 2 ^ 16
    → find k (link_run l es).pending ≡ (if covered k es then none else find k l.pending)
unfolding link_run happens send_one_fragment ack_packets
find-link_run k l [] h fits = refl
find-link_run k l (sends f ∷ es) h fits =
    let next : (l.out_reliable + 1) % 2 ^ 16 ≡ l.out_reliable + 1 = omega arith in
    let later =
      find-link_run k (happens l (sends f)) es (omega (arith, next)) (omega (arith, next)) in
    let other : (l.out_reliable == k) ≡ false = ground arith in
    let kept = rw other at (find-insert l.out_reliable k (encode_fragment l f) l.pending) in
    rw kept at later
find-link_run k l (acks base extra ∷ es) h fits =
    let later = find-link_run k (happens l (acks base extra)) es h fits in
    ground (arith, later, find-ack_packets k base extra l)

-- After a fragment was sent, whatever is sent and acknowledged later, the connection keeps its bytes,
-- under its id, to send them again until an acknowledgement covers the id, and from then on it keeps
-- nothing under the id, while the ids do not start again at 0.
pub pending_until_acked :
    (l : Link) (f : Fragment) (es : List LinkEvent)
    → l.out_reliable + 1 + sends_in es < 2 ^ 16
    → find l.out_reliable (link_run (send_one_fragment l f).0 es).pending
      ≡ (if covered l.out_reliable es then none else some (send_one_fragment l f).1)
unfolding send_one_fragment
pending_until_acked l f es fits =
    let next : (l.out_reliable + 1) % 2 ^ 16 ≡ l.out_reliable + 1 = omega arith in
    let id = l.out_reliable in
    let later =
      find-link_run id (send_one_fragment l f).0 es (omega (arith, next)) (omega (arith, next)) in
    let self : (id == id) ≡ true = ground arith in
    let stored = rw self at (find-insert id id (encode_fragment l f) l.pending) in
    rw stored at later
