-- ===== src/Matchmaking/Steps.antt =====
-- The matchmaking store as a transition system: one step for each call that changes it, by any
-- connection, with any request, clock and environment; and what holds after any number of steps.
use nextendo_mk8d_matchmakin.Base.{
  ℕ, ◌≡◌, ◌==◌, ◌≤◌, ◌<◌, ◌%◌, ◌^◌, Bool, false, Option, none, some, List, [], arith, inl, inr,
  Option-cases, Bool-cases, refl,
}
use nextendo_mk8d_matchmakin.Base.Lists.{length, Distinct, get_or}
use mathlib.Core.Path.{subst}
use nextendo_mk8d_matchmakin.Base.Maps.{find, erase, Every-find, length-erase_le}
use nextendo_mk8d_matchmakin.Wire.Settings.{Settings}
use nextendo_mk8d_matchmakin.Wire.In.{stream}
use nextendo_mk8d_matchmakin.Session.Types.{read_auto_param}
use nextendo_mk8d_matchmakin.Rmc.{RmcMessage}
use nextendo_mk8d_matchmakin.Endpoint.State.{Connection}
use nextendo_mk8d_matchmakin.Matchmaking.State.{Gathering, Store, Switches, new_matchmaking}
use nextendo_mk8d_matchmakin.Matchmaking.World.{World, Outcome}
use nextendo_mk8d_matchmakin.Matchmaking.Create.{reply_only, extension_success}
use nextendo_mk8d_matchmakin.Matchmaking.Reservations.{
  max_seats, reserve_join_by_id, reserve_found, cancel_join_reservation, cancel_found,
}
use nextendo_mk8d_matchmakin.Matchmaking.Seats.{seats}
use nextendo_mk8d_matchmakin.Matchmaking.Join.{
  auto_matchmake, create_session, create_session_of, join_session,
}
use nextendo_mk8d_matchmakin.Matchmaking.Leave.{
  unregister_gathering, end_participation_call, remove_player, is_empty, request_gid,
}
use nextendo_mk8d_matchmakin.Matchmaking.Update.{
  set_participation, set_open, update_application_buffer, buffer_found, extend_attribs,
  store_attribs, modify_found, modify_attribute, modify_current_game_attribute, acknowledged,
  is_owner, migrate_gathering_ownership, migrate_found,
}
use nextendo_mk8d_matchmakin.Matchmaking.SessionPart.{update_session_part}
use nextendo_mk8d_matchmakin.Wire.Out.{Bytes}
use nextendo_mk8d_matchmakin.Matchmaking.State.{Codes}
use nextendo_mk8d_matchmakin.Matchmaking.Codes.{set_code, make_code, private_room_create}
use nextendo_mk8d_matchmakin.Matchmaking.NotifData.{
  read_published, publish, update_notification_data,
}
use nextendo_mk8d_matchmakin.Matchmaking.Invariant.{
  Consistent, StoreOk, put-StoreOk, reserve-Consistent, create-StoreOk,
  auto_matchmake_session-StoreOk, join_found-StoreOk,
}
use nextendo_mk8d_matchmakin.Matchmaking.Preservation.{
  unregister-StoreOk, end_participation-StoreOk, remove_player-StoreOk, with_info-Consistent,
  migrate-Consistent,
}

pub data Step (s : Settings) (switches : Switches) (m : Store) : Store → Type 0 where
  auto_matchmakes :
      (w : World) (c : Connection) (r : RmcMessage)
      → Step s switches m (auto_matchmake s w m c r).store
  creates :
      (w : World) (c : Connection) (r : RmcMessage)
      → Step s switches m (create_session s w m c r).store
  joins :
      (w : World) (c : Connection) (r : RmcMessage)
      → Step s switches m (join_session s switches w m c r).store
  unregisters :
      (c : Connection) (r : RmcMessage) → Step s switches m (unregister_gathering m c r).store
  ends : (c : Connection) (r : RmcMessage) → Step s switches m (end_participation_call m c r).store
  disconnects : (pid : ℕ) → Step s switches m (remove_player m pid)
  sets_participation :
      (r : RmcMessage) (opens : Bool) → Step s switches m (set_participation m r opens).store
  updates_buffer :
      (c : Connection) (r : RmcMessage) → Step s switches m (update_application_buffer m c r).store
  -- a call that does not return makes no step
  modifies_attribute :
      (fuel : ℕ) (c : Connection) (r : RmcMessage) (o : Outcome)
      → modify_current_game_attribute fuel m c r ≡ some o
      → Step s switches m o.store
  migrates :
      (w : World) (c : Connection) (r : RmcMessage)
      → Step s switches m (migrate_gathering_ownership s w m c r).store
  updates_part : (r : RmcMessage) → Step s switches m (update_session_part s switches m r).store
  reserves : (gid pid now : ℕ) → Step s switches m (reserve_join_by_id m gid pid now).0
  cancels : (gid pid : ℕ) → Step s switches m (cancel_join_reservation m gid pid)
  creates_room : (r : RmcMessage) → Step s switches m (private_room_create m r).store
  publishes :
      (w : World) (c : Connection) (r : RmcMessage)
      → Step s switches m (update_notification_data s w m c r).store

pub data Reach (s : Settings) (switches : Switches) (m : Store) : Store → Type 0 where
  here : Reach s switches m m
  next : {m' m'' : Store} → Reach s switches m m' → Step s switches m' m'' → Reach s switches m m''

auto-StoreOk :
    (s : Settings) (w : World) (m : Store) (c : Connection) (r : RmcMessage)
    → StoreOk m
    → StoreOk (auto_matchmake s w m c r).store
unfolding auto_matchmake
auto-StoreOk s w m c r ok = elim (Bool-cases (read_auto_param s (stream r.body)).1.failed) [
  | inl e ↦ rw e ok
  | inr e ↦ rw e (auto_matchmake_session-StoreOk s w m c r _ ok)
]

create_call-StoreOk :
    (s : Settings) (w : World) (m : Store) (c : Connection) (r : RmcMessage)
    → StoreOk m
    → StoreOk (create_session s w m c r).store
unfolding create_session create_session_of
create_call-StoreOk s w m c r ok = elim (Bool-cases (read_auto_param s (stream r.body)).1.failed) [
  | inl e ↦ rw e ok
  | inr e ↦ rw e (create-StoreOk w m c (read_auto_param s (stream r.body)).0 ok).0
]

set_open-StoreOk :
    (m : Store) (gid : ℕ) (opens : Bool)
    → StoreOk m
    → StoreOk (set_open m gid opens (find gid m.gatherings))
unfolding set_open
set_open-StoreOk m gid opens ok = elim (Option-cases (find gid m.gatherings)) [
  | inl e ↦ rw e ok
  | inr (g, e) ↦ rw e (
      put-StoreOk gid _ m
        (with_info-Consistent gid g _ refl (Every-find Consistent gid m.gatherings ok e)) ok)
]

buffer_found-StoreOk :
    (m : Store) (c : Connection) (r : RmcMessage) (gid : ℕ) (buffer : List ℕ)
    → StoreOk m
    → StoreOk (buffer_found m c r gid buffer (find gid m.gatherings)).store
unfolding buffer_found
buffer_found-StoreOk m c r gid buffer ok = elim (Option-cases (find gid m.gatherings)) [
  | inl e ↦ rw e ok
  | inr (g, e) ↦ elim (Bool-cases (get_or g.participants 0 0 == c.pid)) [
    | inl t ↦
        rw (e, t)
          (put-StoreOk gid _ m
            (with_info-Consistent gid g _ refl (Every-find Consistent gid m.gatherings ok e)) ok)
    | inr t ↦ rw (e, t) ok
  ]
]

-- The store after a call that may not return.
abbrev SomeOk : Option Store → Type 0
SomeOk none = Unit {0}
SomeOk (some m) = StoreOk m

modify_attribute-SomeOk :
    (fuel : ℕ) (m : Store) (pid gid index value : ℕ)
    → StoreOk m
    → SomeOk (modify_attribute fuel m pid gid index value)
unfolding modify_attribute modify_found
modify_attribute-SomeOk fuel m pid gid index value ok =
    elim (Option-cases (find gid m.gatherings)) [
      | inl e ↦ rw e ok
      | inr (g, e) ↦ elim (Bool-cases (is_owner g pid)) [
        | inr t ↦ rw (e, t) ok
        | inl t ↦ rw (e, t) (stored g e (extend_attribs fuel index g.session.info.attribs))
      ]
    ]
  where
    stored :
        (g : Gathering)
        → find gid m.gatherings ≡ some g
        → (extended : Option (List ℕ)) → SomeOk (store_attribs m gid g index value extended)
    stored g e none = unfold store_attribs in tt
    stored g e (some attribs) =
        unfold store_attribs in
        put-StoreOk gid _ m
          (with_info-Consistent gid g _ refl (Every-find Consistent gid m.gatherings ok e)) ok

acknowledged-StoreOk :
    (r : RmcMessage) (m' : Option Store) (o : Outcome)
    → SomeOk m'
    → acknowledged r m' ≡ some o
    → StoreOk o.store
unfolding acknowledged
acknowledged-StoreOk r none o ok e = cc
acknowledged-StoreOk r (some m) o ok e = subst (λ (p : Outcome). StoreOk p.store) (inside e) ok
  where
    inside :
        some (reply_only m (extension_success r [])) ≡ some o
        → reply_only m (extension_success r []) ≡ o
    inside p = cc

modify_call-StoreOk :
    (fuel : ℕ) (m : Store) (c : Connection) (r : RmcMessage) (o : Outcome)
    → StoreOk m
    → modify_current_game_attribute fuel m c r ≡ some o
    → StoreOk o.store
unfolding modify_current_game_attribute
modify_call-StoreOk fuel m c r o ok e =
    acknowledged-StoreOk r _ o (modify_attribute-SomeOk fuel m c.pid _ _ _ ok) e

migrate_found-StoreOk :
    (w : World) (m : Store) (c : Connection) (r : RmcMessage) (gid : ℕ) (cs : List ℕ)
    → StoreOk m
    → StoreOk (migrate_found w m c r gid cs (find gid m.gatherings)).store
unfolding migrate_found
migrate_found-StoreOk w m c r gid cs ok = elim (Option-cases (find gid m.gatherings)) [
  | inl e ↦ rw e ok
  | inr (g, e) ↦ elim (Bool-cases (is_empty g.participants)) [
    | inl t ↦ rw (e, t) ok
    | inr t ↦
        rw (e, t)
          (put-StoreOk gid _ m
            (migrate-Consistent gid g cs (Every-find Consistent gid m.gatherings ok e)) ok)
  ]
]

reserve_by_id-StoreOk :
    (m : Store) (gid pid now : ℕ) → StoreOk m → StoreOk (reserve_join_by_id m gid pid now).0
unfolding reserve_join_by_id reserve_found
reserve_by_id-StoreOk m gid pid now ok = elim (Bool-cases (pid == 0)) [
  | inl t ↦ rw t ok
  | inr t ↦ elim (Option-cases (find gid m.gatherings)) [
    | inl e ↦ rw (t, e) ok
    | inr (g, e) ↦
        rw (t, e)
          (put-StoreOk gid _ m
            (reserve-Consistent gid m.reservation_ttl pid now g
              (Every-find Consistent gid m.gatherings ok e))
            ok)
  ]
]

cancel-StoreOk : (m : Store) (gid pid : ℕ) → StoreOk m → StoreOk (cancel_join_reservation m gid pid)
unfolding cancel_join_reservation cancel_found
cancel-StoreOk m gid pid ok = elim (Option-cases (find gid m.gatherings)) [
  | inl e ↦ rw e ok
  | inr (g, e) ↦
      rw e (put-StoreOk gid _ m (cancelled g (Every-find Consistent gid m.gatherings ok e)) ok)
]
  where
    cancelled :
        (g : Gathering)
        → Consistent gid g
        → Consistent gid (record g { reservations = erase pid g.reservations })
    cancelled g c = record {
      sound = record {
        same_id = c.sound.same_id;
        distinct = c.sound.distinct;
        populated = c.sound.populated;
        bounded = λ h. omega (arith, c.sound.bounded h, length-erase_le pid g.reservations);
      };
      counted = c.counted;
    }

set_code-StoreOk :
    (m : Store) (gid rand : ℕ) (code : Bytes) (codes : Codes)
    → StoreOk m
    → StoreOk
        (set_code gid code (find gid m.gatherings) (record m { code_rand = rand; by_code = codes }))
unfolding set_code
set_code-StoreOk m gid rand code codes ok = elim (Option-cases (find gid m.gatherings)) [
  | inl e ↦ rw e ok
  | inr (g, e) ↦ rw e (
      put-StoreOk gid _ (record m { code_rand = rand; by_code = codes })
        (renamed g (Every-find Consistent gid m.gatherings ok e)) ok)
]
  where
    renamed : (g : Gathering) → Consistent gid g → Consistent gid (record g { code = code })
    renamed g c = record {
      sound = record {
        same_id = c.sound.same_id;
        distinct = c.sound.distinct;
        populated = c.sound.populated;
        bounded = c.sound.bounded;
      };
      counted = c.counted;
    }

room-StoreOk : (m : Store) (r : RmcMessage) → StoreOk m → StoreOk (private_room_create m r).store
unfolding private_room_create make_code
room-StoreOk m r ok = set_code-StoreOk m (request_gid r) _ _ _ ok

publish-StoreOk :
    (s : Settings) (w : World) (m : Store) (c : Connection) (r : RmcMessage)
    → StoreOk m
    → StoreOk (update_notification_data s w m c r).store
unfolding update_notification_data publish
publish-StoreOk s w m c r ok = elim (Bool-cases (read_published s c r).1.failed) [
  | inl e ↦ rw e ok
  | inr e ↦ rw e ok
]

-- While partial session updates are not written, every call that changes the store keeps every
-- gathering consistent.
pub Step-StoreOk :
    {s : Settings} {switches : Switches} {m m' : Store}
    → switches.session_part_persists ≡ false
    → Step s switches m m'
    → StoreOk m
    → StoreOk m'
Step-StoreOk {s} {m = m} off (auto_matchmakes w c r) ok = auto-StoreOk s w m c r ok
Step-StoreOk {s} {m = m} off (creates w c r) ok = create_call-StoreOk s w m c r ok
Step-StoreOk {s} {switches} {m = m} off (joins w c r) ok =
    unfold join_session in join_found-StoreOk s switches w m c r _ ok
Step-StoreOk {m = m} off (unregisters c r) ok =
    unfold unregister_gathering in unregister-StoreOk m c.pid (request_gid r) ok
Step-StoreOk {m = m} off (ends c r) ok =
    unfold end_participation_call in end_participation-StoreOk m c.pid (request_gid r) ok
Step-StoreOk {m = m} off (disconnects pid) ok = remove_player-StoreOk m pid ok
Step-StoreOk {m = m} off (sets_participation r opens) ok =
    unfold set_participation in set_open-StoreOk m (request_gid r) opens ok
Step-StoreOk {m = m} off (updates_buffer c r) ok =
    unfold update_application_buffer in buffer_found-StoreOk m c r _ _ ok
Step-StoreOk {m = m} off (modifies_attribute fuel c r o e) ok =
    modify_call-StoreOk fuel m c r o ok e
Step-StoreOk {m = m} off (migrates w c r) ok =
    unfold migrate_gathering_ownership in migrate_found-StoreOk w m c r _ _ ok
Step-StoreOk {m = m} off (updates_part r) ok = unfold update_session_part in rw off ok
Step-StoreOk {m = m} off (reserves gid pid now) ok = reserve_by_id-StoreOk m gid pid now ok
Step-StoreOk {m = m} off (cancels gid pid) ok = cancel-StoreOk m gid pid ok
Step-StoreOk {m = m} off (creates_room r) ok = room-StoreOk m r ok
Step-StoreOk {s} {m = m} off (publishes w c r) ok = publish-StoreOk s w m c r ok

Reach-StoreOk :
    {s : Settings} {switches : Switches} {m m' : Store}
    → switches.session_part_persists ≡ false
    → StoreOk m
    → Reach s switches m m'
    → StoreOk m'
Reach-StoreOk off ok here = ok
Reach-StoreOk off ok (next r st) = Step-StoreOk off st (Reach-StoreOk off ok r)

-- On a server that does not write partial session updates, after any sequence of calls that change
-- the store (automatic matchmaking, creation, joins, departures, disconnects, updates, migrations,
-- reservations, room codes, published notification data), by any connections with any requests and clocks, starting from the new store: each
-- gathering that is found under an id has a session that carries this id, at least one participant
-- and none twice, announces their number (as a uint32), and, if it has a maximum, has no more
-- participants and reservations together than that.
pub Reach-found :
    (s : Settings) (switches : Switches) (m : Store) (gid : ℕ) (g : Gathering)
    → switches.session_part_persists ≡ false
    → Reach s switches new_matchmaking m
    → find gid m.gatherings ≡ some g
    → (g.session.gathering.id ≡ gid)
      × Distinct g.participants
      × (1 ≤ length g.participants)
      × (g.session.info.num_participants ≡ length g.participants % 2 ^ 32)
      × (0 < max_seats g → seats g ≤ max_seats g)
Reach-found s switches m gid g off r e =
    let c = Every-find Consistent gid m.gatherings (Reach-StoreOk off start r) e in
    (c.sound.same_id, c.sound.distinct, c.sound.populated, c.counted, c.sound.bounded)
  where
    start : StoreOk new_matchmaking
    start = unfold new_matchmaking in tt
