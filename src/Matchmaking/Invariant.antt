-- ===== src/Matchmaking/Invariant.antt =====
-- nextendo-nex/matchmaking_handlers.go: the invariant of the store, and the handlers that create and
-- join gatherings.
use nextendo_mk8d_matchmakin.Base.{
  ℕ, ◌%◌, ◌^◌, ◌≤◌, ◌≡◌, refl, if◌then◌else◌, Bool, true, false, Option, none, some, List, [], ◌∷◌,
  arith, inl, inr, Option-cases, Bool-cases,
}
use nextendo_mk8d_matchmakin.Base.Lists.{length, contains, Distinct, length-append}
use nextendo_mk8d_matchmakin.Base.Maps.{find, Every, Every-find, Every-insert}
use nextendo_mk8d_matchmakin.Wire.Settings.{Settings}
use nextendo_mk8d_matchmakin.Session.Types.{Session}
use nextendo_mk8d_matchmakin.Rmc.{RmcMessage}
use nextendo_mk8d_matchmakin.Endpoint.State.{Connection}
use nextendo_mk8d_matchmakin.Matchmaking.State.{Gathering, Store, Switches}
use nextendo_mk8d_matchmakin.Matchmaking.World.{World}
use nextendo_mk8d_matchmakin.Matchmaking.Reservations.{
  expire_join_reservations, occupied_seats, reserve_join, commit_reserved_join,
}
use nextendo_mk8d_matchmakin.Matchmaking.Seats.{
  SeatsBounded, expire-SeatsBounded, reserve-SeatsBounded, commit-SeatsBounded, commit-Distinct,
}
use nextendo_mk8d_matchmakin.Matchmaking.Create.{
  create_gathering, put_gathering, count_participants, finalize_created_session, new_gathering,
  finalize_gathering, finalize_info,
}
use nextendo_mk8d_matchmakin.Matchmaking.Join.{
  try_candidate, select_at, matches_search, select_gathering, open_own, with_min_participants,
  take_seat, matchmake_choice, joined_outcome, auto_matchmake_session, join_found,
}

-- A gathering stored under its id: the session carries that id, players stand in it once each and at
-- least one does, and no more seats are taken than the session has.
pub record GatheringOk (gid : ℕ) (g : Gathering) : Type 0 where
  pub same_id : g.session.gathering.id ≡ gid
  pub distinct : Distinct g.participants
  pub populated : 1 ≤ length g.participants
  pub bounded : SeatsBounded g

-- The session also announces the number of participants, as a uint32.
pub record Consistent (gid : ℕ) (g : Gathering) : Type 0 where
  pub sound : GatheringOk gid g
  pub counted : g.session.info.num_participants ≡ length g.participants % 2 ^ 32

abbrev pub StoreOk : Store → Type 0
StoreOk m = Every Consistent m.gatherings

expire-Consistent :
    (gid now : ℕ) (g : Gathering)
    → Consistent gid g
    → Consistent gid (expire_join_reservations g now)
unfolding expire_join_reservations
expire-Consistent gid now g c = record {
  sound = record {
    same_id = c.sound.same_id;
    distinct = c.sound.distinct;
    populated = c.sound.populated;
    bounded = unfold expire_join_reservations in expire-SeatsBounded g now c.sound.bounded;
  };
  counted = c.counted;
}

pub reserve-Consistent :
    (gid ttl pid now : ℕ) (g : Gathering)
    → Consistent gid g
    → Consistent gid (reserve_join g ttl pid now).0
reserve-Consistent gid ttl pid now g c = record {
  sound = record {
    same_id = unfold reserve_join expire_join_reservations in ground (arith, c.sound.same_id);
    distinct = unfold reserve_join expire_join_reservations in ground (arith, c.sound.distinct);
    populated = unfold reserve_join expire_join_reservations in ground (arith, c.sound.populated);
    bounded = reserve-SeatsBounded g ttl pid now c.sound.bounded;
  };
  counted = unfold reserve_join expire_join_reservations in ground (arith, c.counted);
}

commit-GatheringOk :
    (gid pid now : ℕ) (g : Gathering)
    → GatheringOk gid g
    → GatheringOk gid (commit_reserved_join g pid now).0
commit-GatheringOk gid pid now g c = record {
  same_id = unfold commit_reserved_join in ground (arith, c.same_id);
  distinct = commit-Distinct g pid now c.distinct;
  populated =
      unfold commit_reserved_join in
      ground (arith, c.populated, length-append g.participants (pid ∷ []));
  bounded = commit-SeatsBounded g pid now c.bounded;
}

-- Counting again makes the announced number right.
pub count-Consistent :
    (gid : ℕ) (g : Gathering) → GatheringOk gid g → Consistent gid (count_participants g)
count-Consistent gid g c = record {
  sound = record {
    same_id = c.same_id;
    distinct = c.distinct;
    populated = c.populated;
    bounded = c.bounded;
  };
  counted = refl;
}

pub put-StoreOk :
    (gid : ℕ) (g : Gathering) (m : Store)
    → Consistent gid g
    → StoreOk m
    → StoreOk (put_gathering gid g m)
put-StoreOk gid g m c ok = Every-insert Consistent gid g m.gatherings c ok

new-Consistent :
    (w : World) (gid : ℕ) (caller : Connection) (src : Session)
    → Consistent gid (new_gathering w gid caller src)
unfolding new_gathering finalize_created_session finalize_gathering finalize_info
new-Consistent w gid caller src = record {
  sound = record {
    same_id = refl;
    distinct = (refl, tt);
    populated = omega arith;
    bounded = ground arith;
  };
  counted = refl;
}

pub create-StoreOk :
    (w : World) (m : Store) (caller : Connection) (src : Session)
    → StoreOk m
    → StoreOk (create_gathering w m caller src).0
      × Consistent m.next_gid (create_gathering w m caller src).1
unfolding create_gathering
create-StoreOk w m caller src ok =
    let c = new-Consistent w m.next_gid caller src in
    (Every-insert Consistent m.next_gid _ m.gatherings c ok, c)

try-Consistent :
    (gid : ℕ) (w : World) (caller : Connection) (src : Session) (g : Gathering)
    → Consistent gid g
    → Consistent gid (try_candidate w caller src g).0
unfolding try_candidate occupied_seats
try-Consistent gid w caller src g c = elim (Bool-cases (matches_search src g)) [
  | inl e ↦ rw e (expire-Consistent gid (w.clock 0) g c)
  | inr e ↦ rw e c
]

-- Looking for a gathering only drops expired reservations.
select-StoreOk :
    (w : World) (caller : Connection) (src : Session) (gids : List ℕ) (m : Store)
    → StoreOk m
    → StoreOk (select_gathering w caller src gids m).0
unfolding select_gathering select_at
select-StoreOk w caller src [] m ok = ok
select-StoreOk w caller src (gid ∷ gids) m ok = elim (Option-cases (find gid m.gatherings)) [
  | inl e ↦ rw e (select-StoreOk w caller src gids m ok)
  | inr (g, e) ↦
      let kept =
        put-StoreOk gid (try_candidate w caller src g).0 m
          (try-Consistent gid w caller src g (Every-find Consistent gid m.gatherings ok e)) ok in
      elim (Bool-cases (try_candidate w caller src g).1) [
        | inl t ↦ rw (e, t) kept
        | inr t ↦ rw (e, t) (select-StoreOk w caller src gids _ kept)
      ]
]

open_own-StoreOk :
    (s : Settings) (w : World) (caller : Connection) (req : RmcMessage) (src : Session)
    (solo : Bool) (m : Store)
    → StoreOk m
    → StoreOk (open_own s w caller req src solo m).store
unfolding open_own
open_own-StoreOk s w caller req src solo m ok =
    let (kept, own) = create-StoreOk w m caller src ok in
    let (m', g) = create_gathering w m caller src in
    put-StoreOk m.next_gid _ m' (count-Consistent m.next_gid _ (either solo own.sound)) kept
  where
    either :
        (solo : Bool) {gid : ℕ} {g : Gathering}
        → GatheringOk gid g
        → GatheringOk gid (if solo then with_min_participants 1 g else g)
    either true c = record {
      same_id = c.same_id;
      distinct = c.distinct;
      populated = c.populated;
      bounded = c.bounded;
    }
    either false c = c

take_seat-StoreOk :
    (s : Settings) (w : World) (caller : Connection) (req : RmcMessage) (src : Session) (m : Store)
    (gid : ℕ) (g : Gathering)
    → StoreOk m
    → Consistent gid g
    → StoreOk (take_seat s w caller req src m gid (some g)).store
unfolding take_seat
take_seat-StoreOk s w caller req src m gid g ok c =
    let reserved = reserve_join g m.reservation_ttl caller.pid (w.clock 1) in
    let c' = reserve-Consistent gid m.reservation_ttl caller.pid (w.clock 1) g c in
    elim (Bool-cases reserved.1) [
      | inl e ↦ rw e (
          put-StoreOk gid _ m
            (count-Consistent gid _
              (commit-GatheringOk gid caller.pid (w.clock 2) reserved.0 c'.sound))
            ok)
      | inr e ↦ rw e (open_own-StoreOk s w caller req src false _ (put-StoreOk gid _ m c' ok))
    ]

choice-StoreOk :
    (s : Settings) (w : World) (caller : Connection) (req : RmcMessage) (src : Session) (m : Store)
    (choice : Option ℕ)
    → StoreOk m
    → StoreOk (matchmake_choice s w caller req src (m, choice)).store
unfolding matchmake_choice
choice-StoreOk s w caller req src m none ok = open_own-StoreOk s w caller req src _ m ok
choice-StoreOk s w caller req src m (some gid) ok = elim (Option-cases (find gid m.gatherings)) [
  | inl e ↦ rw e (unfold take_seat in open_own-StoreOk s w caller req src false m ok)
  | inr (g, e) ↦ rw e (
      take_seat-StoreOk s w caller req src m gid g ok (Every-find Consistent gid m.gatherings ok e))
]

pub auto_matchmake_session-StoreOk :
    (s : Settings) (w : World) (m : Store) (caller : Connection) (req : RmcMessage) (src : Session)
    → StoreOk m
    → StoreOk (auto_matchmake_session s w m caller req src).store
unfolding auto_matchmake_session
auto_matchmake_session-StoreOk s w m caller req src ok =
    elim (Bool-cases (contains w.solo_pids caller.pid)) [
      | inl e ↦ rw e (choice-StoreOk s w caller req src m none ok)
      | inr e ↦ rw e (
          choice-StoreOk s w caller req src (select_gathering w caller src w.order m).0
            (select_gathering w caller src w.order m).1 (select-StoreOk w caller src w.order m ok))
    ]

pub join_found-StoreOk :
    (s : Settings) (switches : Switches) (w : World) (m : Store) (caller : Connection)
    (req : RmcMessage) (gid : ℕ)
    → StoreOk m
    → StoreOk (join_found s switches w m caller req gid (find gid m.gatherings)).store
unfolding join_found joined_outcome
join_found-StoreOk s switches w m caller req gid ok = elim (Option-cases (find gid m.gatherings)) [
  | inl e ↦ rw e ok
  | inr (g, e) ↦
      let c = Every-find Consistent gid m.gatherings ok e in
      let reserved = reserve_join g m.reservation_ttl caller.pid (w.clock 0) in
      let c' = reserve-Consistent gid m.reservation_ttl caller.pid (w.clock 0) g c in
      elim (Bool-cases (contains g.participants caller.pid)) [
        | inl t ↦ rw (e, t) (put-StoreOk gid _ m (count-Consistent gid g c.sound) ok)
        | inr t ↦ elim (Bool-cases reserved.1) [
          | inl d ↦
              rw (e, t, d)
                (put-StoreOk gid _ m
                  (count-Consistent gid _
                    (commit-GatheringOk gid caller.pid (w.clock 1) reserved.0 c'.sound))
                  ok)
          | inr d ↦ rw (e, t, d) (put-StoreOk gid _ m c' ok)
        ]
      ]
]
