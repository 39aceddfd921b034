-- ===== src/Matchmaking/Placement.antt =====
-- nextendo-nex/matchmaking_handlers.go: where a player stands after automatic matchmaking or a join.
use nextendo_mk8d_matchmakin.Base.{
  ℕ, ◌+◌, ◌%◌, ◌^◌, ◌<◌, ◌≡◌, refl, if◌then◌else◌, Bool, true, false, ◌⊎◌, Option, none, some, List,
  [], ◌∷◌, ◌++◌, arith, inl, inr, Option-cases, Bool-cases,
}
use nextendo_mk8d_matchmakin.Base.Lists.{length, contains, contains-append}
use nextendo_mk8d_matchmakin.Base.Maps.{find, find-insert}
use nextendo_mk8d_matchmakin.Wire.Settings.{Settings}
use nextendo_mk8d_matchmakin.Wire.In.{stream}
use nextendo_mk8d_matchmakin.Session.Types.{Session, write_session, read_auto_param}
use nextendo_mk8d_matchmakin.Rmc.{RmcMessage, session_full}
use nextendo_mk8d_matchmakin.Endpoint.State.{Connection}
use nextendo_mk8d_matchmakin.Matchmaking.State.{Gathering, Store, Switches}
use nextendo_mk8d_matchmakin.Matchmaking.World.{World, Outcome}
use nextendo_mk8d_matchmakin.Matchmaking.Reservations.{
  expire_join_reservations, reserve_join, commit_reserved_join,
}
use nextendo_mk8d_matchmakin.Matchmaking.Seats.{commit-reserve}
use nextendo_mk8d_matchmakin.Matchmaking.Create.{
  create_gathering, new_gathering, put_gathering, count_participants, extension_success,
  extension_error,
}
use nextendo_mk8d_matchmakin.Matchmaking.Join.{
  try_candidate, select_at, select_gathering, with_min_participants, finish, open_own, take_seat,
  matchmake_choice, auto_matchmake_session, auto_matchmake, joined_outcome, join_found, join_gid,
  join_session,
}

-- A gathering of the outcome's store has the player, and the reply carries its session.
abbrev pub Placed : Settings → RmcMessage → ℕ → Outcome → Type 0
Placed s req pid o =
    (gid : ℕ) × (g : Gathering) × (find gid o.store.gatherings ≡ some g)
    × (contains g.participants pid ≡ true)
    × (o.reply ≡ some (extension_success req (write_session s g.session)))

finish-Placed :
    (s : Settings) (w : World) (caller : Connection) (req : RmcMessage) (m : Store) (gid : ℕ)
    (g : Gathering)
    → contains g.participants caller.pid ≡ true
    → Placed s req caller.pid (finish s w caller req m gid g)
finish-Placed s w caller req m gid g h = (
  gid,
  count_participants g,
  ground (arith, find-insert gid gid (count_participants g) m.gatherings),
  h,
  refl,
)

open_own-Placed :
    (s : Settings) (w : World) (caller : Connection) (req : RmcMessage) (src : Session)
    (solo : Bool) (m : Store)
    → Placed s req caller.pid (open_own s w caller req src solo m)
unfolding open_own
open_own-Placed s w caller req src solo m =
    let (m', g) = create_gathering w m caller src in
    finish-Placed s w caller req m' m.next_gid (if solo then with_min_participants 1 g else g)
      (unfold create_gathering new_gathering in ground arith)

-- A player with a seat takes part after the commit, whether it took part before or not.
commit-contains :
    (g : Gathering) (ttl pid now later : ℕ)
    → (reserve_join g ttl pid now).1 ≡ true
    → later < now + ttl
    → contains (commit_reserved_join (reserve_join g ttl pid now).0 pid later).0.participants pid
      ≡ true
commit-contains g ttl pid now later done soon = elim (Bool-cases (contains g.participants pid)) [
  | inl e ↦ unfold reserve_join commit_reserved_join in ground arith
  | inr e ↦
      rw
        (
          (commit-reserve g ttl pid now later e done soon).1,
          contains-append g.participants (pid ∷ []) pid,
        )
        (ground arith)
]

take_seat-Placed :
    (s : Settings) (w : World) (caller : Connection) (req : RmcMessage) (src : Session) (m : Store)
    (gid : ℕ) (g : Option Gathering)
    → w.clock 2 < w.clock 1 + m.reservation_ttl
    → Placed s req caller.pid (take_seat s w caller req src m gid g)
unfolding take_seat
take_seat-Placed s w caller req src m gid none soon = open_own-Placed s w caller req src false m
take_seat-Placed s w caller req src m gid (some g) soon =
    let reserved = reserve_join g m.reservation_ttl caller.pid (w.clock 1) in
    elim (Bool-cases reserved.1) [
      | inl e ↦ rw e (
          finish-Placed s w caller req m gid
            (commit_reserved_join reserved.0 caller.pid (w.clock 2)).0
            (commit-contains g m.reservation_ttl caller.pid (w.clock 1) (w.clock 2) e soon))
      | inr e ↦ rw e (open_own-Placed s w caller req src false (put_gathering gid reserved.0 m))
    ]

choice-Placed :
    (s : Settings) (w : World) (caller : Connection) (req : RmcMessage) (src : Session) (m : Store)
    (choice : Option ℕ)
    → w.clock 2 < w.clock 1 + m.reservation_ttl
    → Placed s req caller.pid (matchmake_choice s w caller req src (m, choice))
unfolding matchmake_choice
choice-Placed s w caller req src m none soon = open_own-Placed s w caller req src _ m
choice-Placed s w caller req src m (some gid) soon =
    take_seat-Placed s w caller req src m gid (find gid m.gatherings) soon

select-ttl :
    (w : World) (caller : Connection) (src : Session) (gids : List ℕ) (m : Store)
    → (select_gathering w caller src gids m).0.reservation_ttl ≡ m.reservation_ttl
unfolding select_gathering select_at
select-ttl w caller src [] m = refl
select-ttl w caller src (gid ∷ gids) m = elim (Option-cases (find gid m.gatherings)) [
  | inl e ↦ rw e (select-ttl w caller src gids m)
  | inr (g, e) ↦ elim (Bool-cases (try_candidate w caller src g).1) [
    | inl t ↦ rw (e, t) refl
    | inr t ↦ rw (e, t) (select-ttl w caller src gids _)
  ]
]

session-Placed :
    (s : Settings) (w : World) (m : Store) (caller : Connection) (req : RmcMessage) (src : Session)
    → w.clock 2 < w.clock 1 + m.reservation_ttl
    → Placed s req caller.pid (auto_matchmake_session s w m caller req src)
unfolding auto_matchmake_session
session-Placed s w m caller req src soon = elim (Bool-cases (contains w.solo_pids caller.pid)) [
  | inl e ↦ rw e (choice-Placed s w caller req src m none soon)
  | inr e ↦
      let found = select_gathering w caller src w.order m in
      rw e (
        choice-Placed s w caller req src found.0 found.1
          (rw (select-ttl w caller src w.order m) soon))
]

-- When the request is well formed and less time passes between the reservation and its commit than a
-- reservation lives, automatic matchmaking always places the player: a stored gathering has it as a
-- participant, and the reply is a success that carries this gathering's session as it is stored.
pub auto_matchmake_places :
    (s : Settings) (w : World) (m : Store) (caller : Connection) (req : RmcMessage)
    → (read_auto_param s (stream req.body)).1.failed ≡ false
    → w.clock 2 < w.clock 1 + m.reservation_ttl
    → let o = auto_matchmake s w m caller req in
      (gid : ℕ) × (g : Gathering) × (find gid o.store.gatherings ≡ some g)
      × (contains g.participants caller.pid ≡ true)
      × (o.reply ≡ some (extension_success req (write_session s g.session)))
unfolding auto_matchmake
auto_matchmake_places s w m caller req ok soon =
    rw ok (session-Placed s w m caller req (read_auto_param s (stream req.body)).0 soon)

join_found_cases :
    (s : Settings) (switches : Switches) (w : World) (m : Store) (caller : Connection)
    (req : RmcMessage) (gid : ℕ) (g : Gathering)
    → contains g.participants caller.pid ≡ false
    → w.clock 1 < w.clock 0 + m.reservation_ttl
    → let o = join_found s switches w m caller req gid (some g) in
      (g' : Gathering) × (find gid o.store.gatherings ≡ some g')
      × (((reserve_join g m.reservation_ttl caller.pid (w.clock 0)).1 ≡ true)
            × (g'.participants ≡ g.participants ++ (caller.pid ∷ []))
            × (g'.session.info.num_participants ≡ length g'.participants % 2 ^ 32)
          ⊎ ((reserve_join g m.reservation_ttl caller.pid (w.clock 0)).1 ≡ false)
            × (g'.participants ≡ g.participants)
            × (o.pushes ≡ [])
            × (o.reply ≡ some (extension_error req session_full)))
unfolding join_found joined_outcome
join_found_cases s switches w m caller req gid g out soon =
    let reserved = reserve_join g m.reservation_ttl caller.pid (w.clock 0) in
    let committed = commit_reserved_join reserved.0 caller.pid (w.clock 1) in
    elim (Bool-cases reserved.1) [
      | inl e ↦
          let done =
            commit-reserve g m.reservation_ttl caller.pid (w.clock 0) (w.clock 1) out e soon in
          (
            count_participants committed.0,
            rw (out, e)
                (ground (arith, find-insert gid gid (count_participants committed.0) m.gatherings)),
            inl (e, done.1, refl),
          )
      | inr e ↦ (
        reserved.0,
        rw (out, e) (ground (arith, find-insert gid gid reserved.0 m.gatherings)),
        inr (e, refused e, rw (out, e) refl, rw (out, e) refl),
      )
    ]
  where
    refused :
        (reserve_join g m.reservation_ttl caller.pid (w.clock 0)).1 ≡ false
        → (reserve_join g m.reservation_ttl caller.pid (w.clock 0)).0.participants ≡ g.participants
    refused e = unfold reserve_join expire_join_reservations in ground arith

-- A join by a player who takes no part in an existing gathering, with less time between reservation
-- and commit than a reservation lives, succeeds when a seat can be reserved, and then adds the player
-- behind the other participants and counts them, whatever the session's open flag and passwords say.
-- When no seat can be reserved it answers that the session is full, pushes nothing, and leaves the
-- participants as they are.
pub join_session_cases :
    (s : Settings) (switches : Switches) (w : World) (m : Store) (caller : Connection)
    (req : RmcMessage) (g : Gathering)
    → find (join_gid req) m.gatherings ≡ some g
    → contains g.participants caller.pid ≡ false
    → w.clock 1 < w.clock 0 + m.reservation_ttl
    → let o = join_session s switches w m caller req in
      (g' : Gathering) × (find (join_gid req) o.store.gatherings ≡ some g')
      × (((reserve_join g m.reservation_ttl caller.pid (w.clock 0)).1 ≡ true)
            × (g'.participants ≡ g.participants ++ (caller.pid ∷ []))
            × (g'.session.info.num_participants ≡ length g'.participants % 2 ^ 32)
          ⊎ ((reserve_join g m.reservation_ttl caller.pid (w.clock 0)).1 ≡ false)
            × (g'.participants ≡ g.participants)
            × (o.pushes ≡ [])
            × (o.reply ≡ some (extension_error req session_full)))
unfolding join_session
join_session_cases s switches w m caller req g h out soon =
    rw h (join_found_cases s switches w m caller req (join_gid req) g out soon)
