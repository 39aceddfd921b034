-- ===== src/Matchmaking/Join.antt =====
-- nextendo-nex/matchmaking_handlers.go: autoMatchmake, createSession and joinSession.
use nextendo_mk8d_matchmakin.Base.{
  ℕ, ◌%◌, ◌^◌, ◌==◌, ltb, if◌then◌else◌, Bool, false, not, ◌&&◌, Option, none, some, List, [], ◌∷◌,
}
use nextendo_mk8d_matchmakin.Base.Lists.{length, contains}
use nextendo_mk8d_matchmakin.Base.Maps.{find}
use nextendo_mk8d_matchmakin.Wire.Settings.{Settings}
use nextendo_mk8d_matchmakin.Wire.In.{stream, read_u8, read_u32, read_buffer}
use nextendo_mk8d_matchmakin.Session.Types.{Session, write_session, read_auto_param}
use nextendo_mk8d_matchmakin.Rmc.{RmcMessage, core_invalid_argument, session_void, session_full}
use nextendo_mk8d_matchmakin.Endpoint.State.{Connection, nat_behaviour}
use nextendo_mk8d_matchmakin.Matchmaking.State.{Gathering, Store, Switches}
use nextendo_mk8d_matchmakin.Matchmaking.Nat.{classify_nat, gathering_nat_compatible}
use nextendo_mk8d_matchmakin.Matchmaking.World.{World, Outcome, notify_participation}
use nextendo_mk8d_matchmakin.Matchmaking.Reservations.{
  occupied_seats, max_seats, reserve_join, commit_reserved_join,
}
use nextendo_mk8d_matchmakin.Matchmaking.Create.{
  create_gathering, put_gathering, count_participants, reply_only, extension_success,
  extension_error,
}

-- The tests of a candidate that come before its seats are counted.
unfoldable pub matches_search : Session → Gathering → Bool
matches_search src cand =
    cand.session.info.game_mode == src.info.game_mode
    && (cand.session.info.open_participation && not cand.session.info.user_password_enabled)

-- One candidate of the loop in `autoMatchmake`: the gathering with its dead reservations dropped,
-- which counting the seats does, and whether it is taken.
unfoldable pub try_candidate : World → Connection → Session → Gathering → Gathering × Bool
try_candidate w caller src cand =
    let (counted, seats) = occupied_seats cand (w.clock 0) in
    let reachable =
      gathering_nat_compatible w.endpoint (classify_nat (nat_behaviour caller)) counted.participants
        caller.pid in
    if matches_search src cand
    then (counted, ltb (seats % 2 ^ 16) (max_seats counted) && reachable)
    else (cand, false)

unfoldable pub select_at :
    World
    → Connection
    → Session
    → Store
    → ℕ
    → Option Gathering
    → (Store → Store × Option ℕ)
    → Store × Option ℕ
select_at w caller src m gid none next = next m
select_at w caller src m gid (some cand) next =
    let (cand', taken) = try_candidate w caller src cand in
    let m' = put_gathering gid cand' m in if taken then (m', some gid) else next m'

-- The loop in `autoMatchmake` over the gatherings, in the runtime's order.
unfoldable pub select_gathering : World → Connection → Session → List ℕ → Store → Store × Option ℕ
select_gathering w caller src [] m = (m, none)
select_gathering w caller src (gid ∷ gids) m =
    select_at w caller src m gid (find gid m.gatherings)
      (λ m'. select_gathering w caller src gids m')

-- What is stored and announced once the gathering is known.
abbrev pub finish : Settings → World → Connection → RmcMessage → Store → ℕ → Gathering → Outcome
finish s w caller req m gid g =
    let g' = count_participants g in
    record {
      store = put_gathering gid g' m;
      pushes = notify_participation w.endpoint caller g'.participants g'.session.gathering.id [];
      reply = some (extension_success req (write_session s g'.session));
    }

abbrev pub with_min_participants : ℕ → Gathering → Gathering
with_min_participants n g = record g {
  session = record (g.session) {
    gathering = record (g.session.gathering) { min_participants = n };
  };
}

unfoldable pub open_own :
    Settings → World → Connection → RmcMessage → Session → Bool → Store → Outcome
open_own s w caller req src solo m =
    let gid = m.next_gid in
    let (m', g) = create_gathering w m caller src in
    finish s w caller req m' gid (if solo then with_min_participants 1 g else g)

-- A seat is reserved and the reservation committed; if there is none left, the player opens a
-- gathering of its own after all.
unfoldable pub take_seat :
    Settings → World → Connection → RmcMessage → Session → Store → ℕ → Option Gathering → Outcome
take_seat s w caller req src m gid none = open_own s w caller req src false m
take_seat s w caller req src m gid (some g) =
    let (reserved, done) = reserve_join g m.reservation_ttl caller.pid (w.clock 1) in
    if done
    then finish s w caller req m gid (commit_reserved_join reserved caller.pid (w.clock 2)).0
    else open_own s w caller req src false (put_gathering gid reserved m)

unfoldable pub matchmake_choice :
    Settings → World → Connection → RmcMessage → Session → Store × Option ℕ → Outcome
matchmake_choice s w caller req src (m, none) =
    open_own s w caller req src (contains w.solo_pids caller.pid) m
matchmake_choice s w caller req src (m, some gid) =
    take_seat s w caller req src m gid (find gid m.gatherings)

-- `autoMatchmake` once the request is read. A solo player looks at no gathering.
unfoldable pub auto_matchmake_session :
    Settings → World → Store → Connection → RmcMessage → Session → Outcome
auto_matchmake_session s w m caller req src =
    matchmake_choice s w caller req src (
      if contains w.solo_pids caller.pid
      then (m, none)
      else select_gathering w caller src w.order m)

-- `autoMatchmake`
unfoldable pub auto_matchmake : Settings → World → Store → Connection → RmcMessage → Outcome
auto_matchmake s w m caller req =
    let (src, i) = read_auto_param s (stream req.body) in
    if i.failed
    then reply_only m (extension_error req core_invalid_argument)
    else auto_matchmake_session s w m caller req src

unfoldable pub create_session_of :
    Settings → World → Store → Connection → RmcMessage → Session → Outcome
create_session_of s w m caller req src =
    let (m', g) = create_gathering w m caller src in
    record {
      store = m';
      pushes = notify_participation w.endpoint caller g.participants g.session.gathering.id [];
      reply = some (extension_success req (write_session s g.session));
    }

-- `createSession`; the hook OnFriendSessionCreated, which nothing in the repository sets, is left out.
unfoldable pub create_session : Settings → World → Store → Connection → RmcMessage → Outcome
create_session s w m caller req =
    let (src, i) = read_auto_param s (stream req.body) in
    if i.failed
    then reply_only m (extension_error req core_invalid_argument)
    else create_session_of s w m caller req src

-- `JoinMatchmakeSessionParam`: the gathering's id behind a version and a length.
unfoldable pub join_gid : RmcMessage → ℕ
join_gid req =
    let (_, i) = read_u8 (stream req.body) in
    let (body, j) = read_buffer i in let (gid, k) = read_u32 (stream body) in gid

-- The reply counts the players before the join where the title's switch says so.
abbrev announced : Switches → Gathering → ℕ → Bool → Session
announced switches g existing joined =
    if switches.join_resp_existing_count && joined
    then record (g.session) {
      info = record (g.session.info) { num_participants = existing % 2 ^ 32 };
    }
    else g.session

unfoldable pub joined_outcome :
    Settings
    → Switches
    → World
    → Connection
    → RmcMessage
    → Store
    → ℕ
    → Gathering
    → ℕ
    → Bool
    → Outcome
joined_outcome s switches w caller req m gid g existing joined =
    let g' = count_participants g in
    record {
      store = put_gathering gid g' m;
      pushes = if joined then notify_participation w.endpoint caller g'.participants gid [] else [];
      reply =
          some (extension_success req (write_session s (announced switches g' existing joined)));
    }

-- `joinSession` on the gathering that the id names.
unfoldable pub join_found :
    Settings → Switches → World → Store → Connection → RmcMessage → ℕ → Option Gathering → Outcome
join_found s switches w m caller req gid none = reply_only m (extension_error req session_void)
join_found s switches w m caller req gid (some g) =
    let existing = length g.participants in
    let (reserved, done) = reserve_join g m.reservation_ttl caller.pid (w.clock 0) in
    let (committed, joined) = commit_reserved_join reserved caller.pid (w.clock 1) in
    if contains g.participants caller.pid
    then joined_outcome s switches w caller req m gid g existing false
    else if done
    then joined_outcome s switches w caller req m gid committed existing joined
    else reply_only (put_gathering gid reserved m) (extension_error req session_full)

-- `joinSession`
unfoldable pub join_session :
    Settings → Switches → World → Store → Connection → RmcMessage → Outcome
join_session s switches w m caller req =
    join_found s switches w m caller req (join_gid req) (find (join_gid req) m.gatherings)
