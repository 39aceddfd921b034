-- ===== src/Matchmaking/Queries.antt =====
-- nextendo-nex/matchmaking_handlers.go and matchmaking_acnh.go: the calls that look gatherings up and
-- leave the store as it is.
use nextendo_mk8d_matchmakin.Base.{
  ℕ, suc, ◌+◌, ◌*◌, ◌%◌, ◌==◌, ltb, leb, if◌then◌else◌, Bool, true, false, not, ◌&&◌, ◌||◌, Option,
  none, some, List, [], ◌∷◌, ◌++◌,
}
use nextendo_mk8d_matchmakin.Base.Lists.{length, contains, get_or}
use nextendo_mk8d_matchmakin.Base.Maps.{find}
use nextendo_mk8d_matchmakin.Wire.Settings.{Settings}
use nextendo_mk8d_matchmakin.Wire.Out.{
  Bytes, write_u32, write_pid, write_bool, write_list, write_level,
}
use nextendo_mk8d_matchmakin.Wire.In.{
  Reader, ◌>>=◌, give, stream, read_u32, read_pid, read_bool, read_list, read_level,
}
use nextendo_mk8d_matchmakin.Session.Variant.{bytes_eq}
use nextendo_mk8d_matchmakin.Session.Types.{Session, write_session}
use nextendo_mk8d_matchmakin.Rmc.{RmcMessage, rmc_success, session_void}
use nextendo_mk8d_matchmakin.Endpoint.State.{Connection}
use nextendo_mk8d_matchmakin.Matchmaking.State.{Gathering, Store}
use nextendo_mk8d_matchmakin.Matchmaking.World.{World}
use nextendo_mk8d_matchmakin.Matchmaking.Create.{
  extension_success, extension_error, bool_response, protocol_match_making,
}
use nextendo_mk8d_matchmakin.Matchmaking.Leave.{request_gid, is_empty}
use nextendo_mk8d_matchmakin.Matchmaking.Criteria.{read_criteria, read_by_participant_param}

-- `r.SessionKey = nil` and `r.UserPassword = ""` on a copy
abbrev pub without_key : Session → Session
without_key r = record r { info = record (r.info) { session_key = [] } }

abbrev pub without_password : Session → Session
without_password r = record r { info = record (r.info) { user_password = [] } }

unfoldable pub single_found : Settings → RmcMessage → Option Gathering → RmcMessage
single_found s req none = extension_error req session_void
single_found s req (some g) =
    extension_success req (write_session s (without_password (without_key g.session)))

-- `findBySingleID`
unfoldable pub find_by_single_id : Settings → Store → RmcMessage → RmcMessage
find_by_single_id s m req = single_found s req (find (request_gid req) m.gatherings)

abbrev pub found_session : Option Gathering → List Session → List Session
found_session none rest = rest
found_session (some g) rest = without_password (without_key g.session) ∷ rest

-- The loop of `findByGidList`.
unfoldable pub sessions_by_gid : Store → List ℕ → List Session
sessions_by_gid m [] = []
sessions_by_gid m (gid ∷ gids) = found_session (find gid m.gatherings) (sessions_by_gid m gids)

-- `findByGidList`
unfoldable pub find_by_gid_list : Settings → Store → RmcMessage → RmcMessage
find_by_gid_list s m req =
    let (gids, i) = read_list read_u32 (stream req.body) in
    extension_success req (write_list (write_session s) (sessions_by_gid m gids))

-- The code that a search asks for: none where the body is empty or does not parse.
unfoldable pub wanted_code : Settings → Bytes → Bytes
wanted_code s body =
    let (criteria, i) = read_criteria s (stream body) in
    if is_empty body || i.failed then [] else criteria.newer_fields.codeword

-- The `continue`s of the loop in `browseNoHolder`, negated.
unfoldable pub is_listed : Bytes → Gathering → Bool
is_listed want g =
    g.session.info.open_participation
    && (if is_empty want
        then not g.session.info.user_password_enabled
        else bytes_eq g.session.info.codeword want || bytes_eq g.code want)

-- The copy that a search shows.
unfoldable pub shown_session : Bytes → Session → Session
shown_session want r = without_password (if is_empty want then without_key r else r)

abbrev pub browse_one : Bytes → Option Gathering → List Session → List Session
browse_one want none rest = rest
browse_one want (some g) rest =
    if is_listed want g then shown_session want g.session ∷ rest else rest

-- The loop of `browseNoHolder`.
unfoldable pub browse_sessions : Bytes → Store → List ℕ → List Session
browse_sessions want m [] = []
browse_sessions want m (gid ∷ gids) =
    browse_one want (find gid m.gatherings) (browse_sessions want m gids)

-- `browseNoHolder`
unfoldable pub browse_no_holder : Settings → World → Store → RmcMessage → RmcMessage
browse_no_holder s w m req =
    extension_success req
      (write_list (write_session s) (browse_sessions (wanted_code s req.body) m w.order))

abbrev pub single15_body : Settings → Option Gathering → Bytes
single15_body s none = write_bool false
single15_body s (some g) = write_bool true ++ write_session s g.session

-- `findBySingleID15`: the session as it is stored.
unfoldable pub find_by_single_id15 : Settings → Store → RmcMessage → RmcMessage
find_by_single_id15 s m req =
    rmc_success protocol_match_making req.method req.call_id
      (single15_body s (find (request_gid req) m.gatherings))

-- `SimplePlayingSession`
pub record PlayingSession : Type 0 where
  pub principal_id : ℕ
  pub gathering_id : ℕ
  pub game_mode : ℕ
  pub attribute0 : ℕ

-- `SimplePlayingSession.Levels`
unfoldable pub write_playing : Settings → PlayingSession → Bytes
write_playing s p = write_level s 0 (
    write_pid s p.principal_id
    ++ (write_u32 p.gathering_id ++ (write_u32 p.game_mode ++ write_u32 p.attribute0)))

unfoldable pub read_playing : Settings → Reader PlayingSession
read_playing s = read_level s do
  principal_id ← read_pid s
  gathering_id ← read_u32
  game_mode ← read_u32
  attribute0 ← read_u32
  give (record {
    principal_id = principal_id;
    gathering_id = gathering_id;
    game_mode = game_mode;
    attribute0 = attribute0;
  })

unfoldable pub takes_part : Option Gathering → ℕ → Bool
takes_part none pid = false
takes_part (some g) pid = contains g.participants pid

-- Where the loops that look for a player's gathering stop: the first id, in the runtime's order, of
-- a gathering that the player takes part in.
unfoldable pub first_with : Store → ℕ → List ℕ → Option ℕ
first_with m pid [] = none
first_with m pid (gid ∷ gids) =
    let rest = first_with m pid gids in
    if takes_part (find gid m.gatherings) pid then some gid else rest

playing_in : ℕ → ℕ → Option Gathering → List PlayingSession
playing_in pid gid none = []
playing_in pid gid (some g) =
    record {
      principal_id = pid;
      gathering_id = gid;
      game_mode = g.session.info.game_mode;
      attribute0 = get_or g.session.info.attribs 0 0;
    }
    ∷ []

playing_at : Store → ℕ → Option ℕ → List PlayingSession
unfolding playing_in
playing_at m pid none = []
playing_at m pid (some gid) = playing_in pid gid (find gid m.gatherings)

-- The loops of `playingSession`; the nth player is looked up in the nth order.
unfoldable pub playing_sessions : Store → (ℕ → List ℕ) → ℕ → Bool → ℕ → List ℕ → List PlayingSession
unfolding playing_at
playing_sessions m orders caller include_self n [] = []
playing_sessions m orders caller include_self n (pid ∷ pids) =
    let rest = playing_sessions m orders caller include_self (suc n) pids in
    if pid == caller && not include_self
    then rest
    else playing_at m pid (first_with m pid (orders n)) ++ rest

-- `playingSession`
unfoldable pub playing_session : Settings → World → Store → Connection → RmcMessage → RmcMessage
playing_session s w m caller req =
    let (pids, i) = read_list (read_pid s) (stream req.body) in
    let (include_self, j) = read_bool i in
    extension_success req
      (write_list (write_playing s) (playing_sessions m w.orders caller.pid include_self 0 pids))

-- `best` of `sessionOfParticipant` after one more gathering.
unfoldable pub later_of : ℕ → Option Gathering → Option Gathering → Option Gathering
later_of pid none best = best
later_of pid (some g) none = if contains g.participants pid then some g else none
later_of pid (some g) (some best) =
    if contains g.participants pid && ltb best.session.info.started_time g.session.info.started_time
    then some g
    else some best

-- The loop of `sessionOfParticipant`.
unfoldable pub latest_from : Store → ℕ → Option Gathering → List ℕ → Option Gathering
latest_from m pid best [] = best
latest_from m pid best (gid ∷ gids) =
    latest_from m pid (later_of pid (find gid m.gatherings) best) gids

-- `sessionOfParticipant`
unfoldable pub session_of_participant : Store → ℕ → List ℕ → Option Gathering
session_of_participant m pid order = latest_from m pid none order

-- `FindMatchmakeSessionByParticipantResult`
abbrev pub ParticipantResult : Type 0
ParticipantResult = ℕ × Session

-- `FindMatchmakeSessionByParticipantResult.Levels`, saving
unfoldable pub write_participant_result : Settings → ParticipantResult → Bytes
write_participant_result s r = write_level s 0 (write_pid s r.0 ++ write_session s r.1)

abbrev pub participant_result :
    ℕ → Option Gathering → List ParticipantResult → List ParticipantResult
participant_result pid none rest = rest
participant_result pid (some g) rest = (pid, without_password g.session) ∷ rest

-- The loop of `findByParticipant`.
unfoldable pub participant_results : Store → (ℕ → List ℕ) → ℕ → List ℕ → List ParticipantResult
participant_results m orders n [] = []
participant_results m orders n (pid ∷ pids) =
    participant_result pid (session_of_participant m pid (orders n))
      (participant_results m orders (suc n) pids)

-- `findByParticipant`
unfoldable pub find_by_participant : Settings → World → Store → RmcMessage → RmcMessage
find_by_participant s w m req =
    let (param, i) = read_by_participant_param s (stream req.body) in
    extension_success req (
      write_list (write_participant_result s)
        (participant_results m w.orders 0 param.principal_ids))

-- `updateGatheringOwnership` only answers.
abbrev pub update_gathering_ownership : RmcMessage → RmcMessage
update_gathering_ownership req = bool_response protocol_match_making req true

-- `GatheringIDByPID` and `SessionByPID`
unfoldable pub gathering_id_by_pid : Store → ℕ → List ℕ → Option ℕ
gathering_id_by_pid m pid [] = none
gathering_id_by_pid m pid (gid ∷ gids) =
    let rest = gathering_id_by_pid m pid gids in
    elim (find gid m.gatherings) [
      | none ↦ rest
      | some g ↦ if contains g.participants pid then some (g.session.gathering.id) else rest
    ]

unfoldable pub session_by_pid : Store → ℕ → List ℕ → List ℕ
session_by_pid m pid [] = []
session_by_pid m pid (gid ∷ gids) =
    let rest = session_by_pid m pid gids in
    elim (find gid m.gatherings) [
      | none ↦ rest
      | some g ↦ if contains g.participants pid then g.participants else rest
    ]

-- `isTournamentIDList`: a count of at most 4096, and as many ids of four bytes.
unfoldable pub is_tournament_id_list : Bytes → Bool
is_tournament_id_list body =
    let n = (read_u32 (stream body)).0 in
    not (ltb (length body) 8)
    && (length body % 4 == 0)
    && ltb 0 n
    && leb n 4096
    && (n * 4 + 4 == length body)
