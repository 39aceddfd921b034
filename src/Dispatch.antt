-- ===== src/Dispatch.antt =====
-- nextendo-nex/matchmaking_handlers.go: the handlers of the three matchmaking protocols, which choose
-- a call by its method number.
use nextendo_mk8d_matchmakin.Base.{
  ℕ, ◌==◌, if◌then◌else◌, Bool, true, false, ◌||◌, Option, none, some, List, [], ◌∷◌,
}
use nextendo_mk8d_matchmakin.Wire.Settings.{Settings}
use nextendo_mk8d_matchmakin.Wire.Out.{Bytes, write_u32}
use nextendo_mk8d_matchmakin.Rmc.{RmcMessage, rmc_success}
use nextendo_mk8d_matchmakin.Endpoint.State.{Connection}
use nextendo_mk8d_matchmakin.Matchmaking.State.{NotificationEvent, Store, Switches}
use nextendo_mk8d_matchmakin.Matchmaking.World.{World, Outcome}
use nextendo_mk8d_matchmakin.Matchmaking.Create.{
  reply_only, extension_success, bool_response, empty_list, not_implemented, protocol_match_making,
  protocol_matchmake_extension, protocol_match_making_ext,
}
use nextendo_mk8d_matchmakin.Matchmaking.Join.{auto_matchmake, create_session, join_session}
use nextendo_mk8d_matchmakin.Matchmaking.Leave.{unregister_gathering, end_participation_call}
use nextendo_mk8d_matchmakin.Matchmaking.Update.{
  set_participation, update_application_buffer, modify_current_game_attribute,
  migrate_gathering_ownership,
}
use nextendo_mk8d_matchmakin.Matchmaking.SessionPart.{update_session_part}
use nextendo_mk8d_matchmakin.Matchmaking.Queries.{
  find_by_single_id, find_by_single_id15, find_by_gid_list, browse_no_holder, playing_session,
  find_by_participant, update_gathering_ownership, is_tournament_id_list,
}
use nextendo_mk8d_matchmakin.Matchmaking.Codes.{private_room_create, resolve_code}
use nextendo_mk8d_matchmakin.Matchmaking.NotifData.{
  update_notification_data, get_friend_notification_data,
}
use nextendo_mk8d_matchmakin.Tournament.Store.{Tournaments, Draw}
use nextendo_mk8d_matchmakin.Tournament.Handlers.{
  create_tournament, tournaments_by_ids, search_tournaments, remove_tournament, register_tournament,
}
use nextendo_mk8d_matchmakin.Traversal.Bridge.{get_session_urls}
pub mod Rules
pub mod Labels
pub mod Effects

-- What the handlers read besides the stores and the request: `tournament_order` is the order in which
-- the runtime ranges over the tournaments' ids, `fuel` bounds the loop of one call.
pub record Site : Type 0 where
  pub settings : Settings
  pub switches : Switches
  pub world : World
  pub draw : Draw
  pub tournament_order : List ℕ
  pub is_private : Bytes → Bool
  pub nat_port : Bytes → Option ℕ
  pub public_station_first : Bool
  pub fuel : ℕ

-- The two stores that the handlers change, what they push and what they reply.
pub record Served : Type 0 where
  pub store : Store
  pub tournaments : Tournaments
  pub pushes : List (ℕ × NotificationEvent)
  pub reply : Option RmcMessage

-- The cases of the switch in `ExtensionHandler`.
pub data ExtensionMethod : Type 0 where
  closes opens auto_matchmakes creates joins finds_single creates_room resolves_code :
      ExtensionMethod
  asks_playing finds_participant asks_friends publishes gets_friend_data : ExtensionMethod
  gets_friend_data_list updates_part updates_buffer modifies_attribute : ExtensionMethod
  finds_gids browses probes searches_tournaments creates_tournament : ExtensionMethod
  deletes_tournament joins_tournament updates_score unknown : ExtensionMethod

-- The numbers of the methods, in the switch's order.
unfoldable pub extension_calls : List (ℕ × ExtensionMethod)
extension_calls =
    (0x01, closes)
    ∷ (0x02, opens)
    ∷ (0x28, auto_matchmakes)
    ∷ (0x26, creates)
    ∷ (0x27, joins)
    ∷ (0x31, finds_single)
    ∷ (0x44, creates_room)
    ∷ (0x45, resolves_code)
    ∷ (0x3C, asks_playing)
    ∷ (0x33, finds_participant)
    ∷ (0x41, asks_friends)
    ∷ (9, publishes)
    ∷ (10, gets_friend_data)
    ∷ (13, gets_friend_data_list)
    ∷ (0x2C, updates_part)
    ∷ (0x0B, updates_buffer)
    ∷ (0x08, modifies_attribute)
    ∷ (0x37, creates_room)
    ∷ (0x38, resolves_code)
    ∷ (0x30, finds_gids)
    ∷ (0x34, browses)
    ∷ (0x3A, probes)
    ∷ (0x39, searches_tournaments)
    ∷ (0x3D, creates_tournament)
    ∷ (0x3E, deletes_tournament)
    ∷ (0x3F, joins_tournament)
    ∷ (0x22, updates_score)
    ∷ []

unfoldable pub method_in : List (ℕ × ExtensionMethod) → ℕ → ExtensionMethod
method_in [] n = unknown
method_in ((k, method) ∷ ms) n = if k == n then method else method_in ms n

abbrev pub served : Tournaments → Outcome → Served
served ts o = record { store = o.store; tournaments = ts; pushes = o.pushes; reply = o.reply }

abbrev pub if_returned : Tournaments → Option Outcome → Option Served
if_returned ts none = none
if_returned ts (some o) = some (served ts o)

-- A reply that leaves the stores.
abbrev pub only_reply : Store → Tournaments → RmcMessage → Option Served
only_reply m ts r = some (served ts (reply_only m r))

abbrev pub tournament_reply : Store → Tournaments × RmcMessage → Option Served
tournament_reply m (ts, r) = some (served ts (reply_only m r))

-- The call of each case; `none` where its loop has not ended with the fuel.
unfoldable pub serve_extension :
    ExtensionMethod → Site → Store → Tournaments → Connection → RmcMessage → Option Served
serve_extension closes h m ts c r = some (served ts (set_participation m r false))
serve_extension opens h m ts c r = some (served ts (set_participation m r true))
serve_extension auto_matchmakes h m ts c r =
    some (served ts (auto_matchmake h.settings h.world m c r))
serve_extension creates h m ts c r = some (served ts (create_session h.settings h.world m c r))
serve_extension joins h m ts c r =
    some (served ts (join_session h.settings h.switches h.world m c r))
serve_extension finds_single h m ts c r = only_reply m ts (find_by_single_id h.settings m r)
serve_extension creates_room h m ts c r = some (served ts (private_room_create m r))
serve_extension resolves_code h m ts c r = only_reply m ts (resolve_code m r)
serve_extension asks_playing h m ts c r = only_reply m ts (playing_session h.settings h.world m c r)
serve_extension finds_participant h m ts c r = only_reply m ts (
    if h.switches.find_by_participant_enabled
    then find_by_participant h.settings h.world m r
    else empty_list protocol_matchmake_extension r)
serve_extension asks_friends h m ts c r =
    only_reply m ts (empty_list protocol_matchmake_extension r)
serve_extension publishes h m ts c r =
    some (served ts (update_notification_data h.settings h.world m c r))
serve_extension gets_friend_data h m ts c r =
    some (served ts (get_friend_notification_data h.settings h.world m c r false))
serve_extension gets_friend_data_list h m ts c r =
    some (served ts (get_friend_notification_data h.settings h.world m c r true))
serve_extension updates_part h m ts c r =
    some (served ts (update_session_part h.settings h.switches m r))
serve_extension updates_buffer h m ts c r = some (served ts (update_application_buffer m c r))
serve_extension modifies_attribute h m ts c r =
    if_returned ts (modify_current_game_attribute h.fuel m c r)
serve_extension finds_gids h m ts c r = only_reply m ts (find_by_gid_list h.settings m r)
serve_extension browses h m ts c r = only_reply m ts (browse_no_holder h.settings h.world m r)
serve_extension probes h m ts c r = only_reply m ts (
    if is_tournament_id_list r.body
    then tournaments_by_ids ts r
    else extension_success r (write_u32 2))
serve_extension searches_tournaments h m ts c r =
    only_reply m ts (search_tournaments ts h.tournament_order r)
serve_extension creates_tournament h m ts c r = tournament_reply m (create_tournament ts h.draw c r)
serve_extension deletes_tournament h m ts c r = tournament_reply m (remove_tournament ts c r)
serve_extension joins_tournament h m ts c r = tournament_reply m (register_tournament ts c r)
serve_extension updates_score h m ts c r = only_reply m ts (extension_success r [])
serve_extension unknown h m ts c r =
    only_reply m ts (not_implemented protocol_matchmake_extension r)

-- `ExtensionHandler`
unfoldable pub extension_handler :
    Site → Store → Tournaments → Connection → RmcMessage → Option Served
extension_handler h m ts c r = serve_extension (method_in extension_calls r.method) h m ts c r

abbrev pub urls_reply : Store → Option RmcMessage → Outcome
urls_reply m reply = record { store = m; pushes = []; reply = reply }

-- `MatchMakingHandler`; a reply is missing where the call for a session's addresses waits for the host.
unfoldable pub match_making_handler : Site → Store → Connection → RmcMessage → Outcome
match_making_handler h m c r =
    if r.method == 0x29
    then urls_reply m
        (get_session_urls h.is_private h.nat_port h.public_station_first h.world.endpoint m r)
    else if r.method == 0x02
    then unregister_gathering m c r
    else if r.method == 0x1B
    then reply_only m (bool_response protocol_match_making r true)
    else if r.method == 0x2A || r.method == 0x28
    then reply_only m (rmc_success protocol_match_making r.method r.call_id [])
    else if r.method == 0x2C || r.method == 0x24
    then migrate_gathering_ownership h.settings h.world m c r
    else if r.method == 0x2B
    then reply_only m (update_gathering_ownership r)
    else if r.method == 0x15
    then reply_only m (find_by_single_id15 h.settings m r)
    else reply_only m (not_implemented protocol_match_making r)

-- `MatchMakingExtHandler`
unfoldable pub match_making_ext_handler : Store → Connection → RmcMessage → Outcome
match_making_ext_handler m c r =
    if r.method == 0x1
    then end_participation_call m c r
    else reply_only m (not_implemented protocol_match_making_ext r)
