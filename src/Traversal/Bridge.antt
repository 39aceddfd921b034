-- ===== src/Traversal/Bridge.antt =====
-- nextendo-nex/natbridge.go, and `getSessionURLs` of nextendo-nex/matchmaking_handlers.go. The port that
-- was observed for a public address comes from a file that another process writes: a parameter.
use nextendo_mk8d_matchmakin.Base.{
  ℕ, ◌==◌, if◌then◌else◌, Bool, true, false, ◌||◌, Option, none, some, List, [], ◌∷◌,
}
use nextendo_mk8d_matchmakin.Base.Maps.{find}
use nextendo_mk8d_matchmakin.Wire.Out.{Bytes, write_list}
use nextendo_mk8d_matchmakin.Session.Variant.{bytes_eq}
use nextendo_mk8d_matchmakin.Rmc.{RmcMessage, rmc_success}
use nextendo_mk8d_matchmakin.Endpoint.State.{Connection, Endpoint, find_connection_by_id}
use nextendo_mk8d_matchmakin.Matchmaking.State.{Gathering, Store}
use nextendo_mk8d_matchmakin.Matchmaking.Create.{protocol_match_making}
use nextendo_mk8d_matchmakin.Matchmaking.Leave.{request_gid, is_empty}
use nextendo_mk8d_matchmakin.Station.{StationUrl, set_param, get_param, get_int, remove_param}
use nextendo_mk8d_matchmakin.Station.Parse.{set_int, write_station_url}
use nextendo_mk8d_matchmakin.Traversal.Register.{
  key_address, key_port, key_rvcid, key_type, key_pa, select_stations, station_at,
}

-- `bridgeStatus`
pub data BridgeStatus : Type 0 where
  bridge_ok bridge_no_stations bridge_no_observation bridge_no_rvcid : BridgeStatus

-- The station of the private address, with the observed port and without the marks of a public one.
unfoldable pub lan_candidate : StationUrl → ℕ → StationUrl
lan_candidate local port = remove_param (remove_param (set_int local key_port port) key_type) key_pa

unfoldable pub public_candidate : StationUrl → ℕ → Bytes → StationUrl
public_candidate public port pa =
    set_param (set_int (set_int public key_port port) key_type 11) key_pa pa

unfoldable pub bridge_observed :
    List StationUrl → StationUrl → StationUrl → Bool → Option ℕ → List StationUrl × BridgeStatus
bridge_observed urls local public public_first none = (urls, bridge_no_observation)
bridge_observed urls local public public_first (some port) =
    let lan = lan_candidate local port in
    let pa = get_param (if public_first then public else local) key_address in
    let pub_station = public_candidate public port pa in
    if get_int local key_rvcid == 0
    then (urls, bridge_no_rvcid)
    else ((if public_first then pub_station ∷ lan ∷ [] else lan ∷ pub_station ∷ []), bridge_ok)

unfoldable pub bridge_pair :
    (Bytes → Option ℕ)
    → List StationUrl
    → Bool
    → StationUrl
    → StationUrl
    → List StationUrl × BridgeStatus
bridge_pair nat_port urls public_first local public =
    let public_addr = get_param public key_address in
    let private_addr = get_param local key_address in
    if is_empty public_addr || is_empty private_addr || bytes_eq public_addr private_addr
    then (urls, bridge_no_stations)
    else bridge_observed urls local public public_first (nat_port public_addr)

unfoldable pub bridge_selected :
    (Bytes → Option ℕ)
    → List StationUrl
    → Bool
    → Option ℕ
    → Option ℕ
    → List StationUrl × BridgeStatus
bridge_selected nat_port urls public_first (some i) (some j) =
    bridge_pair nat_port urls public_first (station_at urls (some i)) (station_at urls (some j))
bridge_selected nat_port urls public_first none _ = (urls, bridge_no_stations)
bridge_selected nat_port urls public_first (some i) none = (urls, bridge_no_stations)

-- `natBridgeStations`
unfoldable pub nat_bridge_stations :
    (Bytes → Bool) → (Bytes → Option ℕ) → List StationUrl → Bool → List StationUrl × BridgeStatus
nat_bridge_stations is_private nat_port urls public_first =
    let (local, public) = select_stations is_private urls in
    bridge_selected nat_port urls public_first local public

-- `sessionURLsResponse`
unfoldable pub session_urls_response : RmcMessage → List StationUrl → RmcMessage
session_urls_response req urls =
    rmc_success protocol_match_making req.method req.call_id (write_list write_station_url urls)

abbrev pub is_no_rvcid : BridgeStatus → Bool
is_no_rvcid bridge_no_rvcid = true
is_no_rvcid _ = false

abbrev pub is_bridged : BridgeStatus → Bool
is_bridged bridge_ok = true
is_bridged _ = false

abbrev pub host_of : Endpoint → Option Gathering → Option Connection
host_of e none = none
host_of e (some g) = find_connection_by_id e g.host_conn_id

unfoldable pub urls_of_host :
    (Bytes → Bool) → (Bytes → Option ℕ) → Bool → RmcMessage → Option Connection → Option RmcMessage
urls_of_host is_private nat_port public_first req none = some (session_urls_response req [])
urls_of_host is_private nat_port public_first req (some host) =
    let (urls, status) = nat_bridge_stations is_private nat_port host.stations public_first in
    if is_no_rvcid status then none else some (session_urls_response req urls)

-- `getSessionURLs`; `none` where the answer is left to the wait below.
unfoldable pub get_session_urls :
    (Bytes → Bool) → (Bytes → Option ℕ) → Bool → Endpoint → Store → RmcMessage → Option RmcMessage
get_session_urls is_private nat_port public_first e m req =
    urls_of_host is_private nat_port public_first req
      (host_of e (find (request_gid req) m.gatherings))

-- `answerSessionURLsWhenHostIsReady`: the host's stations at each poll before the deadline, and at the
-- end. The one answer that is sent.
unfoldable pub answer_when_ready :
    (Bytes → Bool)
    → (Bytes → Option ℕ)
    → Bool
    → RmcMessage
    → List (List StationUrl)
    → List StationUrl
    → RmcMessage
answer_when_ready is_private nat_port public_first req [] last = session_urls_response req last
answer_when_ready is_private nat_port public_first req (stations ∷ polls) last =
    let rest = answer_when_ready is_private nat_port public_first req polls last in
    let (urls, status) = nat_bridge_stations is_private nat_port stations public_first in
    if is_bridged status then session_urls_response req urls else rest
