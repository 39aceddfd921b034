-- ===== src/Traversal/Probes.antt =====
-- nextendo-nex/nattraversal.go: the coordination of the probes that open the players' NATs.
use nextendo_mk8d_matchmakin.Base.{
  ℕ, ◌+◌, ◌%◌, ◌^◌, ◌==◌, if◌then◌else◌, Bool, not, ◌&&◌, ◌||◌, Option, none, some, List, [], ◌∷◌,
  ◌++◌,
}
use nextendo_mk8d_matchmakin.Wire.Out.{Bytes, write_u16, write_u32, write_u64, write_string}
use nextendo_mk8d_matchmakin.Wire.In.{stream, read_u32, read_string, read_list}
use nextendo_mk8d_matchmakin.Session.Variant.{bytes_eq}
use nextendo_mk8d_matchmakin.Rmc.{RmcMessage, rmc_request, rmc_success}
use nextendo_mk8d_matchmakin.Endpoint.State.{
  Connection, Endpoint, find_connection_by_id, set_nat_props,
}
use nextendo_mk8d_matchmakin.Matchmaking.Create.{not_implemented}
use nextendo_mk8d_matchmakin.Station.{StationUrl, set_param, get_param, get_int, render}
use nextendo_mk8d_matchmakin.Station.Parse.{set_int, parse_station_url, write_station_url}
use nextendo_mk8d_matchmakin.Traversal.Register.{key_address, key_port, key_rvcid}

abbrev pub protocol_nat_traversal : ℕ
protocol_nat_traversal = 0x03

-- What the repointing reads: whether it is on, the host of the remote address, and the same parameters
-- as the bridge.
pub record ProbeWorld : Type 0 where
  pub repoint_enabled : Bool
  pub remote_host : Bytes
  pub is_private : Bytes → Bool
  pub nat_port : Bytes → Option ℕ
  pub now_date_time : ℕ
  pub endpoint : Endpoint

abbrev pub nat_ack : RmcMessage → RmcMessage
nat_ack req = rmc_success protocol_nat_traversal req.method req.call_id []

-- `relaySignatureKey`: no relay is offered.
unfoldable pub relay_signature_key : ProbeWorld → RmcMessage → RmcMessage
relay_signature_key w req = rmc_success protocol_nat_traversal req.method req.call_id (
    write_u32 0
    ++ (write_u64 w.now_date_time
        ++ (write_string [] ++ (write_u16 0 ++ (write_u32 0 ++ write_u32 0)))))

abbrev pub with_port : StationUrl → Option ℕ → StationUrl
with_port u none = u
with_port u (some port) = set_int u key_port port

-- The station that is pushed: the caller's, repointed to the endpoint that is observed for it.
unfoldable pub probed_station : ProbeWorld → Bytes → Bytes
probed_station w text =
    let u = parse_station_url text in
    let here =
      if bytes_eq (get_param u key_address) w.remote_host
      then u
      else set_param u key_address w.remote_host in
    if w.repoint_enabled && not (w.is_private w.remote_host)
    then render (with_port here (w.nat_port w.remote_host))
    else text

abbrev pub push_to_connection :
    Option Connection → RmcMessage → List (ℕ × RmcMessage) → List (ℕ × RmcMessage)
push_to_connection none message rest = rest
push_to_connection (some target) message rest = (target.id, message) ∷ rest

-- The loop over the targets, by the id of the connection that each request is sent to.
unfoldable pub push_probes : Endpoint → RmcMessage → List Bytes → List (ℕ × RmcMessage)
push_probes e message [] = []
push_probes e message (target ∷ targets) =
    let rvcid = get_int (parse_station_url target) key_rvcid % 2 ^ 32 in
    let rest = push_probes e message targets in
    if rvcid == 0 then rest else push_to_connection (find_connection_by_id e rvcid) message rest

unfoldable pub probe_request : ProbeWorld → RmcMessage → Bytes → RmcMessage
probe_request w req station =
    rmc_request protocol_nat_traversal 0x2 ((0xFFFF0000 + req.call_id) % 2 ^ 32)
      (write_station_url (parse_station_url (probed_station w station)))

-- `pushInitiateProbe`
unfoldable pub push_initiate_probe : ProbeWorld → RmcMessage → List (ℕ × RmcMessage)
push_initiate_probe w req =
    let (targets, i) = read_list read_string (stream req.body) in
    let (station, j) = read_string i in
    if j.failed then [] else push_probes w.endpoint (probe_request w req station) targets

-- `noteNATProperties`
unfoldable pub note_nat_properties : Connection → RmcMessage → Connection
note_nat_properties c req =
    let (nat_map, i) = read_u32 (stream req.body) in
    let (nat_filter, j) = read_u32 i in
    let (rtt, k) = read_u32 j in if k.failed then c else set_nat_props c nat_map nat_filter

-- What a call does: the caller's connection after it, the probes that are pushed, the reply.
pub record Probing : Type 0 where
  pub caller : Connection
  pub pushes : List (ℕ × RmcMessage)
  pub reply : RmcMessage

-- `NATTraversalHandler`; a report of a result is only logged.
unfoldable pub nat_traversal_handler : ProbeWorld → Connection → RmcMessage → Probing
nat_traversal_handler w c req =
    if req.method == 0x3
    then record { caller = c; pushes = push_initiate_probe w req; reply = nat_ack req }
    else if req.method == 0x4 || req.method == 0x7
    then record { caller = c; pushes = []; reply = nat_ack req }
    else if req.method == 0x5
    then record { caller = note_nat_properties c req; pushes = []; reply = nat_ack req }
    else if req.method == 0x6
    then record { caller = c; pushes = []; reply = relay_signature_key w req }
    else if req.method == 0x1 || req.method == 0x2
    then record { caller = c; pushes = []; reply = nat_ack req }
    else record { caller = c; pushes = []; reply = not_implemented protocol_nat_traversal req }
