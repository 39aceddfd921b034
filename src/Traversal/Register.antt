-- ===== src/Traversal/Register.antt =====
-- nextendo-nex/secureconnection.go. Whether an address is private is decided by the range checks of
-- Go's `net`, and the remote address is split by `net.SplitHostPort`: the one is a parameter, the other's
-- result is an input.
use nextendo_mk8d_matchmakin.Base.{
  ℕ, suc, ◌==◌, if◌then◌else◌, Bool, true, false, not, ◌&&◌, ◌||◌, Option, none, some, List, [],
  ◌∷◌, ◌++◌,
}
use nextendo_mk8d_matchmakin.Base.Lists.{get_or}
use nextendo_mk8d_matchmakin.Base.Bits.{test_bit}
use nextendo_mk8d_matchmakin.Wire.Out.{Bytes, write_u32, write_string}
use nextendo_mk8d_matchmakin.Wire.In.{stream, read_string, read_list}
use nextendo_mk8d_matchmakin.Session.Variant.{bytes_eq}
use nextendo_mk8d_matchmakin.Rmc.{RmcMessage, rmc_success}
use nextendo_mk8d_matchmakin.Endpoint.State.{Connection}
use nextendo_mk8d_matchmakin.Matchmaking.Create.{not_implemented}
use nextendo_mk8d_matchmakin.Matchmaking.Leave.{is_empty}
use nextendo_mk8d_matchmakin.Station.{StationUrl, set_param, get_param, get_int, render}
use nextendo_mk8d_matchmakin.Station.Parse.{set_int, new_station_url, read_station_url}

abbrev pub protocol_secure_connection : ℕ
protocol_secure_connection = 0x0B

abbrev pub key_address : Bytes
key_address = b'a' ∷ b'd' ∷ b'd' ∷ b'r' ∷ b'e' ∷ b's' ∷ b's' ∷ []

abbrev pub key_port : Bytes
key_port = b'p' ∷ b'o' ∷ b'r' ∷ b't' ∷ []

abbrev pub key_pid : Bytes
key_pid = b'P' ∷ b'I' ∷ b'D' ∷ []

abbrev pub key_rvcid : Bytes
key_rvcid = b'R' ∷ b'V' ∷ b'C' ∷ b'I' ∷ b'D' ∷ []

abbrev pub key_type : Bytes
key_type = b't' ∷ b'y' ∷ b'p' ∷ b'e' ∷ []

abbrev pub key_pa : Bytes
key_pa = b'P' ∷ b'a' ∷ []

-- The fields of `SecureConnectionConfig` that the handler reads.
pub record SecureConfig : Type 0 where
  pub public_station_type : ℕ
  pub set_pa : Bool

-- `SwitchPia519Config` and `LegacyPiaConfig`
abbrev pub switch_pia519_config : SecureConfig
switch_pia519_config = record { public_station_type = 0x0B; set_pa = true }

abbrev pub legacy_pia_config : SecureConfig
legacy_pia_config = record { public_station_type = 0x03; set_pa = false }

abbrev pub first_place : Option ℕ → Option ℕ
first_place none = none
first_place (some i) = some (suc i)

-- Where the first address that passes a test stands.
unfoldable pub place_of : (StationUrl → Bool) → List StationUrl → Option ℕ
place_of test [] = none
place_of test (u ∷ us) =
    let rest = first_place (place_of test us) in if test u then some 0 else rest

abbrev pub is_local : (Bytes → Bool) → StationUrl → Bool
is_local is_private u =
    not (is_empty (get_param u key_address)) && is_private (get_param u key_address)

abbrev pub is_public : (Bytes → Bool) → StationUrl → Bool
is_public is_private u =
    not (is_empty (get_param u key_address)) && not (is_private (get_param u key_address))

-- `uint8(u.GetInt("type"))&StationURLFlagPublic == 0`
abbrev pub not_flagged_public : StationUrl → Bool
not_flagged_public u = not (test_bit 1 (get_int u key_type))

abbrev pub or_place : Option ℕ → Option ℕ → Option ℕ
or_place none otherwise = otherwise
or_place (some i) otherwise = some i

abbrev pub head_place : List StationUrl → Option ℕ
head_place [] = none
head_place (u ∷ us) = some 0

-- `selectStations`, by places: that the local and the public station may be the same object shows in
-- `handleRegister`.
unfoldable pub select_stations : (Bytes → Bool) → List StationUrl → Option ℕ × Option ℕ
select_stations is_private urls = (
  or_place (place_of (is_local is_private) urls)
      (or_place (place_of not_flagged_public urls) (head_place urls)),
  place_of (is_public is_private) urls,
)

unfoldable pub station_at : List StationUrl → Option ℕ → StationUrl
station_at urls none = new_station_url
station_at urls (some i) = get_or urls i new_station_url

-- A copy of the local station that is pointed at the observed endpoint.
unfoldable pub derived_public : StationUrl → Option (Bytes × Bytes) → StationUrl
derived_public u none = u
derived_public u (some (host, port)) = set_param (set_param u key_address host) key_port port

unfoldable pub with_ids : Connection → StationUrl → StationUrl
with_ids c u = set_int (set_int u key_pid c.pid) key_rvcid c.id

-- The type and `Pa` of the public station.
unfoldable pub with_public_shape : SecureConfig → Bytes → StationUrl → StationUrl
with_public_shape cfg pa u =
    let typed = set_int u key_type cfg.public_station_type in
    if cfg.set_pa && not (is_empty pa) then set_param typed key_pa pa else typed

unfoldable pub registered :
    SecureConfig
    → Option (Bytes × Bytes)
    → Connection
    → List StationUrl
    → Option ℕ
    → Option ℕ
    → StationUrl × StationUrl
registered cfg remote c urls local none =
    let mine = with_ids c (station_at urls local) in
    let theirs = with_ids c (derived_public (station_at urls local) remote) in
    (mine, with_public_shape cfg (get_param theirs key_address) theirs)
registered cfg remote c urls local (some j) =
    let mine = with_ids c (station_at urls local) in
    let theirs = with_ids c (station_at urls (some j)) in
    let shaped = with_public_shape cfg (get_param mine key_address) theirs in
    elim local [
      | none ↦ (mine, shaped)
      | some i ↦ if i == j then (shaped, shaped) else (mine, shaped)
    ]

-- The two stations of `handleRegister`.
unfoldable pub register_stations :
    (Bytes → Bool)
    → SecureConfig
    → Option (Bytes × Bytes)
    → Connection
    → List StationUrl
    → StationUrl × StationUrl
register_stations is_private cfg remote c urls =
    let (local, public) = select_stations is_private urls in
    registered cfg remote c urls local public

-- `handleRegister`: the connection after it, and the reply.
unfoldable pub handle_register :
    (Bytes → Bool)
    → SecureConfig
    → Option (Bytes × Bytes)
    → Connection
    → RmcMessage
    → Connection × RmcMessage
handle_register is_private cfg remote c req =
    let (urls, i) = read_list read_station_url (stream req.body) in
    let (local, public) = register_stations is_private cfg remote c urls in
    (
      record c { stations = local ∷ public ∷ [] },
      rmc_success protocol_secure_connection req.method req.call_id
          (write_u32 0x00010001 ++ (write_u32 c.id ++ write_string (render public))),
    )

abbrev pub address_of : StationUrl → Bytes
address_of u = get_param u key_address

-- `byAddr[a] = st`, with `order`
unfoldable pub put_station : StationUrl → List StationUrl → List StationUrl
put_station u [] = u ∷ []
put_station u (v ∷ vs) =
    if bytes_eq (address_of v) (address_of u) then u ∷ vs else v ∷ put_station u vs

-- The loop over the stations.
unfoldable pub by_address : List StationUrl → List StationUrl → List StationUrl
by_address seen [] = seen
by_address seen (u ∷ us) = by_address (put_station u seen) us

-- The stations after a replacement.
unfoldable pub replaced_stations : Connection → StationUrl → List StationUrl
replaced_stations c u = put_station (set_int u key_pid c.pid) (by_address [] c.stations)

-- `handleReplaceURL`
unfoldable pub handle_replace_url : Connection → RmcMessage → Connection × RmcMessage
handle_replace_url c req =
    let (target, i) = read_string (stream req.body) in
    let (u, j) = read_station_url i in
    (
      record c { stations = replaced_stations c u },
      rmc_success protocol_secure_connection req.method req.call_id [],
    )

-- `SecureConnectionHandlerWithConfig`
unfoldable pub secure_connection_handler :
    (Bytes → Bool)
    → SecureConfig
    → Option (Bytes × Bytes)
    → Connection
    → RmcMessage
    → Connection × RmcMessage
secure_connection_handler is_private cfg remote c req =
    if req.method == 0x1 || req.method == 0x4
    then handle_register is_private cfg remote c req
    else if req.method == 0x7
    then handle_replace_url c req
    else (c, not_implemented protocol_secure_connection req)
