-- ===== src/Endpoint/State.antt =====
-- nextendo-nex/endpoint.go: Connection, Endpoint and the registry, with `IdleFor` and the evictions
-- of nextendo-nex/reaper.go. A connection is stored under its id, and that entry stands for the
-- object that the source shares. Times are nanoseconds; a `last_seen` of 0 is a handshake that is
-- still going on.
use nextendo_mk8d_matchmakin.Base.{
  ℕ, ◌+◌, ◌-◌, ◌%◌, ◌^◌, ◌==◌, ltb, leb, if◌then◌else◌, Bool, true, false, not, ◌&&◌, ◌||◌, Option,
  none, some, List, [], ◌∷◌,
}
use nextendo_mk8d_matchmakin.Base.Maps.{Table, find, insert, erase}
use nextendo_mk8d_matchmakin.Wire.Out.{Bytes}
use nextendo_mk8d_matchmakin.Station.{StationUrl, get_int}

pub data ConnectionState : Type 0 where
  connecting connected closed : ConnectionState

pub record Connection : Type 0 where
  pub id : ℕ
  pub pid : ℕ
  pub cid : ℕ
  pub stations : List StationUrl
  pub nat_map : ℕ
  pub nat_filter : ℕ
  pub state : ConnectionState
  pub last_seen : ℕ

pub record Endpoint : Type 0 where
  pub connections : Table Connection
  pub conn_counter : ℕ

-- `registerConnection`: the counter is a uint32.
unfoldable pub register_connection : Endpoint → Connection → Endpoint × Connection
register_connection e c =
    let id = (e.conn_counter + 1) % 2 ^ 32 in
    let c' = record c { id = id } in
    (record { connections = insert id c' e.connections; conn_counter = id }, c')

-- `unregisterConnection`
unfoldable pub unregister_connection : Endpoint → Connection → Endpoint
unregister_connection e c =
    if c.id == 0 then e else record e { connections = erase c.id e.connections }

-- `FindConnectionByID`
abbrev pub find_connection_by_id : Endpoint → ℕ → Option Connection
find_connection_by_id e id = find id e.connections

-- The loop of `FindConnectionByPID`: `newest` is the best so far.
abbrev pub newer : Connection → Option Connection → Option Connection
newer c none = some c
newer c (some best) = if ltb best.id c.id then some c else some best

unfoldable pub scan_for_pid : ℕ → Option Connection → Table Connection → Option Connection
scan_for_pid pid newest [] = newest
scan_for_pid pid newest ((k, c) ∷ m) =
    scan_for_pid pid (if c.pid == pid then newer c newest else newest) m

-- `FindConnectionByPID`
unfoldable pub find_connection_by_pid : Endpoint → ℕ → Option Connection
find_connection_by_pid e pid = scan_for_pid pid none e.connections

-- `SetNATProps`
unfoldable pub set_nat_props : Connection → ℕ → ℕ → Connection
set_nat_props c nat_map nat_filter = record c { nat_map = nat_map; nat_filter = nat_filter }

abbrev natm : Bytes
natm = b'n' ∷ b'a' ∷ b't' ∷ b'm' ∷ []

abbrev natf : Bytes
natf = b'n' ∷ b'a' ∷ b't' ∷ b'f' ∷ []

-- The loop over the stations in `NATBehaviour`.
unfoldable pub station_nat : List StationUrl → ℕ × ℕ
station_nat [] = (0, 0)
station_nat (u ∷ us) =
    if not (get_int u natm == 0) || not (get_int u natf == 0)
    then (get_int u natm % 2 ^ 32, get_int u natf % 2 ^ 32)
    else station_nat us

-- `NATBehaviour`
unfoldable pub nat_behaviour : Connection → ℕ × ℕ
nat_behaviour c =
    if c.nat_map == 0
    then (if c.nat_filter == 0 then station_nat c.stations else (0, c.nat_filter))
    else (c.nat_map, c.nat_filter)

abbrev pub is_closed : ConnectionState → Bool
is_closed closed = true
is_closed _ = false

-- `close`: what is closed stays as it is; else the connection leaves the registry. The last part
-- says whether the endpoint's OnDisconnect is called.
unfoldable pub close : Endpoint → Connection → Endpoint × Connection × Bool
close e c =
    if is_closed c.state
    then (e, c, false)
    else (unregister_connection e c, record c { state = closed }, true)

-- `IdleFor` at a given time
unfoldable pub idle_for : Connection → ℕ → ℕ
idle_for c now = if c.last_seen == 0 then 0 else now - c.last_seen

-- The condition of `ReapIdle`.
unfoldable pub is_idle : ℕ → ℕ → Connection → Bool
is_idle max_idle now c = ltb 0 (idle_for c now) && leb max_idle (idle_for c now)

abbrev pub values : Table Connection → List Connection
values [] = []
values ((k, c) ∷ m) = c ∷ values m

-- The loops of `ReapIdle` and `KickPID` over the snapshot: the connections that pass the test are
-- closed. The list has those for which OnDisconnect was called; the count has them all.
unfoldable pub close_where :
    (Connection → Bool) → Endpoint → List Connection → Endpoint × List Connection × ℕ
close_where test e [] = (e, [], 0)
close_where test e (c ∷ cs) =
    let (e', c', told) = close e c in
    let (e1, gone1, n1) = close_where test e' cs in
    let (e0, gone0, n0) = close_where test e cs in
    if test c then (e1, (if told then c' ∷ gone1 else gone1), n1 + 1) else (e0, gone0, n0)

-- `ReapIdle`; a zero duration turns it off.
unfoldable pub reap_idle : Endpoint → ℕ → ℕ → Endpoint × List Connection × ℕ
reap_idle e max_idle now =
    if max_idle == 0
    then (e, [], 0)
    else close_where (is_idle max_idle now) e (values e.connections)

-- `KickPID`
unfoldable pub kick_pid : Endpoint → ℕ → Endpoint × List Connection × ℕ
kick_pid e pid =
    if pid == 0 then (e, [], 0) else close_where (λ c. c.pid == pid) e (values e.connections)
