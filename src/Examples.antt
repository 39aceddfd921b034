-- ===== src/Examples.antt =====
-- Concrete inputs for the tests and examples below: a session, two players behind different NATs, and
-- a store with one gathering.
use nextendo_mk8d_matchmakin.Base.{
  ℕ, Bool, true, false, Option, none, some, List, [], ◌∷◌, ◌+◌, ◌++◌,
}
use nextendo_mk8d_matchmakin.Base.Maps.{Table}
use nextendo_mk8d_matchmakin.Wire.Settings.{Settings, switch_settings}
use nextendo_mk8d_matchmakin.Wire.Out.{Bytes, write_u32}
use nextendo_mk8d_matchmakin.Session.Variant.{boolean, int64, text}
use nextendo_mk8d_matchmakin.Session.Types.{Session, write_auto_param}
use nextendo_mk8d_matchmakin.Rmc.{RmcMessage, rmc_request}
use nextendo_mk8d_matchmakin.Endpoint.State.{Connection, Endpoint, connected}
use nextendo_mk8d_matchmakin.Matchmaking.State.{Gathering, Store, new_matchmaking}
use nextendo_mk8d_matchmakin.Matchmaking.World.{World}
pub mod Codecs
pub mod Calls
pub mod Matching
pub mod Repeats
pub mod Packets
pub mod Players
pub mod Rooms
pub mod Tourneys
pub mod Boards
pub mod Stations
pub mod Server
pub mod Logins
pub mod Links

abbrev pub settings : Settings
settings = switch_settings 40000

abbrev pub session : Session
session = record {
  gathering = record {
    id = 1;
    owner_pid = 100;
    host_pid = 100;
    min_participants = 1;
    max_participants = 2;
    participation_policy = 95;
    policy_argument = 0;
    flags = 512;
    state = 1;
    description = b'h' ∷ b'i' ∷ [];
  };
  info = record {
    game_mode = 3;
    attribs = 1 ∷ 2 ∷ [];
    open_participation = true;
    matchmake_system = 4;
    application_data = 9 ∷ 8 ∷ [];
    num_participants = 1;
    progress_score = 100;
    session_key = 5 ∷ 6 ∷ [];
    option = 0;
    param = (b'a' ∷ [], boolean true) ∷ (b'b' ∷ [], text (b'x' ∷ [])) ∷ [];
    started_time = 77;
    user_password = [];
    refer_gid = 0;
    user_password_enabled = false;
    system_password_enabled = false;
    codeword = b'c' ∷ [];
  };
}

abbrev player : ℕ → ℕ → ℕ → ℕ → Connection
player id pid nat_map nat_filter = record {
  id = id;
  pid = pid;
  cid = 1;
  stations = [];
  nat_map = nat_map;
  nat_filter = nat_filter;
  state = connected;
  last_seen = 1000;
}

-- An open NAT, another one, and a strict one.
abbrev pub alice : Connection
alice = player 1 100 1 1

abbrev pub bob : Connection
bob = player 2 200 1 1

abbrev pub carol : Connection
carol = player 3 300 2 2

abbrev pub endpoint : Endpoint
endpoint = record { connections = (1, alice) ∷ (2, bob) ∷ (3, carol) ∷ []; conn_counter = 3 }

abbrev pub world : World
world = record {
  clock = λ n. 1000 + n;
  random_key = 7 ∷ 7 ∷ [];
  started_time = 77;
  order = 1 ∷ [];
  orders = λ n. 1 ∷ [];
  open_participation_default = true;
  solo_pids = [];
  friend_pids = none;
  endpoint = endpoint;
}

abbrev pub gathering : Gathering
gathering = record {
  session = session;
  participants = 100 ∷ [];
  host_conn_id = 1;
  code = [];
  reservations = [];
}

-- One gathering, of Alice, with a seat left.
abbrev pub store : Store
store = record {
  reservation_ttl = 8_000_000_000;
  notif = (200, []) ∷ [];
  gatherings = (1, gathering) ∷ [];
  by_code = [];
  next_gid = 2;
  code_rand = 0x1234;
}

-- Alice and Bob in it.
abbrev pub full_gathering : Gathering
full_gathering = record gathering { participants = 100 ∷ 200 ∷ [] }

abbrev pub full_store : Store
full_store = record store { gatherings = (1, full_gathering) ∷ [] }

unfoldable pub matchmake_request : RmcMessage
matchmake_request = rmc_request 0x6D 0x28 5 (write_auto_param settings session)

abbrev pub join_request : RmcMessage
join_request = rmc_request 0x6D 0x27 6 (0 ∷ 4 ∷ 0 ∷ 0 ∷ 0 ∷ 1 ∷ 0 ∷ 0 ∷ 0 ∷ [])
