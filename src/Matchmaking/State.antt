-- ===== src/Matchmaking/State.antt =====
-- nextendo-nex/matchmaking_handlers.go: the store. Times are nanoseconds since some moment, as
-- numbers; `now.Before(t)` is `ltb now t`.
use nextendo_mk8d_matchmakin.Base.{ℕ, Bool, false, List, []}
use nextendo_mk8d_matchmakin.Base.Maps.{Table}
use nextendo_mk8d_matchmakin.Wire.Out.{Bytes}
use nextendo_mk8d_matchmakin.Session.Types.{Session}

-- `gathering`. A reservation is its expiry; `participants[0]` is the owner and host.
pub record Gathering : Type 0 where
  pub session : Session
  pub participants : List ℕ
  pub host_conn_id : ℕ
  pub code : Bytes
  pub reservations : Table ℕ

-- nextendo-nex/notification.go, `NotificationEvent`
pub record NotificationEvent : Type 0 where
  pub pid_source : ℕ
  pub type : ℕ
  pub param1 : ℕ
  pub param2 : ℕ
  pub str_param : Bytes
  pub param3 : ℕ

-- `byCode`: room codes to gathering ids, the latest first.
abbrev pub Codes : Type 0
Codes = List (Bytes × ℕ)

-- The switches of `Matchmaking` that a game server sets once, before it serves.
pub record Switches : Type 0 where
  pub find_by_participant_enabled : Bool
  pub session_part_persists : Bool
  pub join_resp_existing_count : Bool

-- `Matchmaking`. The mutex makes each section under the lock one step; `notif` is the data of
-- `notifStore`, by player and type.
pub record Store : Type 0 where
  pub reservation_ttl : ℕ
  pub notif : Table (Table NotificationEvent)
  pub gatherings : Table Gathering
  pub by_code : Codes
  pub next_gid : ℕ
  pub code_rand : ℕ

-- `defaultJoinReservationTTL`
abbrev pub default_join_reservation_ttl : ℕ
default_join_reservation_ttl = 8_000_000_000

-- `NewMatchmaking`
unfoldable pub new_matchmaking : Store
new_matchmaking = record {
  reservation_ttl = default_join_reservation_ttl;
  notif = [];
  gatherings = [];
  by_code = [];
  next_gid = 1;
  code_rand = 0x1234;
}

-- The switches as `NewMatchmaking` leaves them, which the Mario Kart server does not change.
abbrev pub no_switches : Switches
no_switches = record {
  find_by_participant_enabled = false;
  session_part_persists = false;
  join_resp_existing_count = false;
}
