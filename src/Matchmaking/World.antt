-- ===== src/Matchmaking/World.antt =====
-- What a matchmaking handler is given besides the store, and what it does besides changing it: the
-- pushes of nextendo-nex/notification.go and the reply.
use nextendo_mk8d_matchmakin.Base.{
  ℕ, ◌==◌, if◌then◌else◌, Bool, Option, none, some, List, [], ◌∷◌, ◌++◌, ◌+◌, ◌%◌, ◌^◌,
}
use nextendo_mk8d_matchmakin.Base.Lists.{length}
use nextendo_mk8d_matchmakin.Wire.Settings.{Settings}
use nextendo_mk8d_matchmakin.Wire.Out.{
  Bytes, write_u32, write_u64, write_pid, write_string, write_level,
}
use nextendo_mk8d_matchmakin.Rmc.{RmcMessage, rmc_request}
use nextendo_mk8d_matchmakin.Endpoint.State.{Connection, Endpoint, find_connection_by_pid}
use nextendo_mk8d_matchmakin.Matchmaking.State.{Store, NotificationEvent}

-- `NotificationParticipate`
abbrev pub notification_participate : ℕ
notification_participate = 3001

-- `NotificationEvent.Levels`, saving
unfoldable pub write_event : Settings → NotificationEvent → Bytes
write_event s n = write_level s 0 (
    write_pid s n.pid_source
    ++ (write_u32 n.type
        ++ (write_u64 n.param1
            ++ (write_u64 n.param2 ++ (write_string n.str_param ++ write_u64 n.param3)))))

-- The request that `SendNotification` sends as the `count`th of the process.
unfoldable pub notification_request : Settings → NotificationEvent → ℕ → RmcMessage
notification_request s event count =
    rmc_request 0x0E 0x1 ((0xFFFE0000 + count) % 2 ^ 32) (write_event s event)

-- What one call reads that is neither the store nor the request: the clock (its nth reading in the
-- call, from 0), the random session key
-- and the wall clock's date that a new session gets, the order in which the runtime ranges over the
-- gatherings (`orders n` for the nth loop of a call that has several), the environment's settings, the list of a player's friends, if the game
-- server supplies one, and the endpoint's connections.
pub record World : Type 0 where
  pub clock : ℕ → ℕ
  pub random_key : Bytes
  pub started_time : ℕ
  pub order : List ℕ
  pub orders : ℕ → List ℕ
  pub open_participation_default : Bool
  pub solo_pids : List ℕ
  pub friend_pids : Option (ℕ → List ℕ)
  pub endpoint : Endpoint

-- A call's effects: the store after it, the notifications by the id of the connection that each is
-- pushed to, in order, and the reply, if there is one.
pub record Outcome : Type 0 where
  pub store : Store
  pub pushes : List (ℕ × NotificationEvent)
  pub reply : Option RmcMessage

abbrev pub participate : ℕ → ℕ → ℕ → Bytes → ℕ → NotificationEvent
participate source gid about message count = record {
  pid_source = source;
  type = notification_participate;
  param1 = gid;
  param2 = about;
  str_param = message;
  param3 = count;
}

abbrev pub push_to : Option Connection → NotificationEvent → List (ℕ × NotificationEvent)
push_to none event = []
push_to (some target) event = (target.id, event) ∷ []

-- The two loops of `notifyParticipation`.
unfoldable pub announce : Endpoint → List ℕ → NotificationEvent → List (ℕ × NotificationEvent)
announce e [] event = []
announce e (pid ∷ pids) event =
    push_to (find_connection_by_pid e pid) event ++ announce e pids event

unfoldable pub recap : Connection → List ℕ → ℕ → Bytes → ℕ → List (ℕ × NotificationEvent)
recap caller [] gid message count = []
recap caller (pid ∷ pids) gid message count =
    let rest = recap caller pids gid message count in
    if pid == caller.pid
    then rest
    else (caller.id, participate caller.pid gid pid message count) ∷ rest

-- `notifyParticipation`
unfoldable pub notify_participation :
    Endpoint → Connection → List ℕ → ℕ → Bytes → List (ℕ × NotificationEvent)
unfolding announce recap
notify_participation e caller participants gid message =
    let count = length participants in
    announce e participants (participate caller.pid gid caller.pid message count)
    ++ recap caller participants gid message count
