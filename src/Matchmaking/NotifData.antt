-- ===== src/Matchmaking/NotifData.antt =====
-- nextendo-nex/matchmaking_notifdata.go: the data that a player publishes for its friends.
use nextendo_mk8d_matchmakin.Base.{
  ℕ, ◌*◌, ◌%◌, ◌^◌, ◌==◌, if◌then◌else◌, Bool, Option, none, some, List, [], ◌∷◌, ◌++◌,
}
use nextendo_mk8d_matchmakin.Base.Maps.{Table, find, insert, erase}
use nextendo_mk8d_matchmakin.Wire.Settings.{Settings}
use nextendo_mk8d_matchmakin.Wire.Out.{write_list}
use nextendo_mk8d_matchmakin.Wire.In.{StreamIn, stream, read_u32, read_pid, read_string, read_list}
use nextendo_mk8d_matchmakin.Rmc.{RmcMessage, core_invalid_argument}
use nextendo_mk8d_matchmakin.Endpoint.State.{Connection, Endpoint, find_connection_by_pid}
use nextendo_mk8d_matchmakin.Matchmaking.State.{NotificationEvent, Store}
use nextendo_mk8d_matchmakin.Matchmaking.World.{World, Outcome, write_event, push_to}
use nextendo_mk8d_matchmakin.Matchmaking.Create.{reply_only, extension_success, extension_error}

-- `notifStore.data`
abbrev pub Notifs : Type 0
Notifs = Table (Table NotificationEvent)

abbrev pub events_or_none : Option (Table NotificationEvent) → Table NotificationEvent
events_or_none none = []
events_or_none (some events) = events

-- `put`
unfoldable pub put : Notifs → ℕ → ℕ → NotificationEvent → Notifs
put n pid type event = insert pid (insert type event (events_or_none (find pid n))) n

-- `get`
unfoldable pub get : Notifs → ℕ → ℕ → Option NotificationEvent
get n pid type = find type (events_or_none (find pid n))

-- `forget`
unfoldable pub forget : Notifs → ℕ → Notifs
forget n pid = erase pid n

-- The event that is pushed for one that was published: its type, a uint32, times 1000.
unfoldable pub presence_event : NotificationEvent → NotificationEvent
presence_event e = record {
  pid_source = e.pid_source;
  type = (e.type * 1000) % 2 ^ 32;
  param1 = e.param1;
  param2 = e.param2;
  str_param = e.str_param;
  param3 = 0;
}

unfoldable pub push_to_all : Endpoint → NotificationEvent → List ℕ → List (ℕ × NotificationEvent)
push_to_all e event [] = []
push_to_all e event (friend ∷ friends) =
    push_to (find_connection_by_pid e friend) (presence_event event) ++ push_to_all e event friends

-- `m.FriendPIDs(pid)`, nobody where no source of friends is set.
unfoldable pub friends_of : Option (ℕ → List ℕ) → ℕ → List ℕ
friends_of none pid = []
friends_of (some friend_pids) pid = friend_pids pid

-- `pushNotifDataToFriends`
unfoldable pub push_notif_data_to_friends :
    World → Connection → NotificationEvent → List (ℕ × NotificationEvent)
push_notif_data_to_friends w caller event =
    push_to_all w.endpoint event (friends_of w.friend_pids caller.pid)

-- The event of a request, and the stream after it.
unfoldable pub read_published : Settings → Connection → RmcMessage → NotificationEvent × StreamIn
read_published s caller req =
    let (type, i) = read_u32 (stream req.body) in
    let (param1, j) = read_pid s i in
    let (param2, k) = read_pid s j in
    let (str, l) = read_string k in
    (
      record {
        pid_source = caller.pid;
        type = type;
        param1 = param1;
        param2 = param2;
        str_param = str;
        param3 = 0;
      },
      l,
    )

unfoldable pub publish : World → Store → Connection → RmcMessage → NotificationEvent → Outcome
publish w m caller req event = record {
  store = record m { notif = put m.notif caller.pid event.type event };
  pushes = push_notif_data_to_friends w caller event;
  reply = some (extension_success req []);
}

-- `updateNotificationData`
unfoldable pub update_notification_data :
    Settings → World → Store → Connection → RmcMessage → Outcome
update_notification_data s w m caller req =
    let (event, i) = read_published s caller req in
    if i.failed
    then reply_only m (extension_error req core_invalid_argument)
    else publish w m caller req event

abbrev pub if_open : Option NotificationEvent → List NotificationEvent → List NotificationEvent
if_open none rest = rest
if_open (some event) rest = if event.param2 == 0 then rest else event ∷ rest

-- The loops of `friendNotificationsFor`.
unfoldable pub events_of : Notifs → ℕ → List ℕ → List NotificationEvent
events_of n friend [] = []
events_of n friend (type ∷ types) = if_open (get n friend type) (events_of n friend types)

unfoldable pub events_of_all : Notifs → List ℕ → List ℕ → List NotificationEvent
events_of_all n [] types = []
events_of_all n (friend ∷ friends) types = events_of n friend types ++ events_of_all n friends types

-- `friendNotificationsFor`
unfoldable pub friend_notifications_for :
    Option (ℕ → List ℕ) → Notifs → ℕ → List ℕ → List NotificationEvent
friend_notifications_for friend_pids n pid types =
    events_of_all n (friends_of friend_pids pid) types

-- The types that a request asks for: a list, or one (an int32, converted back to its 32 bits).
unfoldable pub requested_types : RmcMessage → Bool → List ℕ × StreamIn
requested_types req list =
    let (types, i) = read_list read_u32 (stream req.body) in
    let (type, j) = read_u32 (stream req.body) in if list then (types, i) else (type ∷ [], j)

-- The pushes to the caller that follow its reply.
unfoldable pub push_back : Connection → List NotificationEvent → List (ℕ × NotificationEvent)
push_back caller [] = []
push_back caller (event ∷ events) = (caller.id, presence_event event) ∷ push_back caller events

-- `getFriendNotificationData`
unfoldable pub get_friend_notification_data :
    Settings → World → Store → Connection → RmcMessage → Bool → Outcome
get_friend_notification_data s w m caller req list =
    let (types, i) = requested_types req list in
    let events = friend_notifications_for w.friend_pids m.notif caller.pid types in
    if i.failed then reply_only m (extension_error req core_invalid_argument) else record {
      store = m;
      pushes = push_back caller events;
      reply = some (extension_success req (write_list (write_event s) events));
    }

-- `PublishNotification`; a nil event changes nothing.
unfoldable pub publish_notification : Store → ℕ → ℕ → Option NotificationEvent → Store
publish_notification m pid type none = m
publish_notification m pid type (some event) = record m { notif = put m.notif pid type event }
