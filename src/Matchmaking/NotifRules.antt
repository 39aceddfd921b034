-- ===== src/Matchmaking/NotifRules.antt =====
-- nextendo-nex/matchmaking_notifdata.go: whose events a player is told of.
use nextendo_mk8d_matchmakin.Base.{
  ◌∙◌, sym, not, none, ℕ, ◌≡◌, ◌↔◌, ◌⊎◌, refl, ◌==◌, ==_refl, ==_iff, if◌then◌else◌, true, false,
  ◌&&◌, Option, some, List, [], ◌∷◌, ◌++◌, arith, inl, inr, Option-cases, Bool-cases,
}
use nextendo_mk8d_matchmakin.Base.Lists.{contains, Among}
use nextendo_mk8d_matchmakin.Base.Maps.{find, insert, find-insert, find-erase}
use nextendo_mk8d_matchmakin.Wire.Settings.{Settings}
use nextendo_mk8d_matchmakin.Rmc.{RmcMessage}
use nextendo_mk8d_matchmakin.Endpoint.State.{Connection}
use nextendo_mk8d_matchmakin.Matchmaking.State.{NotificationEvent, Store, new_matchmaking}
use nextendo_mk8d_matchmakin.Matchmaking.World.{World}
use nextendo_mk8d_matchmakin.Matchmaking.Leave.{remove_player}
use nextendo_mk8d_matchmakin.Matchmaking.NotifData.{
  Notifs, events_or_none, put, get, read_published, publish, update_notification_data, events_of,
  events_of_all, friend_notifications_for, friends_of, publish_notification, forget,
}

-- What `get` finds after `put`: the new event at its place, and at every other place what was there.
get-put :
    (n : Notifs) (pid type pid' type' : ℕ) (event : NotificationEvent)
    → get (put n pid type event) pid' type'
      ≡ (if pid == pid' && type == type' then some event else get n pid' type')
unfolding get put
get-put n pid type pid' type' event = elim (Bool-cases (pid == pid')) [
  | inl e ↦
      let same = (==_iff pid pid').0 e in
      rw (find-insert pid pid' (insert type event (events_or_none (find pid n))) n, e)
        (rw (find-insert type type' event (events_or_none (find pid n)), same))
  | inr e ↦ rw (find-insert pid pid' (insert type event (events_or_none (find pid n))) n, e)
]

-- The calls that change the notification data. A game server publishes any event under any player
-- and type.
pub data NotifStep (s : Settings) (m : Store) : Store → Type 0 where
  updates :
      (w : World) (c : Connection) (r : RmcMessage)
      → NotifStep s m (update_notification_data s w m c r).store
  disconnects : (pid : ℕ) → NotifStep s m (remove_player m pid)
  publishes :
      (pid type : ℕ) (event : NotificationEvent)
      → NotifStep s m (publish_notification m pid type (some event))

pub data NotifRun (s : Settings) (m : Store) : Store → Type 0 where
  here : NotifRun s m m
  next : {m' m'' : Store} → NotifRun s m m' → NotifStep s m' m'' → NotifRun s m m''

-- What a player's call publishes under a player and a type, if anything: an event that the request
-- holds whole.
abbrev pub published_by :
    Settings → Connection → RmcMessage → ℕ → ℕ → Option NotificationEvent → Option NotificationEvent
published_by s c r pid type before =
    let (event, i) = read_published s c r in
    if i.failed then before else if c.pid == pid && event.type == type then some event else before

-- The last event that a run published under a player and a type and that no disconnect of the player
-- followed, from the run alone.
unfoldable pub last_published :
    {s : Settings} {m m' : Store} → NotifRun s m m' → ℕ → ℕ → Option NotificationEvent
last_published here pid type = none
last_published {s} (next run (updates w c r)) pid type =
    published_by s c r pid type (last_published run pid type)
last_published (next run (disconnects p)) pid type =
    let before = last_published run pid type in if not (p == 0) && p == pid then none else before
last_published (next run (publishes p t event)) pid type =
    let before = last_published run pid type in if p == pid && t == type then some event else before

get-update_notification_data :
    (s : Settings) (w : World) (m : Store) (c : Connection) (r : RmcMessage) (pid type : ℕ)
    → get (update_notification_data s w m c r).store.notif pid type
      ≡ published_by s c r pid type (get m.notif pid type)
unfolding update_notification_data publish
get-update_notification_data s w m c r pid type =
    elim (Bool-cases (read_published s c r).1.failed) [
      | inl e ↦ rw e refl
      | inr e ↦
          rw
            (
              e,
              get-put m.notif c.pid (read_published s c r).0.type pid type (read_published s c r).0,
            )
            refl
    ]

get-remove_player :
    (m : Store) (p pid type : ℕ)
    → get (remove_player m p).notif pid type
      ≡ (if not (p == 0) && p == pid then none else get m.notif pid type)
unfolding get remove_player forget
get-remove_player m p pid type = elim (Bool-cases (p == 0)) [
  | inl e ↦ rw e refl
  | inr e ↦ elim (Bool-cases (p == pid)) [
    | inl same ↦ rw (e, find-erase p pid m.notif, same) refl
    | inr other ↦ rw (e, find-erase p pid m.notif, other) refl
  ]
]

get_empty : (pid type : ℕ) → get [] pid type ≡ none
unfolding get
get_empty pid type = refl

-- What is kept is what was published last.
get-last_published :
    {s : Settings} {m : Store} (run : NotifRun s new_matchmaking m) (pid type : ℕ)
    → get m.notif pid type ≡ last_published run pid type
unfolding last_published new_matchmaking publish_notification
get-last_published here pid type = get_empty pid type
get-last_published {s} (next {m'} run (updates w c r)) pid type =
    rw (get-update_notification_data s w m' c r pid type, get-last_published run pid type) refl
get-last_published (next {m'} run (disconnects p)) pid type =
    rw (get-remove_player m' p pid type, get-last_published run pid type) refl
get-last_published (next {m'} run (publishes p t event)) pid type =
    rw (get-put m'.notif p t pid type event, get-last_published run pid type) refl

Among-append : {A : Type 0} (a : A) (xs ys : List A) → Among a xs ⊎ Among a ys → Among a (xs ++ ys)
Among-append a [] ys (inl h) = elim h [ ]
Among-append a [] ys (inr h) = h
Among-append a (x ∷ xs) ys (inl (inl e)) = inl e
Among-append a (x ∷ xs) ys (inl (inr h)) = inr (Among-append a xs ys (inl h))
Among-append a (x ∷ xs) ys (inr h) = inr (Among-append a xs ys (inr h))

append-Among : {A : Type 0} (a : A) (xs ys : List A) → Among a (xs ++ ys) → Among a xs ⊎ Among a ys
append-Among a [] ys h = inr h
append-Among a (x ∷ xs) ys (inl e) = inl (inl e)
append-Among a (x ∷ xs) ys (inr h) = elim (append-Among a xs ys h) [
  | inl l ↦ inl (inr l)
  | inr r ↦ inr r
]

-- An open event that stands in the store for a player and a type.
abbrev IsOpenAt : Notifs → NotificationEvent → ℕ → ℕ → Type 0
IsOpenAt n e friend type = (get n friend type ≡ some e) × ((e.param2 == 0) ≡ false)

events_of_sound :
    (n : Notifs) (friend : ℕ) (types : List ℕ) (e : NotificationEvent)
    → Among e (events_of n friend types)
    → (type : ℕ) × (contains types type ≡ true) × IsOpenAt n e friend type
unfolding events_of
events_of_sound n friend [] e h = elim h [ ]
events_of_sound n friend (type ∷ types) e h = elim (Option-cases (get n friend type)) [
  | inl g ↦ later (events_of_sound n friend types e (rw g at h))
  | inr (found, g) ↦ elim (Bool-cases (found.param2 == 0)) [
    | inl z ↦ later (events_of_sound n friend types e (rw (g, z) at h))
    | inr z ↦ elim (rw (g, z) at h) [
      | inl same ↦ (type, rw (==_refl type), (rw same g, rw same z))
      | inr more ↦ later (events_of_sound n friend types e more)
    ]
  ]
]
  where
    later :
        (t : ℕ) × (contains types t ≡ true) × IsOpenAt n e friend t
        → (t : ℕ) × (contains (type ∷ types) t ≡ true) × IsOpenAt n e friend t
    later (t, c, o) = (t, ground arith, o)

events_of_complete :
    (n : Notifs) (friend : ℕ) (types : List ℕ) (e : NotificationEvent) (type : ℕ)
    → contains types type ≡ true
    → IsOpenAt n e friend type
    → Among e (events_of n friend types)
unfolding events_of
events_of_complete n friend [] e type c o = cc
events_of_complete n friend (t ∷ types) e type c o = elim (Bool-cases (t == type)) [
  | inl same ↦
      let g : get n friend t ≡ some e = rw ((==_iff t type).0 same) o.0 in rw (g, o.1) (inl refl)
  | inr other ↦
      let rest = events_of_complete n friend types e type (ground arith) o in
      elim (Option-cases (get n friend t)) [
        | inl g ↦ rw g rest
        | inr (found, g) ↦ elim (Bool-cases (found.param2 == 0)) [
          | inl z ↦ rw (g, z) rest
          | inr z ↦ rw (g, z) (inr rest)
        ]
      ]
]

abbrev IsEventOf : Notifs → List ℕ → List ℕ → NotificationEvent → Type 0
IsEventOf n friends types e =
    (friend : ℕ) × (type : ℕ) × (contains friends friend ≡ true)
    × (contains types type ≡ true)
    × IsOpenAt n e friend type

events_of_all_sound :
    (n : Notifs) (friends types : List ℕ) (e : NotificationEvent)
    → Among e (events_of_all n friends types)
    → IsEventOf n friends types e
unfolding events_of_all
events_of_all_sound n [] types e h = elim h [ ]
events_of_all_sound n (f ∷ friends) types e h =
    elim (append-Among e (events_of n f types) (events_of_all n friends types) h) [
      | inl l ↦ let (type, c, o) = events_of_sound n f types e l in (f, type, rw (==_refl f), c, o)
      | inr r ↦
          let (friend, type, c, t, o) = events_of_all_sound n friends types e r in
          (friend, type, ground arith, t, o)
    ]

events_of_all_complete :
    (n : Notifs) (friends types : List ℕ) (e : NotificationEvent) (friend type : ℕ)
    → contains friends friend ≡ true
    → contains types type ≡ true
    → IsOpenAt n e friend type
    → Among e (events_of_all n friends types)
unfolding events_of_all
events_of_all_complete n [] types e friend type c t o = cc
events_of_all_complete n (f ∷ friends) types e friend type c t o =
    Among-append e (events_of n f types) (events_of_all n friends types)
      (elim (Bool-cases (f == friend)) [
        | inl same ↦
            inl (rw ((==_iff f friend).0 same) (events_of_complete n friend types e type t o))
        | inr other ↦ inr (events_of_all_complete n friends types e friend type (ground arith) t o)
      ])

-- After any publications, by players and the game server, and any disconnects, starting from the new
-- store, a player that asks for its friends' events of some types is told of an event exactly when,
-- for some friend and some type that is asked for, it is the last one that was published under the two
-- and no disconnect of the friend (other than the player 0) followed, and it is open.
pub friend_notifications_iff :
    (s : Settings) (m : Store) (friend_pids : Option (ℕ → List ℕ)) (pid : ℕ) (types : List ℕ)
    (e : NotificationEvent) (run : NotifRun s new_matchmaking m)
    → Among e (friend_notifications_for friend_pids m.notif pid types) ↔ (
        (friend : ℕ) × (type : ℕ) × (contains (friends_of friend_pids pid) friend ≡ true)
        × (contains types type ≡ true)
        × (last_published run friend type ≡ some e)
        × ((e.param2 == 0) ≡ false))
unfolding friend_notifications_for
friend_notifications_iff s m friend_pids pid types e run = (
  λ h.
      let (friend, type, c, t, (g, o)) =
        events_of_all_sound m.notif (friends_of friend_pids pid) types e h in
      (friend, type, c, t, sym (get-last_published run friend type) ∙ g, o),
  λ (friend, type, c, t, g, o).
      events_of_all_complete m.notif (friends_of friend_pids pid) types e friend type c t
        (get-last_published run friend type ∙ g, o),
)
