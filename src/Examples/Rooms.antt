-- ===== src/Examples/Rooms.antt =====
-- Examples of the queries, the room codes and the notification data.
use nextendo_mk8d_matchmakin.Base.{
  ℕ, none, ◌≡◌, ◌↔◌, ◌==◌, refl, false, true, some, [], ◌∷◌, ◌++◌, inl,
}
use nextendo_mk8d_matchmakin.Base.Lists.{contains, Among}
use nextendo_mk8d_matchmakin.Wire.In.{read_le, read, read_string, string_body, strip_zero, le_value}
use nextendo_mk8d_matchmakin.Wire.Out.{le, write_u32, write_string, write_pid}
use nextendo_mk8d_matchmakin.Rmc.{RmcMessage, rmc_request}
use nextendo_mk8d_matchmakin.Matchmaking.State.{NotificationEvent, Store, new_matchmaking}
use nextendo_mk8d_matchmakin.Matchmaking.Create.{extension_success}
use nextendo_mk8d_matchmakin.Matchmaking.Leave.{request_gid}
use nextendo_mk8d_matchmakin.Matchmaking.Queries.{shown_session, browse_sessions}
use nextendo_mk8d_matchmakin.Matchmaking.QueryRules.{IsShownAs, IsHit, browse_sessions_iff}
use nextendo_mk8d_matchmakin.Matchmaking.Codes.{make_code, private_room_create, resolve_code}
use nextendo_mk8d_matchmakin.Matchmaking.CodeRules.{resolve_code-private_room_create}
use nextendo_mk8d_matchmakin.Matchmaking.NotifData.{
  friend_notifications_for, friends_of, read_published, update_notification_data,
}
use nextendo_mk8d_matchmakin.Matchmaking.NotifRules.{
  NotifRun, updates, disconnects, last_published, friend_notifications_iff,
}
use nextendo_mk8d_matchmakin.Examples.{settings, session, store, world, bob}

browse_sessions_iff_example :
    IsShownAs [] session (shown_session [] session)
    × (Among (shown_session [] session) (browse_sessions [] store (1 ∷ []))
        ↔ IsHit [] store (1 ∷ []) (shown_session [] session))
browse_sessions_iff_example =
    browse_sessions_iff [] store (1 ∷ []) session (shown_session [] session)

abbrev pub room_request : RmcMessage
room_request = rmc_request 0x6D 0x44 9 (1 ∷ 0 ∷ 0 ∷ 0 ∷ [])

abbrev pub code_request : RmcMessage
code_request =
    rmc_request 0x6D 0x45 10 (write_string (make_code store (request_gid room_request)).1)

resolve_code-private_room_create_example :
    resolve_code (private_room_create store room_request).store code_request
    ≡ extension_success code_request (write_u32 (request_gid room_request))
resolve_code-private_room_create_example =
    resolve_code-private_room_create store room_request code_request (inl refl)

-- Bob opens his gate.
abbrev gate_request : RmcMessage
gate_request =
    rmc_request 0x6D 9 11 (
      write_u32 101 ++ (write_pid settings 5 ++ (write_pid settings 1 ++ write_string (b'i' ∷ []))))

abbrev opened : Store
opened = (update_notification_data settings world new_matchmaking bob gate_request).store

abbrev gate : NotificationEvent
gate = record {
  pid_source = 200;
  type = 101;
  param1 = 5;
  param2 = 1;
  str_param = b'i' ∷ [];
  param3 = 0;
}

abbrev gate_run : NotifRun settings new_matchmaking opened
gate_run = NotifRun.next NotifRun.here (updates world bob gate_request)

friend_notifications_iff_example :
    Among gate (friend_notifications_for (some (λ pid. 200 ∷ [])) opened.notif 100 (101 ∷ [])) ↔ (
      (friend : ℕ) × (type : ℕ) × (contains (friends_of (some (λ pid. 200 ∷ [])) 100) friend ≡ true)
      × (contains (101 ∷ []) type ≡ true)
      × (last_published gate_run friend type ≡ some gate)
      × ((1 == 0) ≡ false))
friend_notifications_iff_example =
    friend_notifications_iff settings opened (some (λ pid. 200 ∷ [])) 100 (101 ∷ []) gate gate_run

-- Her friends are told of it, until Bob leaves.
gate_last : last_published gate_run 200 101 ≡ some gate
unfolding last_published read_published read_le read read_string string_body strip_zero le_value
    write_string le
gate_last = refl

gate_gone : last_published (NotifRun.next gate_run (disconnects 200)) 200 101 ≡ none
unfolding last_published
gate_gone = refl
