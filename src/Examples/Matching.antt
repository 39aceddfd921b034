-- ===== src/Examples/Matching.antt =====
-- Examples of automatic matchmaking, joins and runs of the store.
use nextendo_mk8d_matchmakin.Base.{
  ℕ, ◌%◌, ◌^◌, ◌≡◌, ◌<◌, ◌≤◌, ◌⊎◌, refl, true, false, Option, none, some, [], ◌∷◌, arith,
}
use nextendo_mk8d_matchmakin.Base.Lists.{length, contains, Distinct}
use nextendo_mk8d_matchmakin.Base.Maps.{find}
use nextendo_mk8d_matchmakin.Wire.In.{
  stream, read, read_le, le_value, read_buffer, read_all, read_bool, read_string, string_body,
  strip_zero, read_list, read_elements, counted, read_level,
}
use nextendo_mk8d_matchmakin.Wire.Out.{
  write_level, write_string, write_buffer, write_list, write_elements, write_bool, le,
}
use nextendo_mk8d_matchmakin.Session.Variant.{
  write_params, write_variant, read_params, read_variant, variant_of_tag, assign_params, set_param,
}
use nextendo_mk8d_matchmakin.Session.Types.{
  write_session, read_auto_param, write_auto_param, read_session, save_gathering, save_info,
  load_gathering, load_info,
}
use nextendo_mk8d_matchmakin.Rmc.{session_full}
use nextendo_mk8d_matchmakin.Endpoint.State.{scan_for_pid, find_connection_by_pid, nat_behaviour}
use nextendo_mk8d_matchmakin.Matchmaking.State.{Gathering, Store, no_switches, new_matchmaking}
use nextendo_mk8d_matchmakin.Matchmaking.Nat.{
  classify_nat, nat_compatible, pid_nat_class, gathering_nat_compatible,
}
use nextendo_mk8d_matchmakin.Matchmaking.Reservations.{
  max_seats, reserve_join, expire_join_reservations, occupied_seats, reserve_join_by_id,
  reserve_found,
}
use nextendo_mk8d_matchmakin.Matchmaking.Seats.{seats}
use nextendo_mk8d_matchmakin.Matchmaking.Create.{
  extension_success, extension_error, create_gathering, new_gathering, finalize_created_session,
  finalize_gathering, finalize_info,
}
use nextendo_mk8d_matchmakin.Matchmaking.Join.{
  matches_search, try_candidate, select_at, select_gathering, auto_matchmake, create_session,
  create_session_of, join_gid, join_session,
}
use nextendo_mk8d_matchmakin.Matchmaking.Leave.{
  remove_player, leave_all, leave_gathering, keep_or_drop,
}
use nextendo_mk8d_matchmakin.Matchmaking.Selection.{
  Suits, SeatsFit, select_gathering-Suits, select_gathering-none,
}
use nextendo_mk8d_matchmakin.Matchmaking.Placement.{auto_matchmake_places, join_session_cases}
use nextendo_mk8d_matchmakin.Matchmaking.Steps.{
  here, next, creates, reserves, disconnects, Reach-found,
}
use nextendo_mk8d_matchmakin.Examples.{
  gathering, full_gathering, store, full_store, alice, bob, carol, world, session, settings,
  join_request, matchmake_request,
}

store-SeatsFit : SeatsFit store
store-SeatsFit gid g h = ground arith

full_store-SeatsFit : SeatsFit full_store
full_store-SeatsFit gid g h = ground arith

select_gathering-Suits_example :
    (g : Gathering) × (find 1 store.gatherings ≡ some g) × Suits world bob session g
select_gathering-Suits_example =
    select_gathering-Suits world bob session store 1 (refl, tt) store-SeatsFit
      (unfold select_gathering select_at try_candidate matches_search occupied_seats
          expire_join_reservations gathering_nat_compatible nat_compatible classify_nat
          nat_behaviour pid_nat_class find_connection_by_pid scan_for_pid in
        refl)

-- No seat is left for Carol.
select_gathering-none_example : ¬ Suits world carol session full_gathering
select_gathering-none_example =
    select_gathering-none world carol session full_store 1 full_gathering (refl, tt)
      full_store-SeatsFit
      (unfold select_gathering select_at try_candidate matches_search occupied_seats
          expire_join_reservations gathering_nat_compatible nat_compatible classify_nat
          nat_behaviour pid_nat_class find_connection_by_pid scan_for_pid in
        refl)
      refl refl

request_parses : (read_auto_param settings (stream matchmake_request.body)).1.failed ≡ false
unfolding matchmake_request write_auto_param write_level write_session save_gathering save_info
    write_params write_variant write_string write_buffer write_list write_elements write_bool le
    read_auto_param read_session read_level load_gathering load_info read_params read_variant
    variant_of_tag read_string string_body strip_zero read_buffer read_list read_elements counted
    read_bool read_le le_value read read_all assign_params set_param
request_parses = refl

auto_matchmake_places_example :
    (gid : ℕ) × (g : Gathering) × (find gid
        (auto_matchmake settings world store bob matchmake_request).store.gatherings
      ≡ some g)
    × (contains g.participants 200 ≡ true)
    × ((auto_matchmake settings world store bob matchmake_request).reply
        ≡ some (extension_success matchmake_request (write_session settings g.session)))
auto_matchmake_places_example =
    auto_matchmake_places settings world store bob matchmake_request request_parses (omega arith)

join_session_cases_example :
    (g' : Gathering) × (find
        (join_gid join_request)
        (join_session settings no_switches world store bob join_request).store.gatherings
      ≡ some g')
    × (((reserve_join gathering store.reservation_ttl 200 (world.clock 0)).1 ≡ true)
          × (g'.participants ≡ 100 ∷ 200 ∷ [])
          × (g'.session.info.num_participants ≡ length g'.participants % 2 ^ 32)
        ⊎ ((reserve_join gathering store.reservation_ttl 200 (world.clock 0)).1 ≡ false)
          × (g'.participants ≡ 100 ∷ [])
          × ((join_session settings no_switches world store bob join_request).pushes ≡ [])
          × ((join_session settings no_switches world store bob join_request).reply
              ≡ some (extension_error join_request session_full)))
join_session_cases_example =
    join_session_cases settings no_switches world store bob join_request gathering
      (unfold join_gid read_buffer read read_le le_value in refl) refl (omega arith)

-- Alice opens a gathering, a seat in it is reserved for Bob, and Carol leaves the game.
abbrev opened : Store
opened = (create_session settings world new_matchmaking alice matchmake_request).store

abbrev reserved : Store
reserved = (reserve_join_by_id opened 1 200 1000).0

abbrev later : Store
later = remove_player reserved 300

abbrev or_else : Option Gathering → Gathering
or_else none = gathering
or_else (some g) = g

abbrev found : Gathering
found = or_else (find 1 later.gatherings)

later_found : find 1 later.gatherings ≡ some found
unfolding matchmake_request write_auto_param write_level write_session save_gathering save_info
    write_params write_variant write_string write_buffer write_list write_elements write_bool le
    read_auto_param read_session read_level load_gathering load_info read_params read_variant
    variant_of_tag read_string string_body strip_zero read_buffer read_list read_elements counted
    read_bool read_le le_value read read_all assign_params set_param create_session
    create_session_of create_gathering new_gathering finalize_created_session finalize_gathering
    finalize_info new_matchmaking reserve_join_by_id reserve_found reserve_join
    expire_join_reservations remove_player leave_all leave_gathering keep_or_drop
later_found = refl

Reach-found_example :
    (found.session.gathering.id ≡ 1)
    × Distinct found.participants
    × (1 ≤ length found.participants)
    × (found.session.info.num_participants ≡ length found.participants % 2 ^ 32)
    × (0 < max_seats found → seats found ≤ max_seats found)
Reach-found_example =
    Reach-found settings no_switches later 1 found refl
      (next (next (next here (creates world alice matchmake_request)) (reserves 1 200 1000))
        (disconnects 300))
      later_found
