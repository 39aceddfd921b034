-- ===== src/Examples/Calls.antt =====
-- Examples of the matchmaking calls.
use nextendo_mk8d_matchmakin.Base.{
  ◌-◌, ◌^◌, ◌+◌, ◌≡◌, ◌<◌, ◌≤◌, ◌↔◌, refl, if◌then◌else◌, ◌==◌, true, false, none, some, [], ◌∷◌,
  arith,
}
use nextendo_mk8d_matchmakin.Base.Lists.{contains, length}
use nextendo_mk8d_matchmakin.Base.Maps.{Every, find}
use nextendo_mk8d_matchmakin.Matchmaking.State.{Gathering}
use nextendo_mk8d_matchmakin.Matchmaking.Reservations.{
  max_seats, reserve_join, commit_reserved_join, expire_join_reservations,
}
use nextendo_mk8d_matchmakin.Matchmaking.Seats.{
  seats, seat_run, reserves, commits, seat_run_no_overbooking, reserve_join_refused_iff,
  commit-reserve, holds_after, ending_after,
}
use nextendo_mk8d_matchmakin.Matchmaking.Leave.{end_participation, remove_player, without_player}
use nextendo_mk8d_matchmakin.Matchmaking.Departure.{
  remove_player_gone, remove_player_cases, unregister_all, unregister_all_cases,
  end_participation-remove_player,
}
use nextendo_mk8d_matchmakin.Matchmaking.Create.{count_participants}
use nextendo_mk8d_matchmakin.Matchmaking.Update.{extend_attribs}
use nextendo_mk8d_matchmakin.Matchmaking.Attributes.{extend_attribs_ends, extend_attribs_endless}
use nextendo_mk8d_matchmakin.Examples.{gathering, full_gathering, full_store}

seat_run_no_overbooking_example :
    (max_seats (seat_run gathering (reserves 8 200 1 ∷ reserves 8 300 2 ∷ commits 200 3 ∷ [])) ≡ 2)
    × (seats (seat_run gathering (reserves 8 200 1 ∷ reserves 8 300 2 ∷ commits 200 3 ∷ [])) ≤ 2)
seat_run_no_overbooking_example =
    seat_run_no_overbooking gathering (reserves 8 200 1 ∷ reserves 8 300 2 ∷ commits 200 3 ∷ [])
      (omega arith) (omega arith)

reserve_join_refused_iff_example : ((reserve_join full_gathering 8 300 1).1 ≡ false) ↔ (
    (holds_after 1 300 full_gathering.reservations ≡ false)
    × (0 < max_seats full_gathering)
    × (max_seats full_gathering
        ≤ length full_gathering.participants + ending_after 1 full_gathering.reservations))
reserve_join_refused_iff_example = reserve_join_refused_iff full_gathering 8 300 1 refl

commit-reserve_example :
    ((commit_reserved_join (reserve_join gathering 8 200 1).0 200 5).1 ≡ true)
    × ((commit_reserved_join (reserve_join gathering 8 200 1).0 200 5).0.participants
        ≡ 100 ∷ 200 ∷ [])
    × (find 200 (commit_reserved_join (reserve_join gathering 8 200 1).0 200 5).0.reservations
        ≡ none)
commit-reserve_example =
    commit-reserve gathering 8 200 1 5 refl (unfold reserve_join expire_join_reservations in refl)
      (omega arith)

-- What Bob leaves.
abbrev left : Gathering
left = count_participants (without_player full_gathering 200)

remove_player_gone_example :
    Every
      (λ gid g. (contains g.participants 200 ≡ false) × (find 200 g.reservations ≡ none))
      (remove_player full_store 200).gatherings
    × (find 200 (remove_player full_store 200).notif ≡ none)
    × (find 100 (remove_player full_store 200).notif
        ≡ (if 200 == 100 then none else find 100 full_store.notif))
remove_player_gone_example = remove_player_gone full_store 200 100 refl

remove_player_cases_example : find 1 (remove_player full_store 200).gatherings ≡ some left
remove_player_cases_example =
    remove_player_cases full_store 200 1 full_gathering refl (refl, tt) refl

-- Bob asks for the gathering in vain, Alice not.
unregister_all_cases_example :
    let after = unregister_all full_store ((200, 1) ∷ (100, 1) ∷ []) in
    (find 1 after.gatherings ≡ none)
    × (after.by_code ≡ full_store.by_code)
    × (after.notif ≡ full_store.notif)
    × (after.next_gid ≡ full_store.next_gid)
    × (after.code_rand ≡ full_store.code_rand)
    × (after.reservation_ttl ≡ full_store.reservation_ttl)
unregister_all_cases_example =
    unregister_all_cases full_store ((200, 1) ∷ (100, 1) ∷ []) 1 full_gathering refl

end_participation-remove_player_example :
    find 1 (end_participation full_store 200 1).gatherings
    ≡ find 1 (remove_player full_store 200).gatherings
end_participation-remove_player_example =
    end_participation-remove_player full_store 200 1 full_gathering refl (refl, tt) refl refl refl

extend_attribs_ends_example : extend_attribs 3 3 (7 ∷ 7 ∷ []) ≡ some (7 ∷ 7 ∷ 0 ∷ 0 ∷ [])
extend_attribs_ends_example =
    extend_attribs_ends 3 3 (7 ∷ 7 ∷ []) (omega arith) (omega arith) (omega arith)

extend_attribs_endless_example : extend_attribs 1000 (2 ^ 32 - 1) (7 ∷ []) ≡ none
extend_attribs_endless_example = extend_attribs_endless 1000 (7 ∷ [])
