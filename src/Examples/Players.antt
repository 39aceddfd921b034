-- ===== src/Examples/Players.antt =====
-- Examples of looking players up and of their NAT classes.
use nextendo_mk8d_matchmakin.Base.{◌≡◌, ◌<◌, ◌≤◌, ◌⊎◌, ◌↔◌, refl, false}
use nextendo_mk8d_matchmakin.Endpoint.State.{
  Endpoint, Connection, register_connection, scan_for_pid, find_connection_by_pid,
}
use nextendo_mk8d_matchmakin.Endpoint.Lookup.{find_connection_by_pid_newest}
use nextendo_mk8d_matchmakin.Matchmaking.Nat.{classify_nat, nat_compatible}
use nextendo_mk8d_matchmakin.Matchmaking.NatRules.{nat_compatible_refused_iff}
use nextendo_mk8d_matchmakin.Examples.{endpoint, bob}

-- Bob connects again before his first connection is gone.
abbrev again : Endpoint
again = (register_connection endpoint bob).0

abbrev bob_again : Connection
bob_again = (register_connection endpoint bob).1

find_connection_by_pid_newest_example : (bob_again.pid ≡ 200) × (bob.id ≤ bob_again.id)
unfolding register_connection find_connection_by_pid scan_for_pid
find_connection_by_pid_newest_example =
    find_connection_by_pid_newest again 200 bob_again 2 bob refl refl refl

nat_compatible_refused_iff_example :
    (nat_compatible (classify_nat (2, 2)) (classify_nat (1, 2)) ≡ false)
    ↔ ((1 < 2) × ((1 < 1) ⊎ (1 < 2)) ⊎ (1 < 1) × ((1 < 2) ⊎ (1 < 2)))
nat_compatible_refused_iff_example = nat_compatible_refused_iff 2 2 1 2
