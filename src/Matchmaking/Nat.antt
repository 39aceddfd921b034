-- ===== src/Matchmaking/Nat.antt =====
-- nextendo-nex/matchmaking_handlers.go: NAT classes and which of them can reach one another.
use nextendo_mk8d_matchmakin.Base.{
  ℕ, ◌==◌, leb, if◌then◌else◌, Bool, true, false, not, ◌&&◌, ◌||◌, Option, none, some, List, [],
  ◌∷◌,
}
use nextendo_mk8d_matchmakin.Endpoint.State.{
  Connection, Endpoint, find_connection_by_pid, nat_behaviour,
}

-- `natClass`
pub data NatClass : Type 0 where
  nat_unknown nat_open nat_moderate nat_strict : NatClass

-- `classifyNAT`
unfoldable pub classify_nat : ℕ × ℕ → NatClass
classify_nat (nat_map, nat_filter) =
    if nat_map == 0 && nat_filter == 0
    then nat_unknown
    else if leb nat_map 1 && leb nat_filter 1
    then nat_open
    else if leb nat_map 1
    then nat_moderate
    else nat_strict

abbrev is_unknown : NatClass → Bool
is_unknown nat_unknown = true
is_unknown _ = false

abbrev is_moderate : NatClass → Bool
is_moderate nat_moderate = true
is_moderate _ = false

abbrev is_strict : NatClass → Bool
is_strict nat_strict = true
is_strict _ = false

-- `natCompatible`
unfoldable pub nat_compatible : NatClass → NatClass → Bool
nat_compatible a b =
    if is_unknown a || is_unknown b
    then true
    else if is_strict a && (is_strict b || is_moderate b)
    then false
    else if is_strict b && (is_strict a || is_moderate a)
    then false
    else true

unfoldable pub class_of : Option Connection → NatClass
class_of none = nat_unknown
class_of (some c) = classify_nat (nat_behaviour c)

-- `pidNATClass`
unfoldable pub pid_nat_class : Endpoint → ℕ → NatClass
unfolding class_of
pid_nat_class e pid = class_of (find_connection_by_pid e pid)

-- `gatheringNATCompatible`
unfoldable pub gathering_nat_compatible : Endpoint → NatClass → List ℕ → ℕ → Bool
gathering_nat_compatible e joiner [] joiner_pid = true
gathering_nat_compatible e joiner (pid ∷ pids) joiner_pid =
    let rest = gathering_nat_compatible e joiner pids joiner_pid in
    if pid == joiner_pid
    then rest
    else if not (nat_compatible joiner (pid_nat_class e pid))
    then false
    else rest
