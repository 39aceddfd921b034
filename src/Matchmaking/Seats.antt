-- ===== src/Matchmaking/Seats.antt =====
-- nextendo-nex/matchmaking_reservations.go: the seats of one gathering under reservations, commits,
-- cancellations and expiries.
use nextendo_mk8d_matchmakin.Base.{
  ℕ, suc, ◌+◌, ◌≤◌, ◌<◌, ◌≡◌, ◌⊎◌, ◌↔◌, refl, ◌==◌, ltb, if◌then◌else◌, Bool, ◌&&◌, ◌||◌, true,
  false, none, List, [], ◌∷◌, ◌++◌, arith, inl, inr, Option-cases,
}
use nextendo_mk8d_matchmakin.Base.Lists.{length, contains, Distinct, length-append, snoc-Distinct}
use nextendo_mk8d_matchmakin.Base.Maps.{
  Table, find, has, insert, erase, keep_values, find-insert, find-erase, length-insert,
  length-erase_le, length-erase_found, length-keep_values_le, has-find,
}
use nextendo_mk8d_matchmakin.Matchmaking.State.{Gathering}
use nextendo_mk8d_matchmakin.Matchmaking.Reservations.{
  expire_join_reservations, max_seats, reserve_join, commit_reserved_join, is_dead,
}

-- The seats taken: the participants and the reservations that are kept, expired or not.
abbrev pub seats : Gathering → ℕ
seats g = length g.participants + length g.reservations

-- A session with a maximum has no more seats taken than that.
abbrev pub SeatsBounded : Gathering → Type 0
SeatsBounded g = 0 < max_seats g → seats g ≤ max_seats g

pub expire-SeatsBounded :
    (g : Gathering) (now : ℕ) → SeatsBounded g → SeatsBounded (expire_join_reservations g now)
unfolding expire_join_reservations
expire-SeatsBounded g now b h = omega (arith, b h, length-keep_values_le (ltb now) g.reservations)

pub reserve-SeatsBounded :
    (g : Gathering) (ttl pid now : ℕ) → SeatsBounded g → SeatsBounded (reserve_join g ttl pid now).0
unfolding reserve_join expire_join_reservations
reserve-SeatsBounded g ttl pid now b =
    let live = keep_values (ltb now) g.reservations in
    ground (
      arith,
      b,
      length-erase_le pid g.reservations,
      length-keep_values_le (ltb now) g.reservations,
      length-insert pid (now + ttl) live,
    )

pub commit-SeatsBounded :
    (g : Gathering) (pid now : ℕ) → SeatsBounded g → SeatsBounded (commit_reserved_join g pid now).0
unfolding commit_reserved_join
commit-SeatsBounded g pid now b = elim (Option-cases (find pid g.reservations)) [
  | inl e ↦ rw (e, commit_reserved_join) (ground (arith, b, length-erase_le pid g.reservations))
  | inr (t, e) ↦
      rw (e, commit_reserved_join)
        (ground (
          arith,
          b,
          length-erase_le pid g.reservations,
          length-erase_found pid g.reservations (has-find pid g.reservations e),
          length-append g.participants (pid ∷ []),
        ))
]

-- The operations on one gathering's seats, by any player at any time.
pub data SeatCall : Type 0 where
  reserves : (ttl pid now : ℕ) → SeatCall
  commits cancels : (pid now : ℕ) → SeatCall
  expires : (now : ℕ) → SeatCall

unfoldable pub seat_step : Gathering → SeatCall → Gathering
seat_step g (reserves ttl pid now) = (reserve_join g ttl pid now).0
seat_step g (commits pid now) = (commit_reserved_join g pid now).0
seat_step g (cancels pid now) = record g { reservations = erase pid g.reservations }
seat_step g (expires now) = expire_join_reservations g now

unfoldable pub seat_run : Gathering → List SeatCall → Gathering
seat_run g [] = g
seat_run g (c ∷ cs) = seat_run (seat_step g c) cs

abbrev Bounded : ℕ → Gathering → Type 0
Bounded most g = (max_seats g ≡ most) × SeatsBounded g

seat_step-Bounded :
    (g : Gathering) (c : SeatCall) (most : ℕ) → Bounded most g → Bounded most (seat_step g c)
unfolding seat_step
seat_step-Bounded g (reserves ttl pid now) most b = (
  unfold reserve_join expire_join_reservations in ground arith,
  reserve-SeatsBounded g ttl pid now b.1,
)
seat_step-Bounded g (commits pid now) most b =
    (unfold commit_reserved_join in ground arith, commit-SeatsBounded g pid now b.1)
seat_step-Bounded g (cancels pid now) most b =
    (b.0, λ h. omega (arith, b.1 h, length-erase_le pid g.reservations))
seat_step-Bounded g (expires now) most b =
    (unfold expire_join_reservations in b.0, expire-SeatsBounded g now b.1)

seat_run-Bounded :
    (cs : List SeatCall) (g : Gathering) (most : ℕ) → Bounded most g → Bounded most (seat_run g cs)
unfolding seat_run
seat_run-Bounded [] g most b = b
seat_run-Bounded (c ∷ cs) g most b =
    seat_run-Bounded cs (seat_step g c) most (seat_step-Bounded g c most b)

-- From a gathering that has a maximum and no more seats taken, counting participants and
-- reservations, any sequence of reservations, commits, cancellations and expiries, by any players at
-- any times, ends with the same maximum and no more seats taken than it allows.
pub seat_run_no_overbooking :
    (g : Gathering) (cs : List SeatCall)
    → 0 < max_seats g
    → seats g ≤ max_seats g
    → (max_seats (seat_run g cs) ≡ max_seats g) × (seats (seat_run g cs) ≤ max_seats g)
seat_run_no_overbooking g cs pos b =
    let (same, bound) = seat_run-Bounded cs g (max_seats g) (refl, λ _. b) in
    (same, omega (arith, bound (omega arith)))

-- How many of some reservations end after a time.
abbrev pub ending_after : ℕ → Table ℕ → ℕ
ending_after now [] = 0
ending_after now ((pid, last) ∷ rs) =
    let more = ending_after now rs in if ltb now last then suc more else more

-- Some reservation is the player's and ends after a time.
abbrev pub holds_after : ℕ → ℕ → Table ℕ → Bool
holds_after now pid [] = false
holds_after now pid ((p, last) ∷ rs) = (p == pid && ltb now last) || holds_after now pid rs

pub length-keep_values :
    (now : ℕ) (rs : Table ℕ) → length (keep_values (ltb now) rs) ≡ ending_after now rs
length-keep_values now [] = refl
length-keep_values now ((p, e) ∷ rs) = ground (arith, length-keep_values now rs)

has-keep_values :
    (now pid : ℕ) (rs : Table ℕ) → has pid (keep_values (ltb now) rs) ≡ holds_after now pid rs
has-keep_values now pid [] = refl
has-keep_values now pid ((p, e) ∷ rs) = ground (arith, has-keep_values now pid rs)

-- A player who takes no part yet is refused a seat exactly when none of its reservations ends after
-- the time of the call, the session has a maximum, and the participants together with the
-- reservations that end after it reach the maximum.
pub reserve_join_refused_iff :
    (g : Gathering) (ttl pid now : ℕ)
    → contains g.participants pid ≡ false
    → ((reserve_join g ttl pid now).1 ≡ false) ↔ (
        (holds_after now pid g.reservations ≡ false)
        × (0 < max_seats g)
        × (max_seats g ≤ length g.participants + ending_after now g.reservations))
unfolding reserve_join expire_join_reservations
reserve_join_refused_iff g ttl pid now out =
    let size = length-keep_values now g.reservations in
    let held = has-keep_values now pid g.reservations in
    (λ h. ground (arith, size, held), λ h. ground (arith, size, held))

-- When a player who takes no part gets a seat at one time, a commit before that time plus the
-- reservation's lifetime succeeds: the player is added to the end of the participants, its
-- reservation is gone, and no other player's participation changes.
pub commit-reserve :
    (g : Gathering) (ttl pid now later : ℕ)
    → contains g.participants pid ≡ false
    → (reserve_join g ttl pid now).1 ≡ true
    → later < now + ttl
    → let (g', joined) = commit_reserved_join (reserve_join g ttl pid now).0 pid later in
      (joined ≡ true)
      × (g'.participants ≡ g.participants ++ (pid ∷ []))
      × (find pid g'.reservations ≡ none)
unfolding commit_reserved_join reserve_join expire_join_reservations
commit-reserve g ttl pid now later out done soon =
    let live = keep_values (ltb now) g.reservations in
    let held = insert pid (now + ttl) live in
    ground (arith, find-insert pid pid (now + ttl) live, find-erase pid pid held)

-- A commit adds the player exactly when it takes no part and its reservation has not expired;
-- otherwise the participants stay as they are. In either case no reservation of the player is left.
commit_reserved_join_cases :
    (g : Gathering) (pid now : ℕ)
    → let (g', joined) = commit_reserved_join g pid now in
      (find pid g'.reservations ≡ none)
      × ((joined ≡ true)
            × (contains g.participants pid ≡ false)
            × (is_dead (find pid g.reservations) now ≡ false)
            × (g'.participants ≡ g.participants ++ (pid ∷ []))
          ⊎ (joined ≡ false)
            × (g'.participants ≡ g.participants)
            × ((contains g.participants pid ≡ true)
                ⊎ (is_dead (find pid g.reservations) now ≡ true)))
unfolding commit_reserved_join
commit_reserved_join_cases g pid now = ground (arith, find-erase pid pid g.reservations)

pub commit-Distinct :
    (g : Gathering) (pid now : ℕ)
    → Distinct g.participants
    → Distinct (commit_reserved_join g pid now).0.participants
unfolding commit_reserved_join
commit-Distinct g pid now d = ground (arith, snoc-Distinct g.participants pid d)
