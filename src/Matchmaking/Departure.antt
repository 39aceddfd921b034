-- ===== src/Matchmaking/Departure.antt =====
-- nextendo-nex/matchmaking_handlers.go: what a disconnect, an ended participation and an unregistration leave behind.
use nextendo_mk8d_matchmakin.Base.{
  ℕ, ◌<◌, ◌≡◌, refl, ◌∙◌, ◌==◌, if◌then◌else◌, Bool, true, false, ◌||◌, ◌&&◌, none, some, List, [],
  ◌∷◌, arith, inl, inr, Option-cases, Bool-cases,
}
use nextendo_mk8d_matchmakin.Base.Lists.{
  length, contains, remove, Distinct, remove_absent, contains-remove, length-remove_le,
}
use nextendo_mk8d_matchmakin.Base.Maps.{Table, Every, find, erase, keys, find-erase, find-insert}
use nextendo_mk8d_matchmakin.Matchmaking.State.{Gathering, Store, Codes}
use nextendo_mk8d_matchmakin.Matchmaking.Create.{count_participants}
use nextendo_mk8d_matchmakin.Matchmaking.NotifData.{forget}
use nextendo_mk8d_matchmakin.Matchmaking.Leave.{
  unregister, unregister_found, end_participation, end_found, is_empty, without_player,
  leave_gathering, keep_or_drop, leave_all, remove_player,
}

-- No trace of a player in a gathering.
abbrev pub Free : ℕ → Gathering → Type 0
Free pid g = (contains g.participants pid ≡ false) × (find pid g.reservations ≡ none)

length-remove_found :
    (xs : List ℕ) (p : ℕ) → contains xs p ≡ true → length (remove xs p) < length xs
length-remove_found [] p h = cc
length-remove_found (x ∷ xs) p h = ground (arith, length-remove_found xs p, length-remove_le xs p)

leave_gathering-Free : (pid : ℕ) (g g' : Gathering) → leave_gathering pid g ≡ some g' → Free pid g'
unfolding leave_gathering
leave_gathering-Free pid g g' h =
    ground (arith, contains-remove g.participants pid pid, find-erase pid pid g.reservations)

leave_all-Every :
    (pid : ℕ) (gs : Table Gathering) (codes : Codes)
    → Every (λ gid g. Free pid g) (leave_all pid gs codes).0
unfolding leave_all keep_or_drop
leave_all-Every pid [] codes = tt
leave_all-Every pid ((k, g) ∷ gs) codes = elim (Option-cases (leave_gathering pid g)) [
  | inl e ↦ rw e (leave_all-Every pid gs codes)
  | inr (left, e) ↦ rw e (leave_gathering-Free pid g left e, leave_all-Every pid gs codes)
]

-- After a player other than 0 is removed, no gathering that is left has it as a participant or holds
-- a reservation of it, none of its notification data is left, whether a gathering is left or not, and
-- the other players' notification data is what it was.
pub remove_player_gone :
    (m : Store) (pid other : ℕ)
    → (pid == 0) ≡ false
    → Every
        (λ gid g. (contains g.participants pid ≡ false) × (find pid g.reservations ≡ none))
        (remove_player m pid).gatherings
      × (find pid (remove_player m pid).notif ≡ none)
      × (find other (remove_player m pid).notif
          ≡ (if pid == other then none else find other m.notif))
unfolding remove_player forget
remove_player_gone m pid other some_one = rw some_one (
  leave_all-Every pid m.gatherings m.by_code,
  ground (arith, find-erase pid pid m.notif),
  find-erase pid other m.notif,
)

leave_all-absent :
    (pid gid : ℕ) (gs : Table Gathering) (codes : Codes)
    → contains (keys gs) gid ≡ false
    → find gid (leave_all pid gs codes).0 ≡ none
unfolding leave_all keep_or_drop
leave_all-absent pid gid [] codes h = refl
leave_all-absent pid gid ((k, g) ∷ gs) codes h = elim (Option-cases (leave_gathering pid g)) [
  | inl e ↦ rw e (leave_all-absent pid gid gs codes (ground arith))
  | inr (left, e) ↦ rw e (ground (arith, leave_all-absent pid gid gs codes))
]

leave_all-find :
    (pid gid : ℕ) (gs : Table Gathering) (codes : Codes) (g : Gathering)
    → Distinct (keys gs)
    → find gid gs ≡ some g
    → find gid (leave_all pid gs codes).0 ≡ leave_gathering pid g
unfolding leave_all keep_or_drop
leave_all-find pid gid [] codes g d h = cc
leave_all-find pid gid ((k, g') ∷ gs) codes g d h = elim (Bool-cases (k == gid)) [
  | inl same ↦
      let here : g' ≡ g = ground arith in
      let unique : contains (keys gs) gid ≡ false = ground arith in
      rw here (elim (Option-cases (leave_gathering pid g)) [
        | inl e ↦ rw e (leave_all-absent pid gid gs codes unique)
        | inr (left, e) ↦ rw (e, same) refl
      ])
  | inr other ↦ elim (Option-cases (leave_gathering pid g')) [
    | inl e ↦ rw e (leave_all-find pid gid gs codes g d.1 (rw other at h))
    | inr (left, e) ↦ rw (e, other) (leave_all-find pid gid gs codes g d.1 (rw other at h))
  ]
]

-- When no two gatherings share an id, removing a player other than 0 leaves each gathering in one of
-- three ways. Where the player takes no part, only its reservation goes. Where it takes part and is
-- the owner or the only participant, the gathering goes. In any other one, it is taken out of the
-- participants, and those that remain are counted again.
pub remove_player_cases :
    (m : Store) (pid gid : ℕ) (g : Gathering)
    → (pid == 0) ≡ false
    → Distinct (keys m.gatherings)
    → find gid m.gatherings ≡ some g
    → find gid (remove_player m pid).gatherings ≡ (
        if contains g.participants pid
        then (if is_empty (remove g.participants pid) || g.session.gathering.owner_pid == pid
            then none
            else some (count_participants (without_player g pid)))
        else some (record g { reservations = erase pid g.reservations }))
unfolding remove_player leave_gathering
remove_player_cases m pid gid g some_one d h = elim (Bool-cases (contains g.participants pid)) [
  | inl e ↦
      rw (some_one, e, leave_all-find pid gid m.gatherings m.by_code g d h)
        (ground (arith, length-remove_found g.participants pid e))
  | inr e ↦
      rw (some_one, e, leave_all-find pid gid m.gatherings m.by_code g d h)
        (ground (arith, remove_absent g.participants pid e))
]

-- Calls of `unregister`, each with its player and the id that it names, one after the other.
unfoldable pub unregister_all : Store → List (ℕ × ℕ) → Store
unregister_all m [] = m
unregister_all m ((pid, gid) ∷ calls) = unregister_all (unregister m pid gid) calls

-- Some call is by the player and names the id.
abbrev pub is_named : List (ℕ × ℕ) → ℕ → ℕ → Bool
is_named [] pid gid = false
is_named ((p, k) ∷ calls) pid gid = (p == pid && k == gid) || is_named calls pid gid

unregister_lem :
    (m : Store) (pid k gid : ℕ) (g : Gathering)
    → find gid m.gatherings ≡ some g
    → find gid (unregister m pid k).gatherings
      ≡ (if pid == g.session.gathering.owner_pid && k == gid then none else some g)
unfolding unregister unregister_found
unregister_lem m pid k gid g h = elim (Bool-cases (k == gid)) [
  | inl same ↦
      let e : k ≡ gid = ground arith in
      rw (e, h) (ground (arith, h, find-erase gid gid m.gatherings))
  | inr other ↦ elim (Option-cases (find k m.gatherings)) [
    | inl e ↦ rw e (ground (arith, h))
    | inr (g', e) ↦ rw e (ground (arith, h, find-erase k gid m.gatherings))
  ]
]

unregister_absent :
    (m : Store) (calls : List (ℕ × ℕ)) (gid : ℕ)
    → find gid m.gatherings ≡ none
    → find gid (unregister_all m calls).gatherings ≡ none
unfolding unregister_all unregister unregister_found
unregister_absent m [] gid h = h
unregister_absent m ((pid, k) ∷ calls) gid h =
    unregister_absent (unregister m pid k) calls gid (elim (Option-cases (find k m.gatherings)) [
      | inl e ↦ rw e h
      | inr (g', e) ↦ rw e (ground (arith, h, find-erase k gid m.gatherings))
    ])

-- What no unregistration changes.
abbrev SameRest : Store → Store → Type 0
SameRest m m' =
    (m'.by_code ≡ m.by_code)
    × (m'.notif ≡ m.notif)
    × (m'.next_gid ≡ m.next_gid)
    × (m'.code_rand ≡ m.code_rand)
    × (m'.reservation_ttl ≡ m.reservation_ttl)

unregister-SameRest : (m : Store) (pid k : ℕ) → SameRest m (unregister m pid k)
unfolding unregister unregister_found
unregister-SameRest m pid k = elim (Option-cases (find k m.gatherings)) [
  | inl e ↦ rw e (refl, refl, refl, refl, refl)
  | inr (g, e) ↦ elim (Bool-cases (g.session.gathering.owner_pid == pid)) [
    | inl o ↦ rw (e, o) (refl, refl, refl, refl, refl)
    | inr o ↦ rw (e, o) (refl, refl, refl, refl, refl)
  ]
]

-- After any unregistrations, by any players and of any ids, one after the other, a stored gathering is
-- gone exactly when its session's owner asked for it by its id, and is otherwise the same; and the
-- room codes, the notification data, the counters and the time that a reservation lives are the same.
pub unregister_all_cases :
    (m : Store) (calls : List (ℕ × ℕ)) (gid : ℕ) (g : Gathering)
    → find gid m.gatherings ≡ some g
    → (find gid (unregister_all m calls).gatherings
        ≡ (if is_named calls g.session.gathering.owner_pid gid then none else some g))
      × ((unregister_all m calls).by_code ≡ m.by_code)
      × ((unregister_all m calls).notif ≡ m.notif)
      × ((unregister_all m calls).next_gid ≡ m.next_gid)
      × ((unregister_all m calls).code_rand ≡ m.code_rand)
      × ((unregister_all m calls).reservation_ttl ≡ m.reservation_ttl)
unfolding unregister_all
unregister_all_cases m calls gid g h =
    let (a, b, c, d, e) = rest m calls in (found m calls h, a, b, c, d, e)
  where
    found :
        (m : Store) (calls : List (ℕ × ℕ))
        → find gid m.gatherings ≡ some g
        → find gid (unregister_all m calls).gatherings
          ≡ (if is_named calls g.session.gathering.owner_pid gid then none else some g)
    found m [] h = h
    found m ((pid, k) ∷ calls) h =
        elim (Bool-cases (pid == g.session.gathering.owner_pid && k == gid)) [
          | inl e ↦
              let gone = rw e at (unregister_lem m pid k gid g h) in
              rw (unregister_absent (unregister m pid k) calls gid gone, e) refl
          | inr e ↦
              let kept = rw e at (unregister_lem m pid k gid g h) in
              rw (found (unregister m pid k) calls kept, e) refl
        ]

    rest : (m : Store) (calls : List (ℕ × ℕ)) → SameRest m (unregister_all m calls)
    rest m [] = (refl, refl, refl, refl, refl)
    rest m ((pid, k) ∷ calls) =
        let (a, b, c, d, e) = rest (unregister m pid k) calls in
        let (a', b', c', d', e') = unregister-SameRest m pid k in
        (a ∙ a', b ∙ b', c ∙ c', d ∙ d', e ∙ e')

-- When no two gatherings share an id and a player other than 0 takes part in a gathering without being
-- its owner, ending its participation leaves the same under the gathering's id as its disconnect.
pub end_participation-remove_player :
    (m : Store) (pid gid : ℕ) (g : Gathering)
    → (pid == 0) ≡ false
    → Distinct (keys m.gatherings)
    → find gid m.gatherings ≡ some g
    → contains g.participants pid ≡ true
    → (g.session.gathering.owner_pid == pid) ≡ false
    → find gid (end_participation m pid gid).gatherings ≡ find gid (remove_player m pid).gatherings
unfolding end_participation end_found
end_participation-remove_player m pid gid g some_one d h c o =
    rw (remove_player_cases m pid gid g some_one d h, h, c, o)
      (ground (
        arith,
        find-erase gid gid m.gatherings,
        find-insert gid gid (count_participants (without_player g pid)) m.gatherings,
      ))
