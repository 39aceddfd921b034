-- ===== src/Matchmaking/Selection.antt =====
-- nextendo-nex/matchmaking_handlers.go, `autoMatchmake`: which gathering it takes.
use nextendo_mk8d_matchmakin.Base.{
  ℕ, ◌+◌, ◌^◌, ◌<◌, ◌≡◌, ◌==◌, ltb, true, false, none, some, List, [], ◌∷◌, arith, inl, inr,
  Option-cases, Bool-cases,
}
use nextendo_mk8d_matchmakin.Base.Lists.{length, All, contains, Distinct}
use nextendo_mk8d_matchmakin.Base.Maps.{find, find-insert, length-keep_values_le}
use nextendo_mk8d_matchmakin.Session.Types.{Session}
use nextendo_mk8d_matchmakin.Endpoint.State.{Connection}
use nextendo_mk8d_matchmakin.Matchmaking.State.{Gathering, Store}
use nextendo_mk8d_matchmakin.Matchmaking.World.{World}
use nextendo_mk8d_matchmakin.Matchmaking.NatRules.{CanReach, gathering_nat_compatible_iff}
use nextendo_mk8d_matchmakin.Matchmaking.Reservations.{
  expire_join_reservations, occupied_seats, max_seats,
}
use nextendo_mk8d_matchmakin.Matchmaking.Seats.{seats, ending_after, length-keep_values}
use nextendo_mk8d_matchmakin.Matchmaking.Create.{put_gathering}
use nextendo_mk8d_matchmakin.Matchmaking.Join.{
  matches_search, try_candidate, select_at, select_gathering,
}

-- The gathering runs the wanted mode, is open and without a password, has a seat that neither a
-- participant nor a reservation that ends later takes, and the player can reach all its members.
pub record Suits (w : World) (caller : Connection) (src : Session) (g : Gathering) : Type 0 where
  pub same_mode : g.session.info.game_mode ≡ src.info.game_mode
  pub is_open : g.session.info.open_participation ≡ true
  pub no_password : g.session.info.user_password_enabled ≡ false
  pub free_seat : length g.participants + ending_after (w.clock 0) g.reservations < max_seats g
  pub reachable : All (CanReach w.endpoint caller) g.participants

-- The seats of every stored gathering fit the uint16 that they are compared in.
abbrev pub SeatsFit : Store → Type 0
SeatsFit m = (gid : ℕ) (g : Gathering) → find gid m.gatherings ≡ some g → seats g < 2 ^ 16

try_candidate_sound :
    (w : World) (caller : Connection) (src : Session) (g : Gathering)
    → seats g < 2 ^ 16
    → (try_candidate w caller src g).1 ≡ true
    → Suits w caller src g
unfolding try_candidate matches_search occupied_seats expire_join_reservations
try_candidate_sound w caller src g fits h =
    let fewer = length-keep_values_le (ltb (w.clock 0)) g.reservations in
    let live = length-keep_values (w.clock 0) g.reservations in
    record {
      same_mode = ground arith;
      is_open = ground arith;
      no_password = ground arith;
      free_seat = unfold expire_join_reservations in ground (arith, fewer, live);
      reachable = (gathering_nat_compatible_iff w.endpoint caller g.participants).0 (ground arith);
    }

try_candidate_complete :
    (w : World) (caller : Connection) (src : Session) (g : Gathering)
    → seats g < 2 ^ 16
    → Suits w caller src g
    → (try_candidate w caller src g).1 ≡ true
unfolding try_candidate matches_search occupied_seats expire_join_reservations
try_candidate_complete w caller src g fits s = ground (
  arith,
  s.same_mode,
  s.is_open,
  s.no_password,
  s.free_seat,
  (gathering_nat_compatible_iff w.endpoint caller g.participants).1 s.reachable,
  length-keep_values_le (ltb (w.clock 0)) g.reservations,
  length-keep_values (w.clock 0) g.reservations,
)

-- Trying one gathering leaves the others as they are.
find-put_ne :
    (gid k : ℕ) (g : Gathering) (m : Store)
    → (gid == k) ≡ false
    → find k (put_gathering gid g m).gatherings ≡ find k m.gatherings
find-put_ne gid k g m h = rw (find-insert gid k g m.gatherings, h)

-- Whether the player would be let into a gathering of the store.
abbrev Takes : World → Connection → Session → Store → ℕ → Type 0
Takes w caller src m gid =
    (g : Gathering) × (find gid m.gatherings ≡ some g) × ((try_candidate w caller src g).1 ≡ true)

select_sound :
    (w : World) (caller : Connection) (src : Session) (gids : List ℕ) (m : Store) (gid : ℕ)
    → Distinct gids
    → (select_gathering w caller src gids m).1 ≡ some gid
    → (contains gids gid ≡ true) × Takes w caller src m gid
unfolding select_gathering select_at
select_sound w caller src [] m gid d h = cc
select_sound w caller src (k ∷ gids) m gid d h = elim (Option-cases (find k m.gatherings)) [
  | inl e ↦
      let (later, t) = select_sound w caller src gids m gid d.1 (rw e at h) in
      (rw later (ground arith), t)
  | inr (g, e) ↦
      let tried = try_candidate w caller src g in
      elim (Bool-cases tried.1) [
        | inl t ↦ let same : k ≡ gid = ground arith in (ground arith, (g, rw same at e, t))
        | inr t ↦
            let (later, (g', e', t')) =
              select_sound w caller src gids (put_gathering k tried.0 m) gid d.1 (rw (e, t) at h) in
            let other : (k == gid) ≡ false = ground arith in
            (rw later (ground arith), (g', rw (find-put_ne k gid tried.0 m other) at e', t'))
      ]
]

select_complete :
    (w : World) (caller : Connection) (src : Session) (gids : List ℕ) (m : Store) (gid : ℕ)
    (g : Gathering)
    → Distinct gids
    → (select_gathering w caller src gids m).1 ≡ none
    → contains gids gid ≡ true
    → find gid m.gatherings ≡ some g
    → (try_candidate w caller src g).1 ≡ false
unfolding select_gathering select_at
select_complete w caller src [] m gid g d h c f = cc
select_complete w caller src (k ∷ gids) m gid g d h c f =
    elim (Option-cases (find k m.gatherings)) [
      | inl e ↦ elim (Bool-cases (k == gid)) [
        | inl same ↦ ground (arith, e, f)
        | inr other ↦ select_complete w caller src gids m gid g d.1 (rw e at h) (ground arith) f
      ]
      | inr (g', e) ↦
          let tried = try_candidate w caller src g' in
          elim (Bool-cases tried.1) [
            | inl t ↦ absurd (some_ne_none (rw (e, t) at h))
            | inr t ↦ elim (Bool-cases (k == gid)) [
              | inl same ↦ ground (arith, e, f, t)
              | inr other ↦
                  select_complete w caller src gids (put_gathering k tried.0 m) gid g d.1
                    (rw (e, t) at h) (ground arith) (rw (find-put_ne k gid tried.0 m other) f)
            ]
          ]
    ]
  where
    some_ne_none : {n : ℕ} → some n ≡ none → ⊥
    some_ne_none p = cc

-- When the runtime ranges over each gathering once and all seats fit 16 bits, the gathering that
-- automatic matchmaking selects is stored under the selected id and suits: same game mode, open, no
-- password, a seat left beside participants and live reservations, and every member other than the
-- player has no connection, or a newest one whose NAT behaviour does not keep it apart from the player:
-- not one of the two mappings above 1 while the other's mapping or filtering is above 1.
pub select_gathering-Suits :
    (w : World) (caller : Connection) (src : Session) (m : Store) (gid : ℕ)
    → Distinct w.order
    → SeatsFit m
    → (select_gathering w caller src w.order m).1 ≡ some gid
    → (g : Gathering) × (find gid m.gatherings ≡ some g) × Suits w caller src g
select_gathering-Suits w caller src m gid d fit h =
    let (_, (g, e, t)) = select_sound w caller src w.order m gid d h in
    (g, e, try_candidate_sound w caller src g (fit gid g e) t)

-- Under the same conditions, when nothing is selected, no stored gathering that the runtime ranged
-- over suits.
pub select_gathering-none :
    (w : World) (caller : Connection) (src : Session) (m : Store) (gid : ℕ) (g : Gathering)
    → Distinct w.order
    → SeatsFit m
    → (select_gathering w caller src w.order m).1 ≡ none
    → contains w.order gid ≡ true
    → find gid m.gatherings ≡ some g
    → ¬ Suits w caller src g
select_gathering-none w caller src m gid g d fit h c f s =
    let taken = try_candidate_complete w caller src g (fit gid g f) s in
    let refused = select_complete w caller src w.order m gid g d h c f in
    ground (arith, taken, refused)
