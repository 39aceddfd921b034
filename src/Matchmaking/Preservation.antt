-- ===== src/Matchmaking/Preservation.antt =====
-- nextendo-nex/matchmaking_handlers.go: the invariant of the store, and the handlers that let players
-- leave or change gatherings in place.
use nextendo_mk8d_matchmakin.Base.{
  ℕ, ◌≤◌, ◌<◌, ◌≡◌, refl, ◌==◌, false, ◌||◌, Option, none, some, List, [], ◌∷◌, arith, inl, inr,
  Option-cases, Bool-cases,
}
use nextendo_mk8d_matchmakin.Base.Lists.{
  length, remove, Distinct, remove-Distinct, length-remove_le, length-set, get_or, set,
  swap-Distinct,
}
use nextendo_mk8d_matchmakin.Base.Maps.{
  Table, find, Every, Every-find, Every-erase, length-erase_le,
}
use nextendo_mk8d_matchmakin.Session.Types.{SessionInfo}
use nextendo_mk8d_matchmakin.Matchmaking.State.{Gathering, Store, Codes}
use nextendo_mk8d_matchmakin.Matchmaking.Leave.{
  unregister, unregister_found, end_participation, end_found, without_player, leave_gathering,
  keep_or_drop, leave_all, remove_player, is_empty,
}
use nextendo_mk8d_matchmakin.Matchmaking.Update.{with_info, swap_first, index_of, migrate_to}
use nextendo_mk8d_matchmakin.Matchmaking.Invariant.{
  GatheringOk, Consistent, StoreOk, count-Consistent, put-StoreOk,
}

pub unregister-StoreOk : (m : Store) (pid gid : ℕ) → StoreOk m → StoreOk (unregister m pid gid)
unfolding unregister unregister_found
unregister-StoreOk m pid gid ok = elim (Option-cases (find gid m.gatherings)) [
  | inl e ↦ rw e ok
  | inr (g, e) ↦ elim (Bool-cases (g.session.gathering.owner_pid == pid)) [
    | inl t ↦ rw (e, t) (Every-erase Consistent gid m.gatherings ok)
    | inr t ↦ rw (e, t) ok
  ]
]

without-GatheringOk :
    (gid pid : ℕ) (g : Gathering)
    → GatheringOk gid g
    → 1 ≤ length (remove g.participants pid)
    → GatheringOk gid (without_player g pid)
without-GatheringOk gid pid g c some_left = record {
  same_id = c.same_id;
  distinct = remove-Distinct g.participants pid c.distinct;
  populated = some_left;
  bounded = λ h.
      omega (
        arith,
        c.bounded h,
        length-remove_le g.participants pid,
        length-erase_le pid g.reservations,
      );
}

nonempty : (xs : List ℕ) → is_empty xs ≡ false → 1 ≤ length xs
nonempty [] h = cc
nonempty (x ∷ xs) h = omega arith

pub end_participation-StoreOk :
    (m : Store) (pid gid : ℕ) → StoreOk m → StoreOk (end_participation m pid gid)
unfolding end_participation end_found
end_participation-StoreOk m pid gid ok = elim (Option-cases (find gid m.gatherings)) [
  | inl e ↦ rw e ok
  | inr (g, e) ↦ elim (Bool-cases (is_empty (remove g.participants pid))) [
    | inl t ↦ rw (e, t) (Every-erase Consistent gid m.gatherings ok)
    | inr t ↦
        rw (e, t)
          (put-StoreOk gid _ m
            (count-Consistent gid _ (
              without-GatheringOk gid pid g (Every-find Consistent gid m.gatherings ok e).sound
                (nonempty _ t)))
            ok)
  ]
]

-- What is left of a gathering, if anything, is consistent.
abbrev LeftOk : ℕ → Option Gathering → Type 0
LeftOk gid none = Unit {0}
LeftOk gid (some g) = Consistent gid g

leave_gathering-LeftOk :
    (gid pid : ℕ) (g : Gathering) → Consistent gid g → LeftOk gid (leave_gathering pid g)
unfolding leave_gathering
leave_gathering-LeftOk gid pid g c =
    let left = length (remove g.participants pid) in
    elim (Bool-cases (left == length g.participants)) [
      | inl same ↦ rw same (unchanged (ground arith))
      | inr fewer ↦ elim (Bool-cases (left == 0 || g.session.gathering.owner_pid == pid)) [
        | inl gone ↦ rw (fewer, gone) tt
        | inr stays ↦
            rw (fewer, stays)
              (count-Consistent gid _ (without-GatheringOk gid pid g c.sound (ground arith)))
      ]
    ]
  where
    unchanged :
        length (remove g.participants pid) ≡ length g.participants
        → Consistent gid (without_player g pid)
    unchanged e = record {
      sound = without-GatheringOk gid pid g c.sound (omega (arith, c.sound.populated));
      counted = rw e c.counted;
    }

leave_all-Every :
    (pid : ℕ) (gs : Table Gathering) (codes : Codes)
    → Every Consistent gs
    → Every Consistent (leave_all pid gs codes).0
unfolding leave_all keep_or_drop
leave_all-Every pid [] codes ok = tt
leave_all-Every pid ((gid, g) ∷ gs) codes ok =
    step (leave_gathering pid g) (leave_gathering-LeftOk gid pid g ok.0) (leave_all pid gs codes)
      (leave_all-Every pid gs codes ok.1)
  where
    step :
        (left : Option Gathering)
        → LeftOk gid left
        → (rest : Table Gathering × Codes) → Every Consistent rest.0
        → Every Consistent (keep_or_drop gid g left rest).0
    step none l rest r = r
    step (some g') l rest r = (l, r)

pub remove_player-StoreOk : (m : Store) (pid : ℕ) → StoreOk m → StoreOk (remove_player m pid)
unfolding remove_player
remove_player-StoreOk m pid ok = elim (Bool-cases (pid == 0)) [
  | inl e ↦ rw e ok
  | inr e ↦ rw e (leave_all-Every pid m.gatherings m.by_code ok)
]

-- A change of the session's own level that keeps the announced number keeps a gathering consistent.
pub with_info-Consistent :
    (gid : ℕ) (g : Gathering) (i : SessionInfo)
    → i.num_participants ≡ g.session.info.num_participants
    → Consistent gid g
    → Consistent gid (with_info g i)
with_info-Consistent gid g i e c = record {
  sound = record {
    same_id = c.sound.same_id;
    distinct = c.sound.distinct;
    populated = c.sound.populated;
    bounded = c.sound.bounded;
  };
  counted = rw e c.counted;
}

index_of-lt : (p : ℕ) (xs : List ℕ) {i : ℕ} → index_of p xs ≡ some i → i < length xs
unfolding index_of
index_of-lt p [] h = cc
index_of-lt p (x ∷ xs) {i} h = elim (Option-cases (index_of p xs)) [
  | inl e ↦ ground arith
  | inr (j, e) ↦ ground (arith, index_of-lt p xs e)
]

swap_first-length : (xs : List ℕ) (i : ℕ) → length (swap_first xs i) ≡ length xs
swap_first-length xs i = omega (
  arith,
  length-set (set xs 0 (get_or xs i 0)) i (get_or xs 0 0),
  length-set xs 0 (get_or xs i 0),
)

-- A migration reorders the participants: their number stays, and they stay distinct.
pub migrate_to-keeps :
    (xs cs : List ℕ)
    → (length (migrate_to xs cs) ≡ length xs) × (Distinct xs → Distinct (migrate_to xs cs))
unfolding migrate_to
migrate_to-keeps xs [] = (refl, λ d. d)
migrate_to-keeps xs (c ∷ cs) = elim (Option-cases (index_of c xs)) [
  | inl e ↦ rw e (migrate_to-keeps xs cs)
  | inr (i, e) ↦ rw e (swap_first-length xs i, λ d. swap-Distinct xs i (index_of-lt c xs e) d)
]

pub migrate-Consistent :
    (gid : ℕ) (g : Gathering) (cs : List ℕ)
    → Consistent gid g
    → Consistent gid (record g { participants = migrate_to g.participants cs })
migrate-Consistent gid g cs c =
    let (same, apart) = migrate_to-keeps g.participants cs in
    record {
      sound = record {
        same_id = c.sound.same_id;
        distinct = apart c.sound.distinct;
        populated = omega (arith, c.sound.populated);
        bounded = λ h. omega (arith, c.sound.bounded h);
      };
      counted = rw same c.counted;
    }
