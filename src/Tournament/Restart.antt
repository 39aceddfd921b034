-- ===== src/Tournament/Restart.antt =====
-- nextendo-nex/tournament.go: a restart, which restores the tournaments from what was written.
use nextendo_mk8d_matchmakin.Base.{
  ℕ, ◌+◌, ◌%◌, ◌^◌, ◌≤◌, ◌<◌, ◌≡◌, refl, ap, ◌∙◌, sym, ◌==◌, leb, if◌then◌else◌, true, false, List,
  [], ◌∷◌, ◌++◌, arith,
}
use nextendo_mk8d_matchmakin.Base.Lists.{contains, All, Distinct, contains-append}
use nextendo_mk8d_matchmakin.Base.Maps.{Table, insert, keys, Every}
use nextendo_mk8d_matchmakin.Tournament.Blob.{Tournament, valid_stored_tournament}
use nextendo_mk8d_matchmakin.Tournament.Store.{
  Tournaments, no_tournaments, restore, restore_one, snapshot_values, flush,
}
use mathlib.Core.Path.{subst}
use mathlib.Core.List.{append_assoc, append-nil}
use nextendo_mk8d_matchmakin.Tournament.Invariant.{IsStored, TournamentsOk, weaken}

-- The counter after an entry of the file.
abbrev next_after : Tournaments → Tournament → ℕ
next_after ts t = if leb ts.next_id t.id then (t.id + 1) % 2 ^ 32 else ts.next_id

-- An entry that fails the check, with an id.
abbrev IsQuarantined : Tournament → Type 0
IsQuarantined t = (valid_stored_tournament t ≡ false) × ((t.id == 0) ≡ false)

restore_one_quarantined :
    (ts : Tournaments) (t : Tournament)
    → IsQuarantined t
    → restore_one ts t
      ≡ record ts { quarantined = ts.quarantined ++ (t ∷ []); next_id = next_after ts t }
unfolding restore_one
restore_one_quarantined ts t (v, z) = rw (v, z)

restore_quarantined :
    (ts : Tournaments) (q list : List Tournament)
    → All IsQuarantined q
    → ts.next_id < 2 ^ 32
    → (n : ℕ) × (n < 2 ^ 32)
      × (restore ts (q ++ list)
          ≡ restore (record ts { quarantined = ts.quarantined ++ q; next_id = n }) list)
unfolding restore
restore_quarantined ts [] list a fits = (ts.next_id, fits, rw (append-nil ts.quarantined))
restore_quarantined ts (t ∷ q) list a fits =
    let ts' = record ts { quarantined = ts.quarantined ++ (t ∷ []); next_id = next_after ts t } in
    let (n, small, e) = restore_quarantined ts' q list a.1 (ground arith) in
    (
      n,
      small,
      ap (λ (x : Tournaments). restore x (q ++ list)) (restore_one_quarantined ts t a.0)
          ∙ (e
              ∙ ap
                  (λ (qs : List Tournament).
                    restore (record ts { quarantined = qs; next_id = n }) list)
                  (append_assoc ts.quarantined (t ∷ []) q)),
    )

insert_fresh :
    (k : ℕ) (t : Tournament) (m : Table Tournament)
    → contains (keys m) k ≡ false
    → insert k t m ≡ m ++ ((k, t) ∷ [])
insert_fresh k t [] h = refl
insert_fresh k t ((j, w) ∷ m) h = ground (arith, insert_fresh k t m)

valid_nonzero : (t : Tournament) → valid_stored_tournament t ≡ true → (t.id == 0) ≡ false
unfolding valid_stored_tournament
valid_nonzero t h = ground arith

restore_one_stored :
    (ts : Tournaments) (n k : ℕ) (t : Tournament)
    → IsStored n k t
    → contains (keys ts.by_id) k ≡ false
    → restore_one ts t ≡ record ts { by_id = ts.by_id ++ ((k, t) ∷ []); next_id = next_after ts t }
unfolding restore_one
restore_one_stored ts n k t s fresh =
    rw (s.valid, valid_nonzero t s.valid)
      (ap (λ (m : Table Tournament). record ts { by_id = m; next_id = next_after ts t })
        (ap (λ (i : ℕ). insert i t ts.by_id) s.same_id ∙ insert_fresh k t ts.by_id fresh))

-- No id of the second table stands in the first one.
abbrev Disjoint : Table Tournament → Table Tournament → Type 0
Disjoint a m = All (λ k. contains (keys a) k ≡ false) (keys m)

keys-append : (a m : Table Tournament) → keys (a ++ m) ≡ keys a ++ keys m
keys-append [] m = refl
keys-append ((k, t) ∷ a) m = ap (λ ks. k ∷ ks) (keys-append a m)

Disjoint-snoc :
    (a m : Table Tournament) (k : ℕ) (t : Tournament)
    → contains (keys m) k ≡ false
    → Disjoint a m
    → Disjoint (a ++ ((k, t) ∷ [])) m
Disjoint-snoc a [] k t h d = tt
Disjoint-snoc a ((j, w) ∷ m) k t h d = (
  rw (keys-append a ((k, t) ∷ []), contains-append (keys a) (k ∷ []) j, d.0) (ground arith),
  Disjoint-snoc a m k t (ground arith) d.1,
)

Every-append :
    (n : ℕ) (a m : Table Tournament)
    → Every (IsStored n) a
    → Every (IsStored n) m
    → Every (IsStored n) (a ++ m)
Every-append n [] m ea em = em
Every-append n ((k, t) ∷ a) m ea em = (ea.0, Every-append n a m ea.1 em)

-- What restoring stored tournaments yields: they are stored behind those that are there.
record Restored (ts after : Tournaments) (m : Table Tournament) : Type 0 where
  by_id : after.by_id ≡ ts.by_id ++ m
  quarantined : after.quarantined ≡ ts.quarantined
  stored : Every (IsStored after.next_id) after.by_id
  fits : after.next_id < 2 ^ 32

restore_stored :
    (ts : Tournaments) (n : ℕ) (m : Table Tournament)
    → n < 2 ^ 32
    → ts.next_id < 2 ^ 32
    → Every (IsStored ts.next_id) ts.by_id
    → Every (IsStored n) m
    → Distinct (keys m)
    → Disjoint ts.by_id m
    → Restored ts (restore ts (snapshot_values m)) m
unfolding restore
restore_stored ts n [] hn small before em d dis = record {
  by_id = rw (append-nil ts.by_id);
  quarantined = refl;
  stored = before;
  fits = small;
}
restore_stored ts n ((k, t) ∷ m) hn small before em d dis =
    let s = em.0 in
    let next : next_after ts t < 2 ^ 32 = ground (arith, s.used, s.same_id) in
    let above : ts.next_id ≤ next_after ts t = ground (arith, s.used, s.same_id) in
    let mine : k < next_after ts t = ground (arith, s.used, s.same_id) in
    let here : IsStored (next_after ts t) k t = record {
      same_id = s.same_id;
      valid = s.valid;
      distinct = s.distinct;
      used = mine;
    } in
    let ts' = record ts { by_id = ts.by_id ++ ((k, t) ∷ []); next_id = next_after ts t } in
    let r =
      restore_stored ts' n m hn next
        (Every-append (next_after ts t) ts.by_id ((k, t) ∷ [])
          (weaken ts.next_id (next_after ts t) ts.by_id above before) (here, tt))
        em.1 d.1 (Disjoint-snoc ts.by_id m k t d.0 dis.1) in
    let first =
      ap (λ (x : Tournaments). restore x (snapshot_values m))
        (restore_one_stored ts n k t s dis.0) in
    subst (λ (x : Tournaments). Restored ts x ((k, t) ∷ m)) (sym first)
      (record {
        by_id = r.by_id ∙ append_assoc ts.by_id ((k, t) ∷ []) m;
        quarantined = r.quarantined;
        stored = r.stored;
        fits = r.fits;
      })

-- What a process restores when the file was written in the given state.
unfoldable pub restart : Tournaments → Tournaments
restart ts = restore no_tournaments (flush ts)

pub restart_kept :
    (ts : Tournaments)
    → TournamentsOk ts
    → ((restart ts).by_id ≡ ts.by_id)
      × ((restart ts).quarantined ≡ ts.quarantined)
      × TournamentsOk (restart ts)
unfolding restart flush
restart_kept ts ok =
    let (n, small, e) =
      restore_quarantined no_tournaments ts.quarantined (snapshot_values ts.by_id) ok.quarantined
        (omega arith) in
    let from : Tournaments = record { by_id = []; quarantined = ts.quarantined; next_id = n } in
    let r =
      restore_stored from ts.next_id ts.by_id ok.fits small tt ok.stored ok.apart
        (nothing ts.by_id) in
    subst
      (λ (x : Tournaments).
        (x.by_id ≡ ts.by_id) × (x.quarantined ≡ ts.quarantined) × TournamentsOk x)
      (sym e)
      (
        r.by_id,
        r.quarantined,
        record {
          stored = r.stored;
          apart = rw r.by_id ok.apart;
          bounded = rw r.by_id ok.bounded;
          fits = r.fits;
          quarantined = rw r.quarantined ok.quarantined;
        },
      )
  where
    nothing : (m : Table Tournament) → Disjoint [] m
    nothing [] = tt
    nothing ((k, t) ∷ m) = (refl, nothing m)
