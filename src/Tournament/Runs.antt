-- ===== src/Tournament/Runs.antt =====
-- nextendo-nex/tournament.go: the store of tournaments after any calls and restarts, and what a call
-- does to it then.
use nextendo_mk8d_matchmakin.Base.{
  ℕ, ◌+◌, ◌^◌, ◌≤◌, ◌<◌, ◌≡◌, ◌==◌, if◌then◌else◌, true, ◌&&◌, none, some, [], ◌∷◌, ◌++◌, arith,
  inl, inr, Bool-cases,
}
use nextendo_mk8d_matchmakin.Base.Lists.{length, contains, Distinct}
use nextendo_mk8d_matchmakin.Base.Maps.{find, find-insert, find-erase, Every-find}
use nextendo_mk8d_matchmakin.Wire.Out.{Bytes}
use nextendo_mk8d_matchmakin.Tournament.Blob.{Tournament, valid_stored_tournament}
use nextendo_mk8d_matchmakin.Tournament.Store.{
  Tournaments, Draw, no_tournaments, create, tournament_by_id, join, join_stored, delete,
  delete_stored,
}
use nextendo_mk8d_matchmakin.Tournament.Invariant.{
  IsStored, TournamentsOk, create-TournamentsOk, join-TournamentsOk, delete-TournamentsOk,
}
use nextendo_mk8d_matchmakin.Tournament.Restart.{restart, restart_kept}

-- One creation, registration, deletion or restart, while the ids fit 32 bits. A restart goes on from
-- what was written in the state that it starts from: one that loses later changes is a restart of an
-- earlier state.
pub data Step (ts : Tournaments) : Tournaments → Type 0 where
  creates :
      (owner : ℕ) (payload : Bytes) (d : Draw)
      → ts.next_id + 1 < 2 ^ 32
      → Step ts (create ts owner payload d).0
  joins : (id pid : ℕ) → Step ts (join ts id pid).0
  deletes : (id pid : ℕ) → Step ts (delete ts id pid).0
  restarts : Step ts (restart ts)

pub data Reach (ts : Tournaments) : Tournaments → Type 0 where
  here : Reach ts ts
  next : {ts' ts'' : Tournaments} → Reach ts ts' → Step ts' ts'' → Reach ts ts''

Step-TournamentsOk : {ts ts' : Tournaments} → Step ts ts' → TournamentsOk ts → TournamentsOk ts'
Step-TournamentsOk {ts} (creates owner payload d h) ok =
    create-TournamentsOk ts owner payload d h ok
Step-TournamentsOk {ts} (joins id pid) ok = join-TournamentsOk ts id pid ok
Step-TournamentsOk {ts} (deletes id pid) ok = delete-TournamentsOk ts id pid ok
Step-TournamentsOk {ts} restarts ok = (restart_kept ts ok).2

Reach-TournamentsOk : {ts ts' : Tournaments} → Reach ts ts' → TournamentsOk ts → TournamentsOk ts'
Reach-TournamentsOk here ok = ok
Reach-TournamentsOk (next r s) ok = Step-TournamentsOk s (Reach-TournamentsOk r ok)

reached : {ts : Tournaments} → Reach no_tournaments ts → TournamentsOk ts
reached r = Reach-TournamentsOk r (record {
  stored = tt;
  apart = tt;
  bounded = omega arith;
  fits = omega arith;
  quarantined = tt;
})

-- After any creations, with any structures and draws, registrations, deletions and restarts, starting
-- from the empty store, while the ids fit 32 bits: there are at most 2000 tournaments, and one that is
-- found under an id has this id, passes the check, has no participant twice, and the next id is
-- above it.
pub Reach-stored :
    (ts : Tournaments) (id : ℕ) (t : Tournament)
    → Reach no_tournaments ts
    → find id ts.by_id ≡ some t
    → (length ts.by_id ≤ 2000)
      × (t.id ≡ id)
      × (valid_stored_tournament t ≡ true)
      × Distinct t.participants
      × (id < ts.next_id)
Reach-stored ts id t r e =
    let ok = reached r in
    let s = Every-find (IsStored ts.next_id) id ts.by_id ok.stored e in
    (ok.bounded, s.same_id, s.valid, s.distinct, s.used)

by_id_found :
    (ts : Tournaments) (id : ℕ) (t : Tournament)
    → find id ts.by_id ≡ some t
    → valid_stored_tournament t ≡ true
    → tournament_by_id ts id ≡ some t
unfolding tournament_by_id
by_id_found ts id t e v = rw (e, v)

-- After any such calls, a deletion takes a tournament away exactly when the caller owns it, and no
-- other one; a registration adds the player behind the other participants unless it is among them,
-- and changes no other tournament.
pub delete-join_cases :
    (ts : Tournaments) (id pid : ℕ) (t : Tournament)
    → Reach no_tournaments ts
    → find id ts.by_id ≡ some t
    → (other : ℕ)
    → (find other (delete ts id pid).0.by_id
        ≡ (if id == other && t.owner == pid then none else find other ts.by_id))
      × ((delete ts id pid).1 ≡ (t.owner == pid))
      × (find other (join ts id pid).0.by_id ≡ (
          if id == other
          then some (record t {
            participants =
                if contains t.participants pid
                then t.participants
                else t.participants ++ (pid ∷ []);
          })
          else find other ts.by_id))
      × ((join ts id pid).1 ≡ true)
unfolding delete delete_stored join join_stored
delete-join_cases ts id pid t r e other =
    let v = (Every-find (IsStored ts.next_id) id ts.by_id (reached r).stored e).valid in
    rw (by_id_found ts id t e v) (deleted, told, joined, answered)
  where
    deleted :
        find other (delete_stored ts id pid (some t)).0.by_id
        ≡ (if id == other && t.owner == pid then none else find other ts.by_id)
    deleted = ground (arith, find-erase id other ts.by_id)

    told : (delete_stored ts id pid (some t)).1 ≡ (t.owner == pid)
    told = ground arith

    joined : find other (join_stored ts id pid (some t)).0.by_id ≡ (
        if id == other
        then some (record t {
          participants =
              if contains t.participants pid then t.participants else t.participants ++ (pid ∷ []);
        })
        else find other ts.by_id)
    joined = elim (Bool-cases (contains t.participants pid)) [
      | inl c ↦ rw c (ground (arith, e))
      | inr c ↦ rw c (find-insert id other _ ts.by_id)
    ]

    answered : (join_stored ts id pid (some t)).1 ≡ true
    answered = ground arith
