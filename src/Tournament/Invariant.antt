-- ===== src/Tournament/Invariant.antt =====
-- nextendo-nex/tournament.go: what holds of the stored tournaments, and that each call keeps it.
use nextendo_mk8d_matchmakin.Base.{
  ℕ, ◌+◌, ◌%◌, ◌^◌, ◌≤◌, ◌<◌, ◌≡◌, refl, ◌∙◌, ◌==◌, ltb, leb, if◌then◌else◌, true, false, not, ◌||◌,
  some, List, [], ◌∷◌, ◌++◌, arith, inl, inr, Bool-cases, Option-cases,
}
use nextendo_mk8d_matchmakin.Base.Lists.{length, contains, All, Distinct, snoc-Distinct}
use nextendo_mk8d_matchmakin.Base.Maps.{
  Table, find, insert, erase, has, keys, length-insert, length-erase_le, has-find, Every,
  Every-find, Every-insert, Every-erase,
}
use nextendo_mk8d_matchmakin.Wire.Out.{Bytes}
use nextendo_mk8d_matchmakin.Tournament.Blob.{
  Tournament, tournament_code_offset, valid_stored_tournament,
}
use nextendo_mk8d_matchmakin.Tournament.Store.{
  Tournaments, Draw, new_tournament, has_empty_code, create, tournament_by_id, join, join_stored,
  delete, delete_stored,
}

-- A tournament as it may be stored under an id below `next`.
pub record IsStored (next id : ℕ) (t : Tournament) : Type 0 where
  pub same_id : t.id ≡ id
  pub valid : valid_stored_tournament t ≡ true
  pub distinct : Distinct t.participants
  pub used : id < next

pub record TournamentsOk (ts : Tournaments) : Type 0 where
  pub stored : Every (IsStored ts.next_id) ts.by_id
  pub apart : Distinct (keys ts.by_id)
  pub bounded : length ts.by_id ≤ 2000
  pub fits : ts.next_id < 2 ^ 32
  pub quarantined :
      All (λ t. (valid_stored_tournament t ≡ false) × ((t.id == 0) ≡ false)) ts.quarantined

pub weaken :
    (n n' : ℕ) (m : Table Tournament) → n ≤ n' → Every (IsStored n) m → Every (IsStored n') m
weaken n n' [] h e = tt
weaken n n' ((k, t) ∷ m) h e = (
  record {
    same_id = e.0.same_id;
    valid = e.0.valid;
    distinct = e.0.distinct;
    used = omega (arith, e.0.used);
  },
  weaken n n' m h e.1,
)

contains-keys-insert :
    (k q : ℕ) (t : Tournament) (m : Table Tournament)
    → contains (keys (insert k t m)) q ≡ (k == q || contains (keys m) q)
contains-keys-insert k q t [] = refl
contains-keys-insert k q t ((j, w) ∷ m) = ground (arith, contains-keys-insert k q t m)

keys-insert-Distinct :
    (k : ℕ) (t : Tournament) (m : Table Tournament)
    → Distinct (keys m)
    → Distinct (keys (insert k t m))
keys-insert-Distinct k t [] d = (refl, tt)
keys-insert-Distinct k t ((j, w) ∷ m) d = elim (Bool-cases (j == k)) [
  | inl e ↦ rw e (ground arith)
  | inr e ↦ rw e (ground (arith, contains-keys-insert k j t m), keys-insert-Distinct k t m d.1)
]

contains-keys-erase :
    (k q : ℕ) (m : Table Tournament)
    → contains (keys (erase k m)) q ≡ (if k == q then false else contains (keys m) q)
contains-keys-erase k q [] = ground arith
contains-keys-erase k q ((j, w) ∷ m) = ground (arith, contains-keys-erase k q m)

keys-erase-Distinct :
    (k : ℕ) (m : Table Tournament) → Distinct (keys m) → Distinct (keys (erase k m))
keys-erase-Distinct k [] d = tt
keys-erase-Distinct k ((j, w) ∷ m) d = elim (Bool-cases (j == k)) [
  | inl e ↦ rw e (keys-erase-Distinct k m d.1)
  | inr e ↦ rw e (ground (arith, contains-keys-erase k j m), keys-erase-Distinct k m d.1)
]

length-insert_le :
    (k : ℕ) (t : Tournament) (m : Table Tournament) → length (insert k t m) ≤ length m + 1
length-insert_le k t m = elim (Bool-cases (has k m)) [
  | inl e ↦ omega (arith, rw e at (length-insert k t m))
  | inr e ↦ omega (arith, rw e at (length-insert k t m))
]

pub create-TournamentsOk :
    (ts : Tournaments) (owner : ℕ) (payload : Bytes) (d : Draw)
    → ts.next_id + 1 < 2 ^ 32
    → TournamentsOk ts
    → TournamentsOk (create ts owner payload d).0
unfolding create
create-TournamentsOk ts owner payload d fits ok =
    elim (Bool-cases (
      length payload == 0
      || ltb 4096 (length payload)
      || not (has_empty_code (tournament_code_offset payload) payload))) [
        | inl e ↦ rw e ok
        | inr e ↦ elim (Bool-cases (leb 2000 (length ts.by_id))) [
          | inl full ↦ rw (e, full) ok
          | inr room ↦
              elim (Bool-cases
                (valid_stored_tournament (new_tournament ts.next_id owner payload d))) [
                  | inl v ↦ rw (e, room, v) (entered v (ground arith))
                  | inr v ↦
                      rw (e, room, v)
                        (record {
                          stored = grown;
                          apart = ok.apart;
                          bounded = ok.bounded;
                          fits = omega (arith, next);
                          quarantined = ok.quarantined;
                        })
                ]
        ]
      ]
  where
    next : (ts.next_id + 1) % 2 ^ 32 ≡ ts.next_id + 1
    next = omega arith

    grown : Every (IsStored ((ts.next_id + 1) % 2 ^ 32)) ts.by_id
    grown = weaken ts.next_id _ ts.by_id (omega (arith, next)) ok.stored

    entered :
        valid_stored_tournament (new_tournament ts.next_id owner payload d) ≡ true
        → length ts.by_id < 2000
        → TournamentsOk (record ts {
          next_id = (ts.next_id + 1) % 2 ^ 32;
          by_id = insert ts.next_id (new_tournament ts.next_id owner payload d) ts.by_id;
        })
    entered v room = record {
      stored =
          Every-insert (IsStored ((ts.next_id + 1) % 2 ^ 32)) ts.next_id _ ts.by_id
            (record {
              same_id = unfold new_tournament in refl;
              valid = v;
              distinct = unfold new_tournament in (refl, tt);
              used = omega (arith, next);
            })
            grown;
      apart = keys-insert-Distinct ts.next_id _ ts.by_id ok.apart;
      bounded = omega (arith, length-insert_le ts.next_id _ ts.by_id);
      fits = omega (arith, next);
      quarantined = ok.quarantined;
    }

pub tournament_by_id_stored :
    (ts : Tournaments) (id : ℕ) {t : Tournament}
    → tournament_by_id ts id ≡ some t
    → find id ts.by_id ≡ some t
unfolding tournament_by_id
tournament_by_id_stored ts id {t} h = elim (Option-cases (find id ts.by_id)) [
  | inl e ↦ absurd (cc (rw e at h))
  | inr (u, e) ↦ elim (Bool-cases (valid_stored_tournament u)) [
    | inl v ↦ e ∙ rw (e, v) at h
    | inr v ↦ absurd (cc (rw (e, v) at h))
  ]
]

-- Validity does not read the participants.
valid_participants :
    (t : Tournament) (ps : List ℕ)
    → valid_stored_tournament (record t { participants = ps }) ≡ valid_stored_tournament t
unfolding valid_stored_tournament
valid_participants t ps = refl

pub join-TournamentsOk :
    (ts : Tournaments) (id pid : ℕ) → TournamentsOk ts → TournamentsOk (join ts id pid).0
unfolding join join_stored
join-TournamentsOk ts id pid ok = elim (Option-cases (tournament_by_id ts id)) [
  | inl e ↦ rw e ok
  | inr (t, e) ↦ elim (Bool-cases (contains t.participants pid)) [
    | inl c ↦ rw (e, c) ok
    | inr c ↦
        rw (e, c)
          (joined t c (tournament_by_id_stored ts id e) (
            Every-find (IsStored ts.next_id) id ts.by_id ok.stored
              (tournament_by_id_stored ts id e)))
  ]
]
  where
    joined :
        (t : Tournament)
        → contains t.participants pid ≡ false
        → find id ts.by_id ≡ some t
        → IsStored ts.next_id id t
        → TournamentsOk (record ts {
          by_id = insert id (record t { participants = t.participants ++ (pid ∷ []) }) ts.by_id;
        })
    joined t c e s = record {
      stored =
          Every-insert (IsStored ts.next_id) id _ ts.by_id
            (record {
              same_id = s.same_id;
              valid = valid_participants t (t.participants ++ (pid ∷ [])) ∙ s.valid;
              distinct = snoc-Distinct t.participants pid s.distinct c;
              used = s.used;
            })
            ok.stored;
      apart = keys-insert-Distinct id _ ts.by_id ok.apart;
      fits = ok.fits;
      bounded =
          let there = has-find id ts.by_id e in
          omega (
            arith,
            ok.bounded,
            rw there at (
                length-insert id (record t { participants = t.participants ++ (pid ∷ []) })
                  ts.by_id),
          );
      quarantined = ok.quarantined;
    }

pub delete-TournamentsOk :
    (ts : Tournaments) (id pid : ℕ) → TournamentsOk ts → TournamentsOk (delete ts id pid).0
unfolding delete delete_stored
delete-TournamentsOk ts id pid ok = elim (Option-cases (tournament_by_id ts id)) [
  | inl e ↦ rw e ok
  | inr (t, e) ↦ elim (Bool-cases (t.owner == pid)) [
    | inl o ↦
        rw (e, o)
          (record {
            stored = Every-erase (IsStored ts.next_id) id ts.by_id ok.stored;
            apart = keys-erase-Distinct id ts.by_id ok.apart;
            fits = ok.fits;
            bounded = omega (arith, ok.bounded, length-erase_le id ts.by_id);
            quarantined = ok.quarantined;
          })
    | inr o ↦ rw (e, o) ok
  ]
]
