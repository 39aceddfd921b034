-- ===== src/Matchmaking/NatRules.antt =====
-- nextendo-nex/matchmaking_handlers.go: which NAT behaviours automatic matchmaking keeps apart.
use nextendo_mk8d_matchmakin.Base.{
  ℕ, ◌<◌, ◌≡◌, ◌⊎◌, ◌↔◌, refl, ◌==◌, Bool, true, false, none, some, List, [], ◌∷◌, arith, inl, inr,
  Bool-cases, Option-cases,
}
use nextendo_mk8d_matchmakin.Base.Lists.{All}
use nextendo_mk8d_matchmakin.Endpoint.State.{
  Endpoint, Connection, find_connection_by_pid, nat_behaviour,
}
use nextendo_mk8d_matchmakin.Matchmaking.Nat.{
  NatClass, classify_nat, nat_compatible, class_of, pid_nat_class, gathering_nat_compatible,
}

-- Two NAT behaviours, each a mapping and a filtering, are kept apart exactly when one of the mappings
-- depends on the endpoint (is above 1) and the other behaviour has a mapping or a filtering above 1.
pub nat_compatible_refused_iff :
    (am af bm bf : ℕ)
    → (nat_compatible (classify_nat (am, af)) (classify_nat (bm, bf)) ≡ false)
      ↔ ((1 < am) × ((1 < bm) ⊎ (1 < bf)) ⊎ (1 < bm) × ((1 < am) ⊎ (1 < af)))
unfolding nat_compatible classify_nat
nat_compatible_refused_iff am af bm bf = (λ h. ground arith, λ h. ground arith)

-- Two NAT behaviours that keep their consoles apart.
abbrev pub Apart : ℕ × ℕ → ℕ × ℕ → Type 0
Apart (am, af) (bm, bf) = (1 < am) × ((1 < bm) ⊎ (1 < bf)) ⊎ (1 < bm) × ((1 < am) ⊎ (1 < af))

-- The player can reach a member: it is the member, or the member has no connection, or the NAT
-- behaviours of the member's newest connection and of the player's do not keep them apart.
abbrev pub CanReach : Endpoint → Connection → ℕ → Type 0
CanReach e caller pid =
    (pid ≡ caller.pid)
    ⊎ (find_connection_by_pid e pid ≡ none)
    ⊎ (c : Connection) × (find_connection_by_pid e pid ≡ some c)
      × ¬ Apart (nat_behaviour caller) (nat_behaviour c)

reaches :
    (e : Endpoint) (caller : Connection) (pid : ℕ)
    → nat_compatible (classify_nat (nat_behaviour caller)) (pid_nat_class e pid) ≡ true
    → CanReach e caller pid
unfolding pid_nat_class class_of
reaches e caller pid h = elim (Option-cases (find_connection_by_pid e pid)) [
  | inl f ↦ inr (inl f)
  | inr (c, f) ↦
      let (am, af) = nat_behaviour caller in
      let (bm, bf) = nat_behaviour c in
      let fine = rw f at h in
      inr (
        inr (
          c,
          f,
          λ apart.
              let refused = (nat_compatible_refused_iff am af bm bf).1 apart in
              true_not_false fine refused,
        ))
]
  where
    true_not_false : {b : Bool} → b ≡ true → b ≡ false → ⊥
    true_not_false p q = cc

reached :
    (e : Endpoint) (caller : Connection) (pid : ℕ)
    → CanReach e caller pid
    → (pid == caller.pid) ≡ false
    → nat_compatible (classify_nat (nat_behaviour caller)) (pid_nat_class e pid) ≡ true
unfolding pid_nat_class class_of nat_compatible
reached e caller pid (inl same) o = absurd (ground arith)
reached e caller pid (inr (inl f)) o = rw f (unknown (classify_nat (nat_behaviour caller)))
  where
    unknown : (a : NatClass) → nat_compatible a (class_of none) ≡ true
    unknown a = ground arith
reached e caller pid (inr (inr (c, f, fine))) o =
    let (am, af) = nat_behaviour caller in
    let (bm, bf) = nat_behaviour c in
    rw f (elim (Bool-cases (nat_compatible (classify_nat (am, af)) (classify_nat (bm, bf)))) [
      | inl t ↦ t
      | inr t ↦ absurd (fine ((nat_compatible_refused_iff am af bm bf).0 t))
    ])

-- The check of a gathering passes exactly when the player can reach every member.
pub gathering_nat_compatible_iff :
    (e : Endpoint) (caller : Connection) (members : List ℕ)
    → (gathering_nat_compatible e (classify_nat (nat_behaviour caller)) members caller.pid ≡ true)
      ↔ All (CanReach e caller) members
unfolding gathering_nat_compatible
gathering_nat_compatible_iff e caller members = (forth members, back members)
  where
    forth :
        (ms : List ℕ)
        → gathering_nat_compatible e (classify_nat (nat_behaviour caller)) ms caller.pid ≡ true
        → All (CanReach e caller) ms
    forth [] h = tt
    forth (x ∷ xs) h = elim (Bool-cases (x == caller.pid)) [
      | inl t ↦ (inl (ground arith), forth xs (ground arith))
      | inr t ↦ (reaches e caller x (ground arith), forth xs (ground arith))
    ]

    back :
        (ms : List ℕ)
        → All (CanReach e caller) ms
        → gathering_nat_compatible e (classify_nat (nat_behaviour caller)) ms caller.pid ≡ true
    back [] a = refl
    back (x ∷ xs) a = elim (Bool-cases (x == caller.pid)) [
      | inl t ↦ rw t (back xs a.1)
      | inr t ↦ rw (t, reached e caller x a.0 t) (back xs a.1)
    ]
