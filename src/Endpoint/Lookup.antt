-- ===== src/Endpoint/Lookup.antt =====
-- nextendo-nex/endpoint.go, `FindConnectionByPID`: which of a player's connections is found.
use nextendo_mk8d_matchmakin.Base.{
  ℕ, ◌≤◌, ◌⊎◌, ◌≡◌, refl, ◌==◌, if◌then◌else◌, true, Option, none, some, [], ◌∷◌, arith, inl, inr,
  Bool-cases,
}
use mathlib.Core.Path.{subst}
use nextendo_mk8d_matchmakin.Base.Maps.{Table, find}
use nextendo_mk8d_matchmakin.Endpoint.State.{
  Connection, Endpoint, scan_for_pid, find_connection_by_pid, newer,
}

-- What is found so far is at least as new as the connection with this id.
abbrev Leads : Option Connection → ℕ → Type 0
Leads none id = ⊥
Leads (some best) id = id ≤ best.id

-- What is found so far is a connection of the player.
abbrev Own : ℕ → Option Connection → Type 0
Own pid none = Unit {0}
Own pid (some best) = best.pid ≡ pid

newer-Own :
    (pid : ℕ) (c : Connection) (best : Option Connection)
    → c.pid ≡ pid
    → Own pid best
    → Own pid (newer c best)
newer-Own pid c none h b = h
newer-Own pid c (some best) h b = ground (arith, h, b)

newer-Leads :
    (c : Connection) (best : Option Connection) (id : ℕ)
    → Leads best id ⊎ (c.id ≡ id)
    → Leads (newer c best) id
newer-Leads c none id (inl x) = elim x [ ]
newer-Leads c none id (inr e) = omega (arith, e)
newer-Leads c (some best) id h = ground (arith, h)

scan-Own :
    (pid : ℕ) (newest : Option Connection) (m : Table Connection)
    → Own pid newest
    → Own pid (scan_for_pid pid newest m)
unfolding scan_for_pid
scan-Own pid newest [] h = h
scan-Own pid newest ((k, c) ∷ m) h = elim (Bool-cases (c.pid == pid)) [
  | inl e ↦ rw e (scan-Own pid (newer c newest) m (newer-Own pid c newest (ground arith) h))
  | inr e ↦ rw e (scan-Own pid newest m h)
]

scan-Leads :
    (pid : ℕ) (newest : Option Connection) (m : Table Connection) (id : ℕ)
    → Leads newest id
    → Leads (scan_for_pid pid newest m) id
unfolding scan_for_pid
scan-Leads pid newest [] id h = h
scan-Leads pid newest ((k, c) ∷ m) id h = elim (Bool-cases (c.pid == pid)) [
  | inl e ↦ rw e (scan-Leads pid (newer c newest) m id (newer-Leads c newest id (inl h)))
  | inr e ↦ rw e (scan-Leads pid newest m id h)
]

scan-newest :
    (pid : ℕ) (m : Table Connection) (newest : Option Connection) (k : ℕ) (c : Connection)
    → find k m ≡ some c
    → c.pid ≡ pid
    → Leads (scan_for_pid pid newest m) c.id
unfolding scan_for_pid
scan-newest pid [] newest k c h p = cc
scan-newest pid ((j, d) ∷ m) newest k c h p = elim (Bool-cases (j == k)) [
  | inl e ↦
      let same : d ≡ c = ground arith in
      let mine : (d.pid == pid) ≡ true = ground arith in
      let later = scan-Leads pid (newer d newest) m d.id (newer-Leads d newest d.id (inr refl)) in
      rw mine
        (subst (λ (x : Connection). Leads (scan_for_pid pid (newer d newest) m) x.id) same later)
  | inr e ↦ scan-newest pid m (if d.pid == pid then newer d newest else newest) k c (rw e at h) p
]

-- The connection that is found for a player is one of that player, and no registered connection of
-- the player has a higher id, which is to say a later registration until the counter wraps.
pub find_connection_by_pid_newest :
    (e : Endpoint) (pid : ℕ) (best : Connection) (k : ℕ) (c : Connection)
    → find_connection_by_pid e pid ≡ some best
    → find k e.connections ≡ some c
    → c.pid ≡ pid
    → (best.pid ≡ pid) × (c.id ≤ best.id)
unfolding find_connection_by_pid
find_connection_by_pid_newest e pid best k c f h p = (
  rw f at (scan-Own pid none e.connections tt),
  rw f at (scan-newest pid e.connections none k c h p),
)

-- A player with a registered connection is found.
pub find_connection_by_pid_total :
    (e : Endpoint) (pid k : ℕ) (c : Connection)
    → find k e.connections ≡ some c
    → c.pid ≡ pid
    → ¬ (find_connection_by_pid e pid ≡ none)
unfolding find_connection_by_pid
find_connection_by_pid_total e pid k c h p f = rw f at (scan-newest pid e.connections none k c h p)
