-- ===== src/Dedup/Runs.antt =====
-- server/rmc_dedup.go: runs of the deduplicator: turns and ends of executions of any calls, in any order.
use nextendo_mk8d_matchmakin.Base.{
  ℕ, ◌≤◌, ◌≡◌, refl, ◌==◌, if◌then◌else◌, Bool, true, false, ◌&&◌, ◌||◌, Option, some, List, [],
  ◌∷◌, arith, inl, inr, Bool-cases,
}
use nextendo_mk8d_matchmakin.Base.Lists.{length, All}
use nextendo_mk8d_matchmakin.Rmc.{RmcMessage}
use nextendo_mk8d_matchmakin.Dedup.{
  Key, key_eq, in_flight, Entries, find_entry, Deduplicator, new_deduplicator, Turn, waits, replays,
  bypasses, executes, take_turn, finish_execution,
}
use nextendo_mk8d_matchmakin.Dedup.Table.{key_eq_sound, key_ne_sym}
use nextendo_mk8d_matchmakin.Dedup.Turns.{
  turn-keeps, turn-waits, turn-executes, Bounded, turn-Bounded, finish-Bounded, finish-keeps,
}

-- The executions in progress that have an entry, by key and token.
abbrev pub Running : Type 0
Running = List (Key × ℕ)

pub record System : Type 0 where
  pub dedup : Deduplicator
  pub running : Running

-- A call takes a turn, or an execution in progress ends.
pub data Event : Type 0 where
  turns : (key : Key) (now : ℕ) → Event
  ends : (key : Key) (token : ℕ) (response : Option RmcMessage) (now : ℕ) → Event

abbrev pub started : Key → Turn → Running → Running
started key (executes token) r = (key, token) ∷ r
started key _ r = r

abbrev pub is_running : Key → ℕ → Running → Bool
is_running key token [] = false
is_running key token ((k, t) ∷ r) = key_eq k key && t == token || is_running key token r

abbrev pub ended : Key → ℕ → Running → Running
ended key token [] = []
ended key token ((k, t) ∷ r) =
    if key_eq k key && t == token then ended key token r else (k, t) ∷ ended key token r

unfoldable pub step : System → Event → System
step s (turns key now) =
    let (d, turn) = take_turn s.dedup key now in
    record { dedup = d; running = started key turn s.running }
step s (ends key token response now) =
    if is_running key token s.running
    then record {
      dedup = finish_execution s.dedup key token response now;
      running = ended key token s.running;
    }
    else s

unfoldable pub run : System → List Event → System
run s [] = s
run s (e ∷ es) = run (step s e) es

-- The key is executed at the moment.
abbrev pub is_busy : Key → Running → Bool
is_busy key [] = false
is_busy key ((k, t) ∷ r) = key_eq k key || is_busy key r

-- No key is executed twice at a time.
abbrev pub Solo : Running → Type 0
Solo [] = Unit {0}
Solo ((k, t) ∷ r) = (is_busy k r ≡ false) × Solo r

-- Every execution in progress holds its entry.
abbrev pub Held : Entries → Running → Type 0
Held m r = All (λ p. find_entry p.0 m ≡ some (in_flight p.1)) r

Held-is_busy :
    (m : Entries) (key : Key) (r : Running)
    → Held m r
    → is_busy key r ≡ true
    → (token : ℕ) × (find_entry key m ≡ some (in_flight token))
Held-is_busy m key [] h b = cc
Held-is_busy m key ((k, t) ∷ r) h b = elim (Bool-cases (key_eq k key)) [
  | inl e ↦ (t, rw (key_eq_sound k key e) at h.0)
  | inr e ↦ Held-is_busy m key r h.1 (rw e at b)
]

turn_Held :
    (d : Deduplicator) (key : Key) (now : ℕ) (r : Running)
    → Held d.entries r
    → Held (take_turn d key now).0.entries r
turn_Held d key now [] h = tt
turn_Held d key now ((k, t) ∷ r) h =
    (turn-keeps d key now k (in_flight t) h.0 refl, turn_Held d key now r h.1)

-- A key in execution starts no other one.
pub busy_waits :
    (d : Deduplicator) (key : Key) (now : ℕ) (r : Running)
    → Held d.entries r
    → is_busy key r ≡ true
    → (token : ℕ) × ((take_turn d key now).1 ≡ waits token)
busy_waits d key now r h b =
    let (token, f) = Held-is_busy d.entries key r h b in (token, turn-waits d key now token f)

-- The entry of a key says which of its executions is in progress.
ended-Held :
    (d : Deduplicator) (key : Key) (token : ℕ) (response : Option RmcMessage) (now : ℕ)
    (r : Running)
    → find_entry key d.entries ≡ some (in_flight token)
    → Held d.entries r
    → Held (finish_execution d key token response now).entries (ended key token r)
ended-Held d key token response now [] f h = tt
ended-Held d key token response now ((k, t) ∷ r) f h = elim (Bool-cases (key_eq k key)) [
  | inl e ↦
      let mine : find_entry key d.entries ≡ some (in_flight t) = rw (key_eq_sound k key e) at h.0 in
      let same : (t == token) ≡ true = ground (arith, f, mine) in
      rw (e, same) (ended-Held d key token response now r f h.1)
  | inr e ↦ rw e (
    finish-keeps d key token response now k (in_flight t) h.0 (key_ne_sym k key e),
    ended-Held d key token response now r f h.1,
  )
]

pub running_found :
    (m : Entries) (key : Key) (token : ℕ) (r : Running)
    → Held m r
    → is_running key token r ≡ true
    → find_entry key m ≡ some (in_flight token)
running_found m key token [] h b = cc
running_found m key token ((k, t) ∷ r) h b = elim (Bool-cases (key_eq k key)) [
  | inl e ↦ elim (Bool-cases (t == token)) [
    | inl u ↦ let same : t ≡ token = ground (arith, u) in rw (key_eq_sound k key e, same) at h.0
    | inr u ↦ running_found m key token r h.1 (rw (e, u) at b)
  ]
  | inr e ↦ running_found m key token r h.1 (rw e at b)
]

ended_busy :
    (key j : Key) (token : ℕ) (r : Running)
    → is_busy j r ≡ false
    → is_busy j (ended key token r) ≡ false
ended_busy key j token [] h = refl
ended_busy key j token ((k, t) ∷ r) h = ground (arith, ended_busy key j token r)

ended-Solo : (key : Key) (token : ℕ) (r : Running) → Solo r → Solo (ended key token r)
ended-Solo key token [] h = tt
ended-Solo key token ((k, t) ∷ r) h =
    ground (arith, ended-Solo key token r h.1, ended_busy key k token r h.0)

-- What holds of the system at all times.
pub record Ok (most : ℕ) (s : System) : Type 0 where
  pub bounded : Bounded most s.dedup
  pub held : Held s.dedup.entries s.running
  pub solo : Solo s.running

-- A call that executes finds its key free.
executes_free :
    (d : Deduplicator) (key : Key) (now token : ℕ) (r : Running)
    → Held d.entries r
    → (take_turn d key now).1 ≡ executes token
    → is_busy key r ≡ false
executes_free d key now token r h e = elim (Bool-cases (is_busy key r)) [
  | inl b ↦ let (t, w) = busy_waits d key now r h b in absurd (either t w)
  | inr b ↦ b
]
  where
    either : (t : ℕ) → (take_turn d key now).1 ≡ waits t → ⊥
    either t w = cc

turn-Ok :
    (most : ℕ) (s : System) (key : Key) (now : ℕ) (turn : Turn)
    → Ok most s
    → (take_turn s.dedup key now).1 ≡ turn
    → Ok most
        (record { dedup = (take_turn s.dedup key now).0; running = started key turn s.running })
turn-Ok most s key now (executes token) ok e = record {
  bounded = turn-Bounded s.dedup key now most ok.bounded;
  held = (turn-executes s.dedup key now token e, turn_Held s.dedup key now s.running ok.held);
  solo = (executes_free s.dedup key now token s.running ok.held e, ok.solo);
}
turn-Ok most s key now (waits token) ok e = record {
  bounded = turn-Bounded s.dedup key now most ok.bounded;
  held = turn_Held s.dedup key now s.running ok.held;
  solo = ok.solo;
}
turn-Ok most s key now (replays response) ok e = record {
  bounded = turn-Bounded s.dedup key now most ok.bounded;
  held = turn_Held s.dedup key now s.running ok.held;
  solo = ok.solo;
}
turn-Ok most s key now bypasses ok e = record {
  bounded = turn-Bounded s.dedup key now most ok.bounded;
  held = turn_Held s.dedup key now s.running ok.held;
  solo = ok.solo;
}

step-Ok : (most : ℕ) (s : System) (e : Event) → Ok most s → Ok most (step s e)
unfolding step
step-Ok most s (turns key now) ok = turn-Ok most s key now (take_turn s.dedup key now).1 ok refl
step-Ok most s (ends key token response now) ok =
    elim (Bool-cases (is_running key token s.running)) [
      | inr b ↦ rw b ok
      | inl b ↦ rw b (record {
        bounded = finish-Bounded s.dedup key token response now most ok.bounded;
        held =
            ended-Held s.dedup key token response now s.running
              (running_found s.dedup.entries key token s.running ok.held b) ok.held;
        solo = ended-Solo key token s.running ok.solo;
      })
    ]

pub run-Ok : (es : List Event) (most : ℕ) (s : System) → Ok most s → Ok most (run s es)
unfolding run
run-Ok [] most s ok = ok
run-Ok (e ∷ es) most s ok = run-Ok es most (step s e) (step-Ok most s e ok)

-- The deduplicator as it is made, with nothing in progress.
abbrev pub fresh : ℕ → ℕ → System
fresh ttl max_entries = record { dedup = new_deduplicator ttl max_entries; running = [] }

pub fresh-Ok :
    (ttl max_entries : ℕ)
    → Ok (if max_entries == 0 then 4096 else max_entries) (fresh ttl max_entries)
unfolding new_deduplicator
fresh-Ok ttl max_entries = record { bounded = (refl, omega arith); held = tt; solo = tt }

-- From a new deduplicator, after any turns and ends of executions, by any calls at any times: there
-- are no more entries than the bound that was set, or 4096 where none was, and no two executions with
-- an entry that are in progress have the same key.
pub run-Solo :
    (ttl max_entries : ℕ) (es : List Event)
    → (length (run (fresh ttl max_entries) es).dedup.entries
        ≤ (if max_entries == 0 then 4096 else max_entries))
      × Solo (run (fresh ttl max_entries) es).running
run-Solo ttl max_entries es =
    let ok = run-Ok es _ (fresh ttl max_entries) (fresh-Ok ttl max_entries) in
    (ok.bounded.1, ok.solo)

-- In every state that such a run leads to, a call whose key is being executed waits, at any time.
pub run-waits :
    (ttl max_entries : ℕ) (es : List Event) (key : Key) (now : ℕ)
    → is_busy key (run (fresh ttl max_entries) es).running ≡ true
    → (token : ℕ) × ((take_turn (run (fresh ttl max_entries) es).dedup key now).1 ≡ waits token)
run-waits ttl max_entries es key now b =
    let ok = run-Ok es _ (fresh ttl max_entries) (fresh-Ok ttl max_entries) in
    busy_waits (run (fresh ttl max_entries) es).dedup key now _ ok.held b
