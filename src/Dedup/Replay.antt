-- ===== src/Dedup/Replay.antt =====
-- server/rmc_dedup.go: how long an answer is given again.
use nextendo_mk8d_matchmakin.Base.{
  ℕ, ◌+◌, ◌<◌, ◌≡◌, true, Option, some, List, [], ◌∷◌, inl, inr, Bool-cases, lt→ltb,
}
use nextendo_mk8d_matchmakin.Base.Lists.{All}
use nextendo_mk8d_matchmakin.Rmc.{RmcMessage}
use nextendo_mk8d_matchmakin.Dedup.{
  Key, key_eq, answered, find_entry, Deduplicator, replays, take_turn, finish_execution,
}
use nextendo_mk8d_matchmakin.Dedup.Table.{key_eq_sound}
use nextendo_mk8d_matchmakin.Dedup.Turns.{turn-keeps, turn-replays, finish-keeps, finish-answers}
use nextendo_mk8d_matchmakin.Dedup.Runs.{
  System, Event, turns, ends, is_running, step, run, fresh, running_found, run-Ok, fresh-Ok,
}

-- A turn before some time; executions may end at any time.
abbrev pub Before : ℕ → Event → Type 0
Before limit (turns key now) = now < limit
Before limit (ends key token response now) = Unit {0}

finish-keeps_answered :
    (d : Deduplicator) (key : Key) (token : ℕ) (response : Option RmcMessage) (now : ℕ) (j : Key)
    (r : RmcMessage) (expires : ℕ)
    → find_entry j d.entries ≡ some (answered r expires)
    → find_entry j (finish_execution d key token response now).entries ≡ some (answered r expires)
finish-keeps_answered d key token response now j r expires h = elim (Bool-cases (key_eq key j)) [
  | inl t ↦ rw (key_eq_sound key j t) (unfold finish_execution in rw h h)
  | inr t ↦ finish-keeps d key token response now j (answered r expires) h t
]

step-answered :
    (s : System) (e : Event) (j : Key) (r : RmcMessage) (expires : ℕ)
    → Before expires e
    → find_entry j s.dedup.entries ≡ some (answered r expires)
    → find_entry j (step s e).dedup.entries ≡ some (answered r expires)
unfolding step
step-answered s (turns key now) j r expires b h =
    turn-keeps s.dedup key now j (answered r expires) h (lt→ltb now expires b)
step-answered s (ends key token response now) j r expires b h =
    elim (Bool-cases (is_running key token s.running)) [
      | inl t ↦ rw t (finish-keeps_answered s.dedup key token response now j r expires h)
      | inr t ↦ rw t h
    ]

run-answered :
    (es : List Event) (s : System) (j : Key) (r : RmcMessage) (expires : ℕ)
    → All (Before expires) es
    → find_entry j s.dedup.entries ≡ some (answered r expires)
    → find_entry j (run s es).dedup.entries ≡ some (answered r expires)
unfolding run
run-answered [] s j r expires b h = h
run-answered (e ∷ es) s j r expires b h =
    run-answered es (step s e) j r expires b.1 (step-answered s e j r expires b.0 h)

-- When, after any run of a new deduplicator, an execution in progress ends with a response, then any
-- further turns of any calls, all before the response expires, and any ends of executions may follow:
-- a repeated call before that time still gets the same response and is not executed.
pub run-replays :
    (ttl max_entries : ℕ) (before after : List Event) (key : Key) (token : ℕ)
    (response : RmcMessage) (ended_at now : ℕ)
    → let s = run (fresh ttl max_entries) before in
      is_running key token s.running ≡ true
      → All (Before (ended_at + s.dedup.ttl)) after
      → now < ended_at + s.dedup.ttl
      → (take_turn (run (step s (ends key token (some response) ended_at)) after).dedup key now).1
        ≡ replays response
run-replays ttl max_entries before after key token response ended_at now running b soon =
    let s = run (fresh ttl max_entries) before in
    let ok = run-Ok before _ (fresh ttl max_entries) (fresh-Ok ttl max_entries) in
    let held = running_found s.dedup.entries key token s.running ok.held running in
    let stored = finish-answers s.dedup key token response ended_at held in
    let expires = ended_at + s.dedup.ttl in
    turn-replays (run (step s (ends key token (some response) ended_at)) after).dedup key now
      response expires
      (run-answered after (step s (ends key token (some response) ended_at)) key response expires b
        (unfold step in rw running stored))
      (lt→ltb now expires soon)
