-- ===== src/Examples/Repeats.antt =====
-- Examples of repeated calls.
use nextendo_mk8d_matchmakin.Base.{◌≡◌, ◌≤◌, refl, some, [], ◌∷◌, arith}
use nextendo_mk8d_matchmakin.Base.Lists.{length}
use nextendo_mk8d_matchmakin.Rmc.{RmcMessage, rmc_success}
use nextendo_mk8d_matchmakin.Dedup.{
  Key, new_deduplicator, take_turn, turn_found, claim, replays, arrive, deduplicate_matchmaking,
  executes, bypasses,
}
use nextendo_mk8d_matchmakin.Dedup.Runs.{turns, ends, step, run, fresh, Solo, run-Solo}
use nextendo_mk8d_matchmakin.Dedup.Replay.{run-replays}
use nextendo_mk8d_matchmakin.Examples.{bob, join_request}

-- The keys of the same call by two players, with the body for its hash.
abbrev bobs : Key
bobs = record {
  connection_id = 2;
  pid = 200;
  protocol = 0x6D;
  method = 0x27;
  call_id = 6;
  body_hash = 1 ∷ [];
}

abbrev alices : Key
alices = record bobs { connection_id = 1; pid = 100 }

abbrev answer : RmcMessage
answer = rmc_success 0x6D 0x27 6 (1 ∷ [])

run-Solo_example :
    (length (run (fresh 20 2) (turns bobs 1 ∷ turns bobs 2 ∷ turns alices 3 ∷ [])).dedup.entries
      ≤ 2)
    × Solo (run (fresh 20 2) (turns bobs 1 ∷ turns bobs 2 ∷ turns alices 3 ∷ [])).running
run-Solo_example = run-Solo 20 2 (turns bobs 1 ∷ turns bobs 2 ∷ turns alices 3 ∷ [])

run-replays_example :
    (take_turn
      (run
        (step (run (fresh 20 2) (turns bobs 1 ∷ [])) (ends bobs 0 (some answer) 3))
        (turns alices 4 ∷ [])).dedup
      bobs
      22).1
    ≡ replays answer
run-replays_example =
    run-replays 20 2 (turns bobs 1 ∷ []) (turns alices 4 ∷ []) bobs 0 answer 3 22
      (unfold run step take_turn turn_found claim new_deduplicator in refl)
      (unfold run step take_turn turn_found claim new_deduplicator in (omega arith, tt))
      (unfold run step take_turn turn_found claim new_deduplicator in omega arith)

-- A join is remembered; a call of a method that changes nothing is not.
join_executes : (arrive (λ b. b) (new_deduplicator 20 2) bob join_request 1).1 ≡ executes 0
unfolding arrive deduplicate_matchmaking take_turn turn_found claim new_deduplicator
join_executes = refl

browse_bypasses :
    (arrive (λ b. b) (new_deduplicator 20 2) bob (record join_request { method = 0x05 }) 1).1
    ≡ bypasses
unfolding arrive deduplicate_matchmaking
browse_bypasses = refl
