-- ===== src/Matchmaking/Attributes.antt =====
-- nextendo-nex/matchmaking_handlers.go, `modifyCurrentGameAttribute`: how long its loop runs.
use nextendo_mk8d_matchmakin.Base.{
  ℕ, zero, suc, ◌-◌, ◌^◌, ◌<◌, ◌≡◌, refl, none, some, List, [], ◌∷◌, ◌++◌, arith,
}
use nextendo_mk8d_matchmakin.Base.Lists.{length, replicate, length-append}
use mathlib.Core.List.{append-nil, append_assoc}
use nextendo_mk8d_matchmakin.Matchmaking.Update.{extend_attribs}

extend_missing :
    (missing fuel index : ℕ) (attribs : List ℕ)
    → index < 2 ^ 32 - 1
    → length attribs < 2 ^ 32
    → suc index - length attribs ≡ missing
    → missing < fuel
    → extend_attribs fuel index attribs ≡ some (attribs ++ replicate missing 0)
unfolding extend_attribs
extend_missing missing zero index attribs i l e f = absurd (omega arith)
extend_missing zero (suc fuel) index attribs i l e f = ground (arith, append-nil attribs)
extend_missing (suc missing) (suc fuel) index attribs i l e f =
    let more = length-append attribs (0 ∷ []) in
    let later =
      extend_missing missing fuel index (attribs ++ (0 ∷ [])) i (omega arith) (omega arith)
        (omega arith) in
    ground (arith, later, append_assoc attribs (0 ∷ []) (replicate missing 0))

-- For an index below 2 ^ 32 - 1 and fewer attributes than 2 ^ 32, one round of the loop for each
-- missing attribute and one more to see the end are enough: the attributes then are the former ones
-- with as many zeros behind as the index needs.
pub extend_attribs_ends :
    (fuel index : ℕ) (attribs : List ℕ)
    → index < 2 ^ 32 - 1
    → length attribs < 2 ^ 32
    → suc index - length attribs < fuel
    → extend_attribs fuel index attribs ≡ some (attribs ++ replicate (suc index - length attribs) 0)
extend_attribs_ends fuel index attribs i l f =
    extend_missing (suc index - length attribs) fuel index attribs i l refl f

-- For the index 2 ^ 32 - 1 the loop, which runs under the store's lock, has no end: no amount of fuel
-- is enough, whatever the attributes are.
pub extend_attribs_endless :
    (fuel : ℕ) (attribs : List ℕ) → extend_attribs fuel (2 ^ 32 - 1) attribs ≡ none
unfolding extend_attribs
extend_attribs_endless zero attribs = refl
extend_attribs_endless (suc fuel) attribs =
    ground (arith, extend_attribs_endless fuel (attribs ++ (0 ∷ [])))
