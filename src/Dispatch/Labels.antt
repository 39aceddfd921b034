-- ===== src/Dispatch/Labels.antt =====
-- nextendo-nex/matchmaking_handlers.go: which method number leads to which step of the stores.
use nextendo_mk8d_matchmakin.Base.{
  ℕ, ◌≡◌, ◌⊎◌, ◌==◌, if◌then◌else◌, Bool, true, false, not, ◌&&◌, Option, none, List, [], ◌∷◌,
}
use nextendo_mk8d_matchmakin.Base.Lists.{contains}
use nextendo_mk8d_matchmakin.Wire.Settings.{Settings}
use nextendo_mk8d_matchmakin.Rmc.{RmcMessage}
use nextendo_mk8d_matchmakin.Endpoint.State.{Connection}
use nextendo_mk8d_matchmakin.Matchmaking.State.{Store, Switches}
use nextendo_mk8d_matchmakin.Matchmaking.Steps.{Step}
use nextendo_mk8d_matchmakin.Tournament.Store.{Tournaments}
use nextendo_mk8d_matchmakin.Tournament.Handlers.{
  create_tournament, remove_tournament, register_tournament,
}
use nextendo_mk8d_matchmakin.Dispatch.{
  Site, Served, ExtensionMethod, closes, opens, auto_matchmakes, creates, joins, creates_room,
  publishes, updates_part, updates_buffer, modifies_attribute, creates_tournament,
  deletes_tournament, joins_tournament,
}
use nextendo_mk8d_matchmakin.Dispatch.Rules.{store_of, tournaments_of}

-- The method numbers, in the matchmake extension protocol, of a step of the store.
abbrev pub extension_numbers :
    {s : Settings} {switches : Switches} {m m' : Store} → Step s switches m m' → List ℕ
extension_numbers (Step.sets_participation r on) = (if on then 0x02 else 0x01) ∷ []
extension_numbers (Step.modifies_attribute fuel c r o e) = 0x08 ∷ []
extension_numbers (Step.publishes w c r) = 0x09 ∷ []
extension_numbers (Step.updates_buffer c r) = 0x0B ∷ []
extension_numbers (Step.creates w c r) = 0x26 ∷ []
extension_numbers (Step.joins w c r) = 0x27 ∷ []
extension_numbers (Step.auto_matchmakes w c r) = 0x28 ∷ []
extension_numbers (Step.updates_part r) = 0x2C ∷ []
extension_numbers (Step.creates_room r) = 0x37 ∷ 0x44 ∷ []
extension_numbers _ = []

-- In the matchmaking protocol and its extension by participations.
abbrev pub match_making_numbers :
    {s : Settings} {switches : Switches} {m m' : Store} → Step s switches m m' → List ℕ
match_making_numbers (Step.unregisters c r) = 0x02 ∷ []
match_making_numbers (Step.migrates w c r) = 0x24 ∷ 0x2C ∷ []
match_making_numbers _ = []

abbrev pub participation_numbers :
    {s : Settings} {switches : Switches} {m m' : Store} → Step s switches m m' → List ℕ
participation_numbers (Step.ends c r) = 0x01 ∷ []
participation_numbers _ = []

-- The numbers that may change the store, in the three protocols, and those that may change the
-- tournaments.
abbrev pub store_writers : List ℕ
store_writers = 0x01 ∷ 0x02 ∷ 0x08 ∷ 0x09 ∷ 0x0B ∷ 0x26 ∷ 0x27 ∷ 0x28 ∷ 0x2C ∷ 0x37 ∷ 0x44 ∷ []

abbrev pub tournament_writers : List ℕ
tournament_writers = 0x3D ∷ 0x3E ∷ 0x3F ∷ []

-- Whether a number may lead to a call, seen from what the call does to the store.
fits_store : ExtensionMethod → ℕ → Bool
fits_store closes n = contains (0x01 ∷ []) n
fits_store opens n = contains (0x02 ∷ []) n
fits_store modifies_attribute n = contains (0x08 ∷ []) n
fits_store publishes n = contains (0x09 ∷ []) n
fits_store updates_buffer n = contains (0x0B ∷ []) n
fits_store creates n = contains (0x26 ∷ []) n
fits_store joins n = contains (0x27 ∷ []) n
fits_store auto_matchmakes n = contains (0x28 ∷ []) n
fits_store updates_part n = contains (0x2C ∷ []) n
fits_store creates_room n = contains (0x37 ∷ 0x44 ∷ []) n
fits_store _ n = not (contains store_writers n)

fits_tournaments : ExtensionMethod → ℕ → Bool
fits_tournaments creates_tournament n = n == 0x3D
fits_tournaments deletes_tournament n = n == 0x3E
fits_tournaments joins_tournament n = n == 0x3F
fits_tournaments _ n = not (contains tournament_writers n)

all_fit : (ExtensionMethod → ℕ → Bool) → List (ℕ × ExtensionMethod) → Bool
all_fit test [] = true
all_fit test ((k, method) ∷ ms) = test method k && all_fit test ms

all_among : List ℕ → List ℕ → Bool
all_among [] ks = true
all_among (w ∷ ws) ks = contains ks w && all_among ws ks

-- What a call with a number may do to the store: its number is one that writes, and it makes a step
-- that has the number; or its number is none of those, and the store stays; or it is the modification
-- of an attribute and does not return.
abbrev pub MovesStore : Settings → Switches → Store → ℕ → Option Served → Type 0
MovesStore s switches m n o =
    ((step : Step s switches m (store_of o m)) × (contains (extension_numbers step) n ≡ true))
    ⊎ (contains store_writers n ≡ false) × (store_of o m ≡ m)
    ⊎ (n ≡ 0x08) × (o ≡ none)

-- And to the tournaments.
abbrev pub MovesTournaments : Site → Tournaments → Connection → RmcMessage → Option Served → Type 0
MovesTournaments h ts c r o =
    (r.method ≡ 0x3D) × (tournaments_of o ts ≡ (create_tournament ts h.draw c r).0)
    ⊎ (r.method ≡ 0x3E) × (tournaments_of o ts ≡ (remove_tournament ts c r).0)
    ⊎ (r.method ≡ 0x3F) × (tournaments_of o ts ≡ (register_tournament ts c r).0)
    ⊎ (contains tournament_writers r.method ≡ false) × (tournaments_of o ts ≡ ts)

abbrev pub MovesMatchMaking : Site → Store → RmcMessage → Store → Type 0
MovesMatchMaking h m r m' =
    ((step : Step h.settings h.switches m m') × (contains (match_making_numbers step) r.method
        ≡ true))
    ⊎ (contains (0x02 ∷ 0x24 ∷ 0x2C ∷ []) r.method ≡ false) × (m' ≡ m)

abbrev pub MovesParticipation : Site → Store → RmcMessage → Store → Type 0
MovesParticipation h m r m' =
    ((step : Step h.settings h.switches m m') × (contains (participation_numbers step) r.method
        ≡ true))
    ⊎ (contains (0x01 ∷ []) r.method ≡ false) × (m' ≡ m)
