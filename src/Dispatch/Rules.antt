-- ===== src/Dispatch/Rules.antt =====
-- nextendo-nex/matchmaking_handlers.go: what the proofs about the handlers share.
use nextendo_mk8d_matchmakin.Base.{
  ℕ, ◌≡◌, refl, ◌==◌, false, Bool, Option, none, some, List, [], ◌∷◌, arith, inl, inr, Bool-cases,
}
use nextendo_mk8d_matchmakin.Base.Lists.{contains}
use nextendo_mk8d_matchmakin.Base.Maps.{keys}
use nextendo_mk8d_matchmakin.Rmc.{RmcMessage}
use nextendo_mk8d_matchmakin.Endpoint.State.{Connection}
use nextendo_mk8d_matchmakin.Matchmaking.State.{Store}
use nextendo_mk8d_matchmakin.Matchmaking.NotifData.{get_friend_notification_data, requested_types}
use nextendo_mk8d_matchmakin.Tournament.Store.{Tournaments}
use nextendo_mk8d_matchmakin.Dispatch.{Site, Served, ExtensionMethod, method_in, unknown}

pub method_in_unknown :
    (ms : List (ℕ × ExtensionMethod)) (n : ℕ)
    → contains (keys ms) n ≡ false
    → method_in ms n ≡ unknown
unfolding method_in
method_in_unknown [] n h = refl
method_in_unknown ((k, method) ∷ ms) n h =
    let e : (k == n) ≡ false = ground arith in rw (e, method_in_unknown ms n (ground arith))

abbrev pub store_of : Option Served → Store → Store
store_of none m = m
store_of (some o) m = o.store

abbrev pub tournaments_of : Option Served → Tournaments → Tournaments
tournaments_of none ts = ts
tournaments_of (some o) ts = o.tournaments

pub friend_data_store :
    (h : Site) (m : Store) (c : Connection) (r : RmcMessage) (list : Bool)
    → (get_friend_notification_data h.settings h.world m c r list).store ≡ m
unfolding get_friend_notification_data
friend_data_store h m c r list = elim (Bool-cases (requested_types r list).1.failed) [
  | inl e ↦ rw e
  | inr e ↦ rw e
]
