-- ===== src/Traversal/Rules.antt =====
-- nextendo-nex/natbridge.go and secureconnection.go: what a joiner is given of a host's stations, and
-- what a replacement keeps.
use nextendo_mk8d_matchmakin.Base.{
  ℕ, ◌^◌, ◌<◌, ◌≡◌, ◌⊎◌, refl, ◌∙◌, sym, ap, suc, ◌==◌, if◌then◌else◌, Bool, true, false, ◌||◌,
  Option, none, some, List, [], ◌∷◌, arith, inl, inr, Bool-cases, Option-cases,
}
use nextendo_mk8d_matchmakin.Base.Lists.{All, Among, get_or}
use nextendo_mk8d_matchmakin.Wire.Out.{Bytes}
use nextendo_mk8d_matchmakin.Session.Variant.{bytes_eq}
use nextendo_mk8d_matchmakin.Session.Keys.{bytes_eq_sound, bytes_eq_refl}
use nextendo_mk8d_matchmakin.Endpoint.State.{Connection}
use nextendo_mk8d_matchmakin.Matchmaking.Leave.{is_empty}
use nextendo_mk8d_matchmakin.Station.{
  StationUrl, set_param, get_param, has_param, get_int, remove_param,
}
use nextendo_mk8d_matchmakin.Station.Parse.{itoa, set_int, new_station_url}
use nextendo_mk8d_matchmakin.Station.Params.{
  get_param-set_param, get_param-remove_param, has_param-remove_param, get_int-set_int,
  get_int-set_param_ne,
}
use nextendo_mk8d_matchmakin.Traversal.Register.{
  place_of, is_local, is_public, key_address, key_port, key_pid, key_rvcid, key_type, key_pa,
  select_stations, station_at, address_of, put_station, by_address, replaced_stations,
}
use nextendo_mk8d_matchmakin.Traversal.Bridge.{
  bridge_ok, lan_candidate, public_candidate, bridge_observed, bridge_pair, bridge_selected,
  nat_bridge_stations,
}

get_int-remove_param :
    (u : StationUrl) (k j : Bytes)
    → bytes_eq k j ≡ false
    → get_int (remove_param u k) j ≡ get_int u j
unfolding get_int
get_int-remove_param u k j h = rw (get_param-remove_param u k j, h)

-- What a joiner is to be given of a local and a public station: for the local network a station that
-- carries neither a type nor `Pa`, and otherwise every parameter of the local one but its port; and a
-- public one with its own type and `Pa`, and otherwise every parameter of the public one but its port.
pub record IsBridged (local public lan wan : StationUrl) (port : ℕ) (pa : Bytes) : Type 0 where
  pub lan_typeless : has_param lan key_type ≡ false
  pub lan_paless : has_param lan key_pa ≡ false
  pub lan_port : get_int lan key_port ≡ port
  pub lan_values :
      (k : Bytes)
      → get_param lan k ≡ (
          if bytes_eq key_type k || bytes_eq key_pa k
          then []
          else if bytes_eq key_port k
          then itoa port
          else get_param local k)
  pub wan_port : get_int wan key_port ≡ port
  pub wan_type : get_int wan key_type ≡ 11
  pub wan_values :
      (k : Bytes)
      → get_param wan k ≡ (
          if bytes_eq key_pa k
          then pa
          else if bytes_eq key_type k
          then itoa 11
          else if bytes_eq key_port k
          then itoa port
          else get_param public k)

candidates-IsBridged :
    (local public : StationUrl) (port : ℕ) (pa : Bytes)
    → port < 2 ^ 63
    → IsBridged local public (lan_candidate local port) (public_candidate public port pa) port pa
unfolding lan_candidate public_candidate set_int
candidates-IsBridged local public port pa fits =
    let l1 = set_param local key_port (itoa port) in
    let l2 = remove_param l1 key_type in
    let p1 = set_param public key_port (itoa port) in
    let p2 = set_param p1 key_type (itoa 11) in
    record {
      lan_typeless =
          has_param-remove_param l2 key_pa key_type ∙ has_param-remove_param l1 key_type key_type;
      lan_paless = has_param-remove_param l2 key_pa key_pa;
      lan_port =
          get_int-remove_param l2 key_pa key_port refl
          ∙ (get_int-remove_param l1 key_type key_port refl
              ∙ get_int-set_int_lem local key_port port fits);
      lan_values = λ k.
          rw
            (
              get_param-remove_param l2 key_pa k,
              get_param-remove_param l1 key_type k,
              get_param-set_param local key_port k (itoa port),
            )
            (either (bytes_eq key_type k) (bytes_eq key_pa k)
              (if bytes_eq key_port k then itoa port else get_param local k));
      wan_port =
          get_int-set_param_ne p2 key_pa key_port pa refl
          ∙ (get_int-set_param_ne p1 key_type key_port (itoa 11) refl
              ∙ get_int-set_int_lem public key_port port fits);
      wan_type =
          get_int-set_param_ne p2 key_pa key_type pa refl
          ∙ get_int-set_int_lem p1 key_type 11 (omega arith);
      wan_values = λ k. rw (
        get_param-set_param p2 key_pa k pa,
        get_param-set_param p1 key_type k (itoa 11),
        get_param-set_param public key_port k (itoa port),
      );
    }
  where
    get_int-set_int_lem :
        (u : StationUrl) (k : Bytes) (v : ℕ) → v < 2 ^ 63 → get_int (set_param u k (itoa v)) k ≡ v
    get_int-set_int_lem u k v h = get_int-set_int u k v h

    either :
        (a b : Bool) (v : Bytes)
        → (if b then [] else if a then [] else v) ≡ (if a || b then [] else v)
    either true true v = refl
    either true false v = refl
    either false true v = refl
    either false false v = refl

-- What the choice of stations finds: the first address that passes a test, or that none passes.
place_of_found :
    (test : StationUrl → Bool) (urls : List StationUrl) (i : ℕ) (d : StationUrl)
    → place_of test urls ≡ some i
    → test (get_or urls i d) ≡ true
unfolding place_of
place_of_found test [] i d h = cc
place_of_found test (u ∷ us) i d h = elim (Bool-cases (test u)) [
  | inl t ↦ let first : 0 ≡ i = cc (rw t at h) in rw (← first) t
  | inr t ↦ elim (Option-cases (place_of test us)) [
    | inl e ↦ cc (rw (t, e) at h)
    | inr (j, e) ↦
        let behind : suc j ≡ i = cc (rw (t, e) at h) in rw (← behind) (place_of_found test us j d e)
  ]
]

place_of_missing :
    (test : StationUrl → Bool) (urls : List StationUrl)
    → place_of test urls ≡ none
    → All (λ u. test u ≡ false) urls
unfolding place_of
place_of_missing test [] h = tt
place_of_missing test (u ∷ us) h = elim (Bool-cases (test u)) [
  | inl t ↦ cc (rw t at h)
  | inr t ↦ elim (Option-cases (place_of test us)) [
    | inl e ↦ (t, place_of_missing test us e)
    | inr (j, e) ↦ cc (rw (t, e) at h)
  ]
]

-- The public station's address is a public one; the local one's is a private one, or no station that
-- the host reported has a private address.
chosen :
    (is_private : Bytes → Bool) (urls : List StationUrl) (i j : ℕ)
    → select_stations is_private urls ≡ (some i, some j)
    → (is_private (address_of (station_at urls (some j))) ≡ false)
      × ((is_private (address_of (station_at urls (some i))) ≡ true)
          ⊎ All (λ u. is_local is_private u ≡ false) urls)
unfolding select_stations station_at
chosen is_private urls i j h =
    let public : place_of (is_public is_private) urls ≡ some j =
      ap (λ (p : Option ℕ × Option ℕ). p.1) h in
    let seen = place_of_found (is_public is_private) urls j new_station_url public in
    (
      ground (arith, seen),
      elim (Option-cases (place_of (is_local is_private) urls)) [
        | inl e ↦ inr (place_of_missing (is_local is_private) urls e)
        | inr (k, e) ↦
            let same : k ≡ i = let q = rw e at (ap (λ (p : Option ℕ × Option ℕ). p.0) h) in cc in
            let mine = place_of_found (is_local is_private) urls k new_station_url e in
            inl (ground (arith, rw same at mine))
      ],
    )

-- When a local and a public station are chosen of the ones that a host reported, their addresses are
-- different and not empty, the port of the public address was observed (and is below 2 ^ 63), and the
-- local station carries the connection id, the joiner gets two stations: one for the local network
-- with the observed port, without a type and without `Pa`, and with every other parameter of the
-- local station, `CID` and `RVCID` among them; and one with the observed port, the type 11, as `Pa`
-- the local address, or the public one where the public station is to come first, and with every other
-- parameter of the public station. The public station is one with an address that is not private, and
-- the local one has a private address unless no reported station has one.
pub nat_bridge_stations-IsBridged :
    (is_private : Bytes → Bool) (nat_port : Bytes → Option ℕ) (urls : List StationUrl)
    (public_first : Bool) (i j port : ℕ)
    → select_stations is_private urls ≡ (some i, some j)
    → is_empty (get_param (station_at urls (some i)) key_address) ≡ false
    → is_empty (get_param (station_at urls (some j)) key_address) ≡ false
    → bytes_eq
        (get_param (station_at urls (some j)) key_address)
        (get_param (station_at urls (some i)) key_address)
      ≡ false
    → nat_port (get_param (station_at urls (some j)) key_address) ≡ some port
    → port < 2 ^ 63
    → (get_int (station_at urls (some i)) key_rvcid == 0) ≡ false
    → let local = station_at urls (some i) in
      let public = station_at urls (some j) in
      let pa = get_param (if public_first then public else local) key_address in
      (is_private (address_of public) ≡ false)
      × ((is_private (address_of local) ≡ true) ⊎ All (λ u. is_local is_private u ≡ false) urls)
      × (lan : StationUrl) × (wan : StationUrl) × IsBridged local public lan wan port pa
      × (nat_bridge_stations is_private nat_port urls public_first
          ≡ ((if public_first then wan ∷ lan ∷ [] else lan ∷ wan ∷ []), bridge_ok))
unfolding nat_bridge_stations bridge_selected bridge_pair bridge_observed
nat_bridge_stations-IsBridged is_private nat_port urls public_first i j port sel hl hp ne seen fits
      id =
    let local = station_at urls (some i) in
    let public = station_at urls (some j) in
    let pa = get_param (if public_first then public else local) key_address in
    let (outer, inner) = chosen is_private urls i j sel in
    (
      outer,
      inner,
      lan_candidate local port,
      public_candidate public port pa,
      candidates-IsBridged local public port pa fits,
      rw (sel, hl, hp, ne, seen, id),
    )

-- No two stations of a list share an address.
abbrev pub ApartAddresses : List StationUrl → Type 0
ApartAddresses [] = Unit {0}
ApartAddresses (u ∷ us) =
    All (λ v. bytes_eq (address_of u) (address_of v) ≡ false) us × ApartAddresses us

-- Some station of a list has an address.
abbrev pub HasAddress : Bytes → List StationUrl → Type 0
HasAddress a [] = ⊥
HasAddress a (u ∷ us) = (address_of u ≡ a) ⊎ HasAddress a us

bytes_eq_ne_trans :
    (a b c : Bytes) → bytes_eq a b ≡ true → bytes_eq a c ≡ false → bytes_eq b c ≡ false
bytes_eq_ne_trans a b c e h = rw (← bytes_eq_sound a b e) h

put_station_away :
    (w u : StationUrl) (us : List StationUrl)
    → bytes_eq (address_of w) (address_of u) ≡ false
    → All (λ v. bytes_eq (address_of w) (address_of v) ≡ false) us
    → All (λ v. bytes_eq (address_of w) (address_of v) ≡ false) (put_station u us)
unfolding put_station
put_station_away w u [] h a = (h, tt)
put_station_away w u (v ∷ vs) h a = elim (Bool-cases (bytes_eq (address_of v) (address_of u))) [
  | inl e ↦ rw e (h, a.1)
  | inr e ↦ rw e (a.0, put_station_away w u vs h a.1)
]

put_station-ApartAddresses :
    (u : StationUrl) (us : List StationUrl) → ApartAddresses us → ApartAddresses (put_station u us)
unfolding put_station
put_station-ApartAddresses u [] a = (tt, tt)
put_station-ApartAddresses u (v ∷ vs) a =
    elim (Bool-cases (bytes_eq (address_of v) (address_of u))) [
      | inl e ↦ rw e (moved vs a.0 (bytes_eq_sound (address_of v) (address_of u) e), a.1)
      | inr e ↦ rw e (put_station_away v u vs e a.0, put_station-ApartAddresses u vs a.1)
    ]
  where
    moved :
        (ws : List StationUrl)
        → All (λ w. bytes_eq (address_of v) (address_of w) ≡ false) ws
        → address_of v ≡ address_of u
        → All (λ w. bytes_eq (address_of u) (address_of w) ≡ false) ws
    moved [] b e = tt
    moved (w ∷ ws) b e = (
      bytes_eq_ne_trans (address_of v) (address_of u) (address_of w)
          (rw e (bytes_eq_refl (address_of u))) b.0,
      moved ws b.1 e,
    )

put_station-Among : (u : StationUrl) (us : List StationUrl) → Among u (put_station u us)
unfolding put_station
put_station-Among u [] = inl refl
put_station-Among u (v ∷ vs) = elim (Bool-cases (bytes_eq (address_of v) (address_of u))) [
  | inl e ↦ rw e (inl refl)
  | inr e ↦ rw e (inr (put_station-Among u vs))
]

put_station-HasAddress :
    (a : Bytes) (u : StationUrl) (us : List StationUrl)
    → (address_of u ≡ a) ⊎ HasAddress a us
    → HasAddress a (put_station u us)
unfolding put_station
put_station-HasAddress a u [] (inl h) = inl h
put_station-HasAddress a u [] (inr h) = elim h [ ]
put_station-HasAddress a u (v ∷ vs) h = elim (Bool-cases (bytes_eq (address_of v) (address_of u))) [
  | inl e ↦ rw e (elim h [
    | inl here ↦ inl here
    | inr more ↦ elim more [
      | inl at_v ↦ inl (sym (bytes_eq_sound (address_of v) (address_of u) e) ∙ at_v)
      | inr rest ↦ inr rest
    ]
  ])
  | inr e ↦ rw e (elim h [
    | inl here ↦ inr (put_station-HasAddress a u vs (inl here))
    | inr more ↦ elim more [
      | inl at_v ↦ inl at_v
      | inr rest ↦ inr (put_station-HasAddress a u vs (inr rest))
    ]
  ])
]

by_address-ApartAddresses :
    (seen us : List StationUrl) → ApartAddresses seen → ApartAddresses (by_address seen us)
unfolding by_address
by_address-ApartAddresses seen [] a = a
by_address-ApartAddresses seen (u ∷ us) a =
    by_address-ApartAddresses (put_station u seen) us (put_station-ApartAddresses u seen a)

by_address-HasAddress :
    (a : Bytes) (seen us : List StationUrl)
    → HasAddress a seen ⊎ HasAddress a us
    → HasAddress a (by_address seen us)
unfolding by_address
by_address-HasAddress a seen [] (inl h) = h
by_address-HasAddress a seen [] (inr h) = elim h [ ]
by_address-HasAddress a seen (u ∷ us) (inl h) =
    by_address-HasAddress a (put_station u seen) us (inl (put_station-HasAddress a u seen (inr h)))
by_address-HasAddress a seen (u ∷ us) (inr (inl h)) =
    by_address-HasAddress a (put_station u seen) us (inl (put_station-HasAddress a u seen (inl h)))
by_address-HasAddress a seen (u ∷ us) (inr (inr h)) =
    by_address-HasAddress a (put_station u seen) us (inr h)

-- After a replacement no two stations of the connection share an address, the new station, with the
-- player's id, is among them, and no address that a station had is lost.
pub replaced_stations_apart :
    (c : Connection) (u : StationUrl) (a : Bytes)
    → HasAddress a c.stations
    → ApartAddresses (replaced_stations c u)
      × Among (set_int u key_pid c.pid) (replaced_stations c u)
      × HasAddress a (replaced_stations c u)
unfolding replaced_stations
replaced_stations_apart c u a h =
    let new = set_int u key_pid c.pid in
    let kept = by_address [] c.stations in
    (
      put_station-ApartAddresses new kept (by_address-ApartAddresses [] c.stations tt),
      put_station-Among new kept,
      put_station-HasAddress a new kept (inr (by_address-HasAddress a [] c.stations (inr h))),
    )
