-- ===== src/Examples/Stations.antt =====
-- Examples of station addresses.
use nextendo_mk8d_matchmakin.Base.{◌≡◌, ◌⊎◌, refl, Bool, true, false, some, [], ◌∷◌, arith}
use nextendo_mk8d_matchmakin.Base.Lists.{All}
use nextendo_mk8d_matchmakin.Wire.Out.{Bytes}
use nextendo_mk8d_matchmakin.Session.Variant.{bytes_eq}
use nextendo_mk8d_matchmakin.Station.{StationUrl, render, get_param, get_int, atoi_bits}
use nextendo_mk8d_matchmakin.Station.Parse.{parse_station_url}
use nextendo_mk8d_matchmakin.Station.RoundTrip.{IsStationUrl, parse_station_url-render}
use nextendo_mk8d_matchmakin.Traversal.Register.{
  address_of, is_local, key_address, key_rvcid, select_stations, station_at, place_of,
}
use nextendo_mk8d_matchmakin.Traversal.Bridge.{bridge_ok, nat_bridge_stations}
use nextendo_mk8d_matchmakin.Traversal.Rules.{IsBridged, nat_bridge_stations-IsBridged}

abbrev station : Bytes → StationUrl
station address = record {
  scheme = b'p' ∷ [];
  params = (key_address, address) ∷ (key_rvcid, b'7' ∷ []) ∷ [];
}

abbrev home : StationUrl
home = station (b'1' ∷ b'0' ∷ [])

abbrev outside : StationUrl
outside = station (b'8' ∷ [])

home-IsStationUrl : IsStationUrl home
home-IsStationUrl = record {
  has_scheme = λ e. cc;
  scheme_free = refl;
  fields = ((refl, refl, refl), ((refl, refl, refl), tt));
  apart = ((refl, tt), (tt, tt));
}

parse_station_url-render_example : parse_station_url (render home) ≡ home
parse_station_url-render_example = parse_station_url-render home home-IsStationUrl

abbrev is_home : Bytes → Bool
is_home a = bytes_eq a (b'1' ∷ b'0' ∷ [])

selected : select_stations is_home (home ∷ outside ∷ []) ≡ (some 0, some 1)
unfolding select_stations place_of get_param
selected = refl

nat_bridge_stations-IsBridged_example :
    (is_home (address_of (station_at (home ∷ outside ∷ []) (some 1))) ≡ false)
    × ((is_home (address_of (station_at (home ∷ outside ∷ []) (some 0))) ≡ true)
        ⊎ All (λ u. is_local is_home u ≡ false) (home ∷ outside ∷ []))
    × (lan : StationUrl) × (wan : StationUrl) × IsBridged
        (station_at (home ∷ outside ∷ []) (some 0))
        (station_at (home ∷ outside ∷ []) (some 1))
        lan
        wan
        5000
        (get_param (station_at (home ∷ outside ∷ []) (some 0)) key_address)
    × (nat_bridge_stations is_home (λ a. some 5000) (home ∷ outside ∷ []) false
        ≡ (lan ∷ wan ∷ [], bridge_ok))
unfolding station_at get_param get_int atoi_bits
nat_bridge_stations-IsBridged_example =
    nat_bridge_stations-IsBridged is_home (λ a. some 5000) (home ∷ outside ∷ []) false 0 1 5000
      selected refl refl refl refl (omega arith) refl
