-- ===== src/Station/Parse.antt =====
-- nextendo-nex/types.go: parsing a station address, and its integer parameters.
use nextendo_mk8d_matchmakin.Base.{
  ℕ, zero, suc, ◌+◌, ◌-◌, ◌/◌, ◌%◌, ◌^◌, ◌==◌, ltb, if◌then◌else◌, Option, none, some, List, [],
  ◌∷◌, ◌++◌,
}
use nextendo_mk8d_matchmakin.Wire.Out.{Bytes, write_string}
use nextendo_mk8d_matchmakin.Wire.In.{Reader, ◌>>=◌, give, read_string}
use nextendo_mk8d_matchmakin.Station.{StationUrl, set_param, render}

-- `strconv.Itoa` of a number that is not negative; `fuel` digits are enough below 10 ^ fuel.
unfoldable pub decimal : ℕ → ℕ → Bytes
decimal zero n = []
decimal (suc fuel) n =
    let rest = decimal fuel (n / 10) in (if n / 10 == 0 then [] else rest) ++ ((b'0' + n % 10) ∷ [])

-- `strconv.Itoa` of an int64 given by its 64 bits.
unfoldable pub itoa : ℕ → Bytes
itoa v = if ltb v (2 ^ 63) then decimal 20 v else b'-' ∷ decimal 20 (2 ^ 64 - v)

-- `SetInt`
unfoldable pub set_int : StationUrl → Bytes → ℕ → StationUrl
set_int u k v = set_param u k (itoa v)

-- `NewStationURL("prudp")`
abbrev pub new_station_url : StationUrl
new_station_url = record { scheme = b'p' ∷ b'r' ∷ b'u' ∷ b'd' ∷ b'p' ∷ []; params = [] }

abbrev pub no_station_url : StationUrl
no_station_url = record { scheme = []; params = [] }

-- What stands before and behind the first `:/`.
abbrev pub before_first : ℕ → Option (Bytes × Bytes) → Option (Bytes × Bytes)
before_first c none = none
before_first c (some (before, after)) = some (c ∷ before, after)

unfoldable pub cut_scheme : Bytes → Option (Bytes × Bytes)
cut_scheme (c ∷ d ∷ cs) =
    let rest = before_first c (cut_scheme (d ∷ cs)) in
    if c == b':' then (if d == b'/' then some ([], cs) else rest) else rest
cut_scheme _ = none

-- `strings.Split` at one character
abbrev pub add_first : ℕ → List Bytes → List Bytes
add_first c [] = (c ∷ []) ∷ []
add_first c (f ∷ fs) = (c ∷ f) ∷ fs

unfoldable pub split_on : ℕ → Bytes → List Bytes
split_on sep [] = [] ∷ []
split_on sep (c ∷ cs) =
    let rest = split_on sep cs in if c == sep then [] ∷ rest else add_first c rest

-- `strings.SplitN(f, "=", 2)`, with `none` for fewer than two parts
unfoldable pub cut_at : ℕ → Bytes → Option (Bytes × Bytes)
cut_at sep [] = none
cut_at sep (c ∷ cs) =
    let rest = before_first c (cut_at sep cs) in if c == sep then some ([], cs) else rest

abbrev pub set_pair : StationUrl → Option (Bytes × Bytes) → StationUrl
set_pair u none = u
set_pair u (some (k, v)) = set_param u k v

-- The loop over the fields.
unfoldable pub set_fields : StationUrl → List Bytes → StationUrl
set_fields u [] = u
set_fields u (f ∷ fs) = set_fields (set_pair u (cut_at b'=' f)) fs

abbrev pub set_fields_of : StationUrl → Bytes → StationUrl
set_fields_of u [] = u
set_fields_of u (c ∷ cs) = set_fields u (split_on b';' (c ∷ cs))

abbrev pub parse_cut : Option (Bytes × Bytes) → StationUrl
parse_cut none = no_station_url
parse_cut (some (scheme, fields)) = set_fields_of (record { scheme = scheme; params = [] }) fields

-- `ParseStationURL`
unfoldable pub parse_station_url : Bytes → StationUrl
parse_station_url text = parse_cut (cut_scheme text)

-- `StationURLValue` and the `StationURL` writer of the streams
unfoldable pub read_station_url : Reader StationUrl
read_station_url = do text ← read_string; give (parse_station_url text)

abbrev pub write_station_url : StationUrl → Bytes
write_station_url u = write_string (render u)
