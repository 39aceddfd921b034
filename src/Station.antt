-- ===== src/Station.antt =====
-- nextendo-nex/types.go: station addresses of the form "scheme:/k=v;k=v". A text is its bytes. The
-- source keeps the keys in the order of their first assignment and the values in a map beside them;
-- one list of pairs in that order is both.
pub mod Parse
pub mod RoundTrip
pub mod Params
use nextendo_mk8d_matchmakin.Base.{
  ℕ, ◌+◌, ◌-◌, ◌*◌, ◌%◌, ◌^◌, ◌==◌, ltb, leb, if◌then◌else◌, Bool, true, false, ◌&&◌, Option, none,
  some, List, [], ◌∷◌, ◌++◌,
}
use nextendo_mk8d_matchmakin.Wire.Out.{Bytes}
use nextendo_mk8d_matchmakin.Session.Variant.{bytes_eq}

pub record StationUrl : Type 0 where
  pub scheme : Bytes
  pub params : List (Bytes × Bytes)

abbrev pub find_text : Bytes → List (Bytes × Bytes) → Option Bytes
find_text k [] = none
find_text k ((j, v) ∷ m) = if bytes_eq j k then some v else find_text k m

abbrev pub set_text : Bytes → Bytes → List (Bytes × Bytes) → List (Bytes × Bytes)
set_text k v [] = (k, v) ∷ []
set_text k v ((j, w) ∷ m) = if bytes_eq j k then (j, v) ∷ m else (j, w) ∷ set_text k v m

-- No key stands twice in the source's map; here every pair of the key goes.
abbrev pub erase_text : Bytes → List (Bytes × Bytes) → List (Bytes × Bytes)
erase_text k [] = []
erase_text k ((j, w) ∷ m) = if bytes_eq j k then erase_text k m else (j, w) ∷ erase_text k m

-- `Set`, `Get`, `Has`, `Remove`. `Copy` is the value itself here.
unfoldable pub set_param : StationUrl → Bytes → Bytes → StationUrl
set_param u k v = record u { params = set_text k v u.params }

abbrev pub text_or_empty : Option Bytes → Bytes
text_or_empty none = []
text_or_empty (some v) = v

unfoldable pub get_param : StationUrl → Bytes → Bytes
get_param u k = text_or_empty (find_text k u.params)

abbrev is_some : Option Bytes → Bool
is_some none = false
is_some (some v) = true

unfoldable pub has_param : StationUrl → Bytes → Bool
has_param u k = is_some (find_text k u.params)

unfoldable pub remove_param : StationUrl → Bytes → StationUrl
remove_param u k = record u { params = erase_text k u.params }

-- `strconv.Atoi` with its error ignored: the int64 as its 64 bits, 0 where the text is no number,
-- and the nearest int64 where the number is out of range.
unfoldable pub digits_value : ℕ → Bytes → Option ℕ
digits_value acc [] = some acc
digits_value acc (c ∷ cs) =
    let rest = digits_value (acc * 10 + (c - b'0')) cs in
    if leb b'0' c && leb c b'9' then rest else none

unfoldable pub positive_bits : Option ℕ → ℕ
positive_bits none = 0
positive_bits (some n) = if ltb n (2 ^ 63) then n else 2 ^ 63 - 1

unfoldable pub negative_bits : Option ℕ → ℕ
negative_bits none = 0
negative_bits (some n) = if ltb n (2 ^ 63) then (2 ^ 64 - n) % 2 ^ 64 else 2 ^ 63

unfoldable pub unsigned_digits : Bytes → Option ℕ
unfolding digits_value
unsigned_digits [] = none
unsigned_digits (c ∷ cs) = digits_value 0 (c ∷ cs)

unfoldable pub atoi_bits : Bytes → ℕ
unfolding unsigned_digits positive_bits negative_bits
atoi_bits [] = 0
atoi_bits (c ∷ cs) =
    if c == b'-'
    then negative_bits (unsigned_digits cs)
    else if c == b'+'
    then positive_bits (unsigned_digits cs)
    else positive_bits (unsigned_digits (c ∷ cs))

-- `GetInt`
unfoldable pub get_int : StationUrl → Bytes → ℕ
unfolding get_param atoi_bits
get_int u k = atoi_bits (get_param u k)

unfoldable pub join_params : List (Bytes × Bytes) → Bytes
join_params [] = []
join_params ((k, v) ∷ []) = k ++ (b'=' ∷ v)
join_params ((k, v) ∷ p ∷ ps) = (k ++ (b'=' ∷ v)) ++ (b';' ∷ join_params (p ∷ ps))

unfoldable pub with_scheme : Bytes → Bytes → Bytes
with_scheme [] joined = joined
with_scheme (c ∷ cs) joined = (c ∷ cs) ++ (b':' ∷ b'/' ∷ joined)

-- `String`
unfoldable pub render : StationUrl → Bytes
unfolding join_params with_scheme
render u = with_scheme u.scheme (join_params u.params)
