-- ===== src/Session/Variant.antt =====
-- nextendo-nex/types.go, Variant, and the parameter map of nextendo-nex/matchmaking.go. The source's
-- record of all the alternatives, of which the tag selects one, is a data type here; a tag that the
-- source does not know carries no value. Doubles and signed integers are their 64 bits.
use nextendo_mk8d_matchmakin.Base.{
  ℕ, ◌==◌, if◌then◌else◌, Bool, true, false, ◌&&◌, List, [], ◌∷◌, ◌++◌,
}
use nextendo_mk8d_matchmakin.Wire.Settings.{Settings}
use nextendo_mk8d_matchmakin.Wire.Out.{
  Bytes, write_u8, write_u64, write_bool, write_string, write_list, write_level,
}
use nextendo_mk8d_matchmakin.Wire.In.{
  Reader, ◌>>=◌, give, read_u8, read_u64, read_bool, read_string, read_list, read_level,
}

pub data Variant : Type 0 where
  int64 double date_time uint64 : ℕ → Variant
  boolean : Bool → Variant
  text : Bytes → Variant
  -- `VariantNil` (0) and every tag without a case in the source's switches
  other_tag : ℕ → Variant

-- `(s *StreamOut) Variant`
unfoldable pub write_variant : Variant → Bytes
write_variant (int64 n) = write_u8 1 ++ write_u64 n
write_variant (double n) = write_u8 2 ++ write_u64 n
write_variant (boolean b) = write_u8 3 ++ write_bool b
write_variant (text t) = write_u8 4 ++ write_string t
write_variant (date_time n) = write_u8 5 ++ write_u64 n
write_variant (uint64 n) = write_u8 6 ++ write_u64 n
write_variant (other_tag t) = write_u8 t

unfoldable pub variant_of_tag : ℕ → Reader Variant
variant_of_tag t =
    if t == 1
    then (do n ← read_u64; give (int64 n))
    else if t == 2
    then (do n ← read_u64; give (double n))
    else if t == 3
    then (do b ← read_bool; give (boolean b))
    else if t == 4
    then (do str ← read_string; give (text str))
    else if t == 5
    then (do n ← read_u64; give (date_time n))
    else if t == 6
    then (do n ← read_u64; give (uint64 n))
    else give (other_tag t)

-- `(s *StreamIn) Variant`
unfoldable pub read_variant : Reader Variant
read_variant = do t ← read_u8; variant_of_tag t

-- `map[string]Variant`: the keys are the bytes of the strings.
abbrev pub Params : Type 0
Params = List (Bytes × Variant)

abbrev pub bytes_eq : Bytes → Bytes → Bool
bytes_eq [] [] = true
bytes_eq (a ∷ as') (b ∷ bs) = a == b && bytes_eq as' bs
bytes_eq _ _ = false

-- `m[k] = v` on such a map
unfoldable pub set_param : Bytes → Variant → Params → Params
set_param k v [] = (k, v) ∷ []
set_param k v ((j, w) ∷ m) = if bytes_eq j k then (k, v) ∷ m else (j, w) ∷ set_param k v m

-- Pairs that were read, assigned in the order of the wire: a later one replaces an earlier one.
unfoldable pub assign_params : List (Bytes × Variant) → Params → Params
assign_params [] m = m
assign_params ((k, v) ∷ ps) m = assign_params ps (set_param k v m)

abbrev pub write_pair : Bytes × Variant → Bytes
write_pair p = write_string p.0 ++ write_variant p.1

abbrev pub read_pair : Reader (Bytes × Variant)
read_pair = do k ← read_string; v ← read_variant; give (k, v)

-- `MatchmakeParam.Levels`, saving
unfoldable pub write_params : Settings → Params → Bytes
write_params s m = write_level s 0 (write_list write_pair m)

-- `MatchmakeParam.Levels`, loading
unfoldable pub read_params : Settings → Reader Params
read_params s = read_level s (do ps ← read_list read_pair; give (assign_params ps []))
