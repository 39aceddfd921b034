-- ===== src/Tournament/Blob.antt =====
-- nextendo-nex/tournament.go: the structure that a creator sends, which the server completes in three
-- places and keeps otherwise as it is.
use nextendo_mk8d_matchmakin.Base.{
  ℕ, zero, suc, ◌+◌, ◌-◌, ◌%◌, ◌==◌, ltb, leb, if◌then◌else◌, Bool, true, false, not, ◌&&◌, ◌||◌,
  Option, none, some, List, [], ◌∷◌, ◌++◌,
}
use nextendo_mk8d_matchmakin.Base.Lists.{length, take, drop, get_or}
use nextendo_mk8d_matchmakin.Wire.Out.{Bytes, le, write_u32}
use nextendo_mk8d_matchmakin.Wire.In.{le_value}
use nextendo_mk8d_matchmakin.Session.Variant.{bytes_eq}

-- `Tournament`
pub record Tournament : Type 0 where
  pub id : ℕ
  pub owner : ℕ
  pub code : Bytes
  pub mark : Bytes
  pub blob : Bytes
  pub participants : List ℕ
  pub created_at : ℕ

abbrev pub tournament_code_len : ℕ
tournament_code_len = 12

abbrev pub tournament_max_blob : ℕ
tournament_max_blob = 4096

abbrev pub tournament_max : ℕ
tournament_max = 2000

abbrev pub tournament_name_length_offset : ℕ
tournament_name_length_offset = 0x69

-- The loop of `newTournamentCode`: a digit for each random byte.
unfoldable pub tournament_code : Bytes → Bytes
tournament_code [] = []
tournament_code (v ∷ vs) = (b'0' + v % 10) ∷ tournament_code vs

-- The scan for the bytes 1, 0, 0 from a place on; `pos` is the place of the list's first byte.
unfoldable pub scan_empty_string : ℕ → Bytes → Option ℕ
scan_empty_string pos (a ∷ b ∷ c ∷ bs) =
    let rest = scan_empty_string (pos + 1) (b ∷ c ∷ bs) in
    if a == 1 && b == 0 && c == 0 then some pos else rest
scan_empty_string pos _ = none

-- The bytes of a property behind its first one, by its type.
abbrev pub property_rest : ℕ → Option ℕ
property_rest t =
    if t == 1 then some 3 else if t == 2 then some 4 else if t == 4 then some 6 else none

abbrev pub skip_of : Option ℕ → ℕ
skip_of none = 0
skip_of (some n) = n

abbrev pub if_known : Option ℕ → Option ℕ → Option ℕ → Option ℕ
if_known none known unknown = unknown
if_known (some n) known unknown = known

-- The walk over the property list, as a recursion on the bytes from `pos` on: a property's bytes
-- behind its first one are skipped one by one.
unfoldable pub walk_properties : ℕ → ℕ → Bytes → Option ℕ
walk_properties skip pos [] = none
walk_properties (suc skip) pos (b ∷ bs) = walk_properties skip (pos + 1) bs
walk_properties zero pos (b ∷ bs) =
    let kind = property_rest (get_or bs 0 0) in
    let rest = walk_properties (skip_of kind) (pos + 1) bs in
    if b == 0xFF
    then (if leb 8 (length (b ∷ bs)) then some (pos + 5) else none)
    else if length bs == 0
    then none
    else if_known kind rest (scan_empty_string pos (b ∷ bs))

-- `binary.LittleEndian.Uint16(b[i:])`
abbrev pub le16_at : ℕ → Bytes → ℕ
le16_at i b = le_value (take 2 (drop i b))

-- `tournamentCodeOffset`, with `none` for -1
unfoldable pub tournament_code_offset : Bytes → Option ℕ
tournament_code_offset b =
    let name_len = le16_at tournament_name_length_offset b in
    let pos = tournament_name_length_offset + 2 + name_len in
    if ltb (length b) (tournament_name_length_offset + 2)
    then none
    else if ltb name_len 2 || not (name_len % 2 == 0)
    then none
    else walk_properties 0 pos (drop pos b)

unfoldable pub all_digits : Bytes → Bool
all_digits [] = true
all_digits (c ∷ cs) = leb b'0' c && leb c b'9' && all_digits cs

-- `validTournamentCode`
unfoldable pub valid_tournament_code : Bytes → Bool
valid_tournament_code code = length code == tournament_code_len && all_digits code

unfoldable pub matches_at : Option ℕ → Bytes → Bytes → Bool
matches_at none b code = false
matches_at (some i) b code =
    valid_tournament_code code
    && leb (i + 2) (length b)
    && (le16_at i b == tournament_code_len + 1)
    && leb (i + 2 + le16_at i b) (length b)
    && (get_or b (i + 2 + le16_at i b - 1) 0 == 0)
    && bytes_eq (take tournament_code_len (drop (i + 2) b)) code

-- `tournamentCodeMatches`
unfoldable pub tournament_code_matches : Bytes → Bytes → Bool
tournament_code_matches b code = matches_at (tournament_code_offset b) b code

-- `validStoredTournament`
unfoldable pub valid_stored_tournament : Tournament → Bool
valid_stored_tournament t =
    not (t.id == 0)
    && leb 12 (length t.blob)
    && leb (length t.blob) (tournament_max_blob + tournament_code_len)
    && (le_value (take 4 t.blob) == t.id)
    && tournament_code_matches t.blob t.code

-- `copy(dst, src)`
unfoldable pub copy_into : Bytes → Bytes → Bytes
copy_into [] src = []
copy_into (d ∷ dst) [] = d ∷ dst
copy_into (d ∷ dst) (v ∷ src) = v ∷ copy_into dst src

-- The id and the mark in the first twelve bytes.
unfoldable pub stamp_head : Bytes → ℕ → Bytes → Bytes
stamp_head payload id mark =
    write_u32 id ++ (copy_into (take 8 (drop 4 payload)) mark ++ drop 12 payload)

-- The code as a string of the wire, in place of the empty one.
abbrev pub code_string : Bytes → Bytes
code_string code = le 2 (length code + 1) ++ (code ++ (0 ∷ []))

-- `bytes.Equal(b[i:i+3], []byte{1, 0, 0})`
abbrev pub is_empty_string_at : ℕ → Bytes → Bool
is_empty_string_at i b = bytes_eq (take 3 (drop i b)) (1 ∷ 0 ∷ 0 ∷ [])

unfoldable pub stamp_code : Option ℕ → Bytes → Bytes → Bytes
stamp_code none out code = out
stamp_code (some i) out code =
    if valid_tournament_code code && is_empty_string_at i out
    then take i out ++ (code_string code ++ drop (i + 3) out)
    else out

-- `stampTournament`
unfoldable pub stamp_tournament : Bytes → ℕ → Bytes → Bytes → Bytes
stamp_tournament payload id mark code =
    let out = stamp_head payload id mark in
    if ltb (length payload) 12 then payload else stamp_code (tournament_code_offset out) out code
