-- ===== src/Wire/In.antt =====
-- nextendo-nex/stream.go, StreamIn, and `ReadStructure` of nextendo-nex/types.go. The stream is what
-- is left of the data (`data[pos:]`) and whether an error was recorded; a read that fails records
-- it, consumes nothing and yields a zero value.
use nextendo_mk8d_matchmakin.Base.{
  ℕ, zero, suc, ◌+◌, ◌*◌, ◌==◌, ltb, if◌then◌else◌, Bool, true, false, not, ◌||◌, List, [], ◌∷◌,
}
use nextendo_mk8d_matchmakin.Base.Lists.{length, take, drop}
use nextendo_mk8d_matchmakin.Wire.Settings.{Settings}
use nextendo_mk8d_matchmakin.Wire.Out.{Bytes}

pub record StreamIn : Type 0 where
  pub rest : Bytes
  pub failed : Bool

-- `NewStreamIn`
abbrev pub stream : Bytes → StreamIn
stream b = record { rest = b; failed = false }

abbrev pub Reader : Type 0 → Type 0
Reader A = StreamIn → A × StreamIn

infixl 5 ◌>>=◌
abbrev pub ◌>>=◌ : {A B : Type 0} → Reader A → (A → Reader B) → Reader B
◌>>=◌ m f i = f (m i).0 (m i).1

abbrev pub give : {A : Type 0} → A → Reader A
give a i = (a, i)

-- The number that little-endian bytes stand for.
unfoldable pub le_value : Bytes → ℕ
le_value [] = 0
le_value (b ∷ bs) = b + 256 * le_value bs

-- `Read`
unfoldable pub read : ℕ → Reader Bytes
read n i =
    if i.failed || ltb (length i.rest) n
    then ([], record i { failed = i.failed || not (n == 0) })
    else (take n i.rest, record i { rest = drop n i.rest })

-- `ReadAll`
unfoldable pub read_all : Reader Bytes
read_all i = read (length i.rest) i

-- `U8`, `U16`, `U32`, `U64`: `n` bytes as a number, 0 where they are not there.
unfoldable pub read_le : ℕ → Reader ℕ
read_le n i = let (b, i') = read n i in (if ltb (length b) n then 0 else le_value b, i')

abbrev pub read_u8 : Reader ℕ
read_u8 = read_le 1

abbrev pub read_u16 : Reader ℕ
read_u16 = read_le 2

abbrev pub read_u32 : Reader ℕ
read_u32 = read_le 4

abbrev pub read_u64 : Reader ℕ
read_u64 = read_le 8

unfoldable pub read_bool : Reader Bool
read_bool = do v ← read_u8; give (not (v == 0))

abbrev pub read_pid : Settings → Reader ℕ
read_pid s = if s.pid_size == 8 then read_u64 else read_u32

-- `b[:len(b)-1]` if the last byte is 0.
unfoldable pub strip_zero : Bytes → Bytes
strip_zero [] = []
strip_zero (b ∷ []) = if b == 0 then [] else b ∷ []
strip_zero (b ∷ c ∷ bs) = b ∷ strip_zero (c ∷ bs)

unfoldable pub string_body : ℕ → Reader Bytes
string_body n i = let (b, i') = read n i in (if ltb (length b) n then [] else strip_zero b, i')

-- `String`
unfoldable pub read_string : Reader Bytes
read_string = do n ← read_u16; if n == 0 then give [] else string_body n

-- `Buffer` and `QBuffer`
unfoldable pub read_buffer : Reader Bytes
read_buffer = do n ← read_u32; read n

unfoldable pub read_qbuffer : Reader Bytes
read_qbuffer = do n ← read_u16; read n

-- The loop of `ReadList` and `ReadMap`.
unfoldable pub read_elements : {A : Type 0} → Reader A → ℕ → Reader (List A)
read_elements p zero = give []
read_elements p (suc n) = do x ← p; xs ← read_elements p n; give (x ∷ xs)

unfoldable pub counted : {A : Type 0} → Reader A → ℕ → Reader (List A)
counted p n i =
    if ltb (length i.rest) n then ([], record i { failed = true }) else read_elements p n i

-- `ReadList`: a count above the number of bytes left is an error.
unfoldable pub read_list : {A : Type 0} → Reader A → Reader (List A)
read_list p = do n ← read_u32; counted p n

-- One level of `ReadStructure`. The level's fields are read from a stream of their own over the
-- framed body; nothing of that stream comes back, its error neither.
unfoldable pub read_level : {A : Type 0} → Settings → Reader A → Reader A
read_level s load =
    if s.struct_header
    then (do _ ← read_u8; body ← read_buffer; give (load (stream body)).0)
    else load
