-- ===== src/Wire/Out.antt =====
-- nextendo-nex/stream.go, StreamOut. The stream is append-only, so each writer is modelled by the
-- bytes that it appends and a sequence of writes by `++`. A byte is a number below 256; a string is
-- its bytes; a float64 and an int64 are their 64 bits.
use nextendo_mk8d_matchmakin.Base.{
  ℕ, zero, suc, ◌+◌, ◌/◌, ◌%◌, ◌==◌, if◌then◌else◌, Bool, List, [], ◌∷◌, ◌++◌,
}
use nextendo_mk8d_matchmakin.Base.Lists.{length}
use nextendo_mk8d_matchmakin.Wire.Settings.{Settings}

abbrev pub Bytes : Type 0
Bytes = List ℕ

-- The `n` low bytes of `v`, least significant first; higher bits are cut off, as Go's unsigned
-- conversions do.
unfoldable pub le : ℕ → ℕ → Bytes
le zero v = []
le (suc n) v = v % 256 ∷ le n (v / 256)

-- `byte(v)`, `AppendUint16`, `AppendUint32`, `AppendUint64`
abbrev pub write_u8 : ℕ → Bytes
write_u8 v = le 1 v

abbrev pub write_u16 : ℕ → Bytes
write_u16 v = le 2 v

abbrev pub write_u32 : ℕ → Bytes
write_u32 v = le 4 v

abbrev pub write_u64 : ℕ → Bytes
write_u64 v = le 8 v

unfoldable pub write_bool : Bool → Bytes
write_bool v = if v then write_u8 1 else write_u8 0

abbrev pub write_pid : Settings → ℕ → Bytes
write_pid s v = if s.pid_size == 8 then write_u64 v else write_u32 v

-- `String`: the length counts the closing zero and is cut to 16 bits.
unfoldable pub write_string : Bytes → Bytes
write_string str = write_u16 (length str + 1) ++ (str ++ (0 ∷ []))

unfoldable pub write_buffer : Bytes → Bytes
write_buffer b = write_u32 (length b) ++ b

unfoldable pub write_qbuffer : Bytes → Bytes
write_qbuffer b = write_u16 (length b) ++ b

-- `WriteList` and `WriteMap`: the count, then the elements in the order of the list; a map's order
-- is the one in which the runtime ranges over it.
unfoldable pub write_elements {ℓ} : {A : Type ℓ} → (A → Bytes) → List A → Bytes
write_elements f [] = []
write_elements f (x ∷ xs) = f x ++ write_elements f xs

unfoldable pub write_list {ℓ} : {A : Type ℓ} → (A → Bytes) → List A → Bytes
write_list f xs = write_u32 (length xs) ++ write_elements f xs

-- One level of `WriteStructure`: its version, its length and its body when headers are on.
unfoldable pub write_level : Settings → ℕ → Bytes → Bytes
write_level s version body = if s.struct_header then write_u8 version ++ write_buffer body else body
