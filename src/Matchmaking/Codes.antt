-- ===== src/Matchmaking/Codes.antt =====
-- nextendo-nex/matchmaking_handlers.go: room codes.
use nextendo_mk8d_matchmakin.Base.{
  ℕ, zero, suc, ◌+◌, ◌*◌, ◌/◌, ◌%◌, ◌^◌, ◌==◌, ltb, if◌then◌else◌, not, ◌&&◌, Option, none, some,
  [], ◌∷◌, ◌++◌,
}
use nextendo_mk8d_matchmakin.Base.Lists.{length, get_or, drop}
use nextendo_mk8d_matchmakin.Base.Maps.{find}
use nextendo_mk8d_matchmakin.Wire.Out.{
  Bytes, write_u8, write_u32, write_u64, write_string, write_buffer,
}
use nextendo_mk8d_matchmakin.Wire.In.{stream, read_string}
use nextendo_mk8d_matchmakin.Session.Variant.{bytes_eq}
use nextendo_mk8d_matchmakin.Rmc.{RmcMessage}
use nextendo_mk8d_matchmakin.Matchmaking.State.{Gathering, Store, Codes}
use nextendo_mk8d_matchmakin.Matchmaking.World.{Outcome}
use nextendo_mk8d_matchmakin.Matchmaking.Create.{put_gathering, reply_only, extension_success}
use nextendo_mk8d_matchmakin.Matchmaking.Leave.{request_gid}
use nextendo_mk8d_matchmakin.Matchmaking.SessionPart.{insert_code}

-- "ABCDEFGHIJKLMNPQRSTUVWXYZ23456789", without `O`, `0` and `1`.
abbrev pub alphabet : Bytes
alphabet =
    b'A' ∷ b'B' ∷ b'C' ∷ b'D' ∷ b'E' ∷ b'F' ∷ b'G' ∷ b'H' ∷ b'I' ∷ b'J' ∷ b'K' ∷ b'L' ∷ b'M' ∷ b'N'
    ∷ b'P' ∷ b'Q' ∷ b'R' ∷ b'S' ∷ b'T' ∷ b'U' ∷ b'V' ∷ b'W' ∷ b'X' ∷ b'Y' ∷ b'Z' ∷ b'2' ∷ b'3'
    ∷ b'4' ∷ b'5' ∷ b'6' ∷ b'7' ∷ b'8' ∷ b'9' ∷ []

-- The loop of `makeCode`: `n` digits of `x`, the lowest first.
unfoldable pub code_digits : ℕ → ℕ → Bytes
code_digits zero x = []
code_digits (suc n) x =
    get_or alphabet (x % length alphabet) 0 ∷ code_digits n (x / length alphabet)

-- The next `codeRand`, a uint32.
unfoldable pub next_code_rand : ℕ → ℕ → ℕ
next_code_rand code_rand gid = (code_rand * 1103515245 + 12345 + gid) % 2 ^ 32

-- `g.code = code`, if there is such a gathering.
unfoldable pub set_code : ℕ → Bytes → Option Gathering → Store → Store
set_code gid code none m = m
set_code gid code (some g) m = put_gathering gid (record g { code = code }) m

-- `makeCode`
unfoldable pub make_code : Store → ℕ → Store × Bytes
make_code m gid =
    let rand = next_code_rand m.code_rand gid in
    let code = code_digits 5 rand in
    let m' = record m { code_rand = rand; by_code = insert_code code gid m.by_code } in
    (set_code gid code (find gid m.gatherings) m', code)

-- The reply's body: a structure with the code and the date 0.
abbrev pub code_body : Bytes → Bytes
code_body code = write_u8 0 ++ write_buffer (write_string code ++ write_u64 0)

-- `privateRoomCreate`
unfoldable pub private_room_create : Store → RmcMessage → Outcome
private_room_create m req =
    let (m', code) = make_code m (request_gid req) in
    reply_only m' (extension_success req (code_body code))

-- `byCode[code]`, 0 where it is missing
unfoldable pub find_code : Bytes → Codes → ℕ
find_code k [] = 0
find_code k ((j, gid) ∷ m) = if bytes_eq j k then gid else find_code k m

-- The code in a request: a string, or else one behind five bytes of a structure header.
unfoldable pub request_code : Bytes → Bytes
request_code body =
    let (code, i) = read_string (stream body) in
    if not (length code == 5) && ltb 5 (length body)
    then (read_string (stream (drop 5 body))).0
    else code

-- `resolveCode`
unfoldable pub resolve_code : Store → RmcMessage → RmcMessage
resolve_code m req = extension_success req (write_u32 (find_code (request_code req.body) m.by_code))
