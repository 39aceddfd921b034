-- ===== src/Ranking/CommonRules.antt =====
-- nextendo-nex/ranking.go: what a player learns of the others.
use nextendo_mk8d_matchmakin.Base.{
  ℕ, ◌≤◌, ◌≡◌, refl, ◌==◌, ltb, if◌then◌else◌, false, some, List, [], ◌∷◌, ◌++◌, arith,
}
use nextendo_mk8d_matchmakin.Base.Lists.{length, All, length-append}
use nextendo_mk8d_matchmakin.Base.Maps.{find-insert}
use nextendo_mk8d_matchmakin.Wire.Settings.{Settings}
use nextendo_mk8d_matchmakin.Wire.Out.{
  Bytes, write_u8, write_u32, write_pid, write_buffer, write_qbuffer, write_list, write_elements,
}
use nextendo_mk8d_matchmakin.Wire.In.{stream, read_u32}
use nextendo_mk8d_matchmakin.Wire.Reads.{FitsPid, le-Reads, pid-Reads, length-le, buffer-Reads}
use nextendo_mk8d_matchmakin.Rmc.{RmcMessage}
use nextendo_mk8d_matchmakin.Endpoint.State.{Connection}
use nextendo_mk8d_matchmakin.Ranking.Common.{
  Rankings, put_common_data, common_data, upload_common_data, write_common, common_data_body,
}
use mathlib.Core.List.{append-nil, append_assoc}

-- The entries that answer a list of players.
abbrev pub entries_of : Rankings → List ℕ → Bytes
entries_of r pids = write_elements (λ pid. write_qbuffer (common_data r pid)) pids

write_common-All :
    (s : Settings) (r : Rankings) (pids : List ℕ) (rest : Bytes)
    → All (FitsPid s) pids
    → write_common s r (length pids) (stream (write_elements (write_pid s) pids ++ rest))
      ≡ some (entries_of r pids)
unfolding write_common write_elements
write_common-All s r [] rest h = refl
write_common-All s r (pid ∷ pids) rest h = rw (
  append_assoc (write_pid s pid) (write_elements (write_pid s) pids) rest,
  pid-Reads s pid h.0 (write_elements (write_pid s) pids ++ rest),
  write_common-All s r pids rest h.1,
)

-- A request for the data of one to 256 players is answered by what is stored of each, in the order of
-- the request, and by an empty entry for a player without data.
pub common_data_body_in_order :
    (s : Settings) (r : Rankings) (pids : List ℕ)
    → All (FitsPid s) pids
    → 1 ≤ length pids
    → length pids ≤ 256
    → common_data_body s r (write_list (write_pid s) pids)
      ≡ write_u8 0 ++ write_buffer (write_u32 (length pids) ++ entries_of r pids)
unfolding common_data_body write_list
common_data_body_in_order s r pids fits some_one few =
    let n = length pids in
    let body = write_elements (write_pid s) pids in
    let read : read_u32 (stream (write_u32 n ++ body)) ≡ (n, stream body) =
      le-Reads 4 n (omega arith) body in
    let whole : write_common s r n (stream body) ≡ some (entries_of r pids) =
      rw (append-nil body) at (write_common-All s r pids [] fits) in
    let long : ltb (length (write_u32 n ++ body)) 4 ≡ false =
      ground (arith, length-append (write_u32 n) body, length-le 4 n) in
    let nonzero : (n == 0) ≡ false = ground arith in
    let within : ltb 256 n ≡ false = ground arith in rw (long, read, nonzero, within, whole)

-- After a player uploads data of one to 4096 bytes, the store has these for it, and for every other
-- player what it had.
pub common_data-upload :
    (r : Rankings) (caller : Connection) (req : RmcMessage) (blob rest : Bytes) (pid : ℕ)
    → req.body ≡ write_buffer blob ++ rest
    → 1 ≤ length blob
    → length blob ≤ 4096
    → common_data (upload_common_data r caller req).0 pid
      ≡ (if caller.pid == pid then blob else common_data r pid)
unfolding upload_common_data put_common_data common_data
common_data-upload r caller req blob rest pid e some_byte small =
    let read = buffer-Reads blob (omega arith) rest in
    rw (e, read) (ground (arith, find-insert caller.pid pid blob r.common))
