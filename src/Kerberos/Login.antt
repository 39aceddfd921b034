-- ===== src/Kerberos/Login.antt =====
-- nextendo-nex/endpoint.go, `processLoginRequest`: who a connection is after its CONNECT.
use nextendo_mk8d_matchmakin.Base.{
  ℕ, ◌+◌, ◌%◌, ◌^◌, ◌==◌, if◌then◌else◌, Bool, not, Option, none, some, [], ◌++◌,
}
use nextendo_mk8d_matchmakin.Base.Lists.{length}
use nextendo_mk8d_matchmakin.Wire.Settings.{Settings}
use nextendo_mk8d_matchmakin.Wire.Out.{Bytes, write_u32}
use nextendo_mk8d_matchmakin.Wire.In.{Reader, stream, ◌>>=◌, give, read_u32, read_pid, read_buffer}
use nextendo_mk8d_matchmakin.Kerberos.{
  Crypto, ServerTicket, kerberos_decrypt, decrypt_server_ticket,
}

-- The fields of `Connection` that a login sets.
pub record Identity : Type 0 where
  pub pid : ℕ
  pub cid : ℕ
  pub session_key : Bytes

-- The pid, the cid and the check value that the client sends under the session key.
unfoldable pub read_check_data : Settings → Reader (ℕ × ℕ × ℕ)
read_check_data s = do pid ← read_pid s; cid ← read_u32; check ← read_u32; give (pid, cid, check)

unfoldable pub check_request : Settings → ServerTicket → Option Bytes → Option (Identity × Bytes)
check_request s t none = none
check_request s t (some dec) =
    let ((pid, cid, check), _) = read_check_data s (stream dec) in
    if not (length dec == s.pid_size + 8)
    then none
    else if not (pid == t.source)
    then none
    else some (
      record { pid = pid; cid = cid; session_key = t.session_key },
      write_u32 4 ++ write_u32 ((check + 1) % 2 ^ 32),
    )

unfoldable pub check_ticket :
    Crypto → Settings → Option ServerTicket → Bytes → Option (Identity × Bytes)
check_ticket c s none request = none
check_ticket c s (some t) request = check_request s t (kerberos_decrypt c t.session_key request)

-- A CONNECT without a ticket: `recalled` is what `RecallAuthPID` returns for the address.
unfoldable pub inherit : Identity → Option ℕ → Option (Identity × Bytes)
inherit me none = none
inherit me (some pid) = some (record me { pid = pid }, [])

-- `processLoginRequest`, with `none` for an error, after which the connection is as before; `me` is
-- the connection's identity before the call, `key` the endpoint's secure key.
unfoldable pub process_login_request :
    Crypto → Settings → Bool → Bytes → Option ℕ → Identity → Bytes → Option (Identity × Bytes)
process_login_request c s secure key recalled me payload =
    let (ticket, i) = read_buffer (stream payload) in
    let (request, j) = read_buffer i in
    if not secure
    then some (me, [])
    else if length payload == 0
    then inherit me recalled
    else if j.failed
    then none
    else check_ticket c s (decrypt_server_ticket c s key ticket) request
