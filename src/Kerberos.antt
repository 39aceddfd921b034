-- ===== src/Kerberos.antt =====
-- nextendo-nex/kerberos.go: keys, encryption with a checksum, and the tickets. RC4, MD5 and HMAC are
-- Go's library: parameters. Keys have 1 to 256 bytes; with another one RC4's constructor fails.
use nextendo_mk8d_matchmakin.Base.{
  ℕ, zero, suc, ◌+◌, ◌-◌, ◌%◌, ◌==◌, ltb, if◌then◌else◌, not, Option, none, some, ◌++◌,
}
use nextendo_mk8d_matchmakin.Base.Lists.{length, take, drop}
use nextendo_mk8d_matchmakin.Wire.Settings.{Settings}
use nextendo_mk8d_matchmakin.Wire.Out.{Bytes, write_u64, write_pid, write_buffer}
use nextendo_mk8d_matchmakin.Wire.In.{
  Reader, stream, ◌>>=◌, give, read, read_u64, read_pid, read_buffer,
}
use nextendo_mk8d_matchmakin.Session.Variant.{bytes_eq}
pub mod Login
pub mod Tickets

-- The library's functions; the first argument of `rc4` and `hmac_md5` is the key.
pub record Crypto : Type 0 where
  pub rc4 : Bytes → Bytes → Bytes
  pub hmac_md5 : Bytes → Bytes → Bytes
  pub md5 : Bytes → Bytes

unfoldable pub md5_times : Crypto → ℕ → Bytes → Bytes
md5_times c zero key = key
md5_times c (suc n) key = md5_times c n (c.md5 key)

-- `deriveKeyOld`
unfoldable pub derive_key_old : Crypto → Bytes → ℕ → ℕ → ℕ → Bytes
derive_key_old c password pid base_count pid_count =
    md5_times c (base_count + pid % pid_count) password

-- `deriveKeyNew`
unfoldable pub derive_key_new : Crypto → Bytes → ℕ → ℕ → ℕ → Bytes
derive_key_new c password pid base_count pid_count =
    md5_times c pid_count (md5_times c base_count password ++ write_u64 pid)

-- `DeriveKey`
unfoldable pub derive_key : Crypto → Settings → Bytes → ℕ → Bytes
derive_key c s password pid =
    if s.kerberos_key_derivation == 1
    then derive_key_new c password pid 1 1
    else derive_key_old c password pid 65000 1024

-- `kerberosEncrypt`
unfoldable pub kerberos_encrypt : Crypto → Bytes → Bytes → Bytes
kerberos_encrypt c key plain = c.rc4 key plain ++ c.hmac_md5 key (c.rc4 key plain)

-- `kerberosDecrypt`, with `none` for an error
unfoldable pub kerberos_decrypt : Crypto → Bytes → Bytes → Option Bytes
kerberos_decrypt c key buffer =
    let sealed = take (length buffer - 16) buffer in
    if ltb (length buffer) 16
    then none
    else if not (bytes_eq (drop (length buffer - 16) buffer) (c.hmac_md5 key sealed))
    then none
    else some (c.rc4 key sealed)

-- `ClientTicket`
pub record ClientTicket : Type 0 where
  pub session_key : Bytes
  pub target : ℕ
  pub internal : Bytes

-- `ClientTicket.Encrypt`
unfoldable pub encrypt_client_ticket : Crypto → Settings → Bytes → ClientTicket → Option Bytes
encrypt_client_ticket c s key t =
    if not (length t.session_key == s.kerberos_key_size)
    then none
    else some (
        kerberos_encrypt c key (t.session_key ++ (write_pid s t.target ++ write_buffer t.internal)))

unfoldable pub read_client_ticket : Settings → Reader ClientTicket
read_client_ticket s = do
  session_key ← read s.kerberos_key_size
  target ← read_pid s
  internal ← read_buffer
  give (record { session_key = session_key; target = target; internal = internal })

unfoldable pub open_client_ticket : Settings → Option Bytes → Option ClientTicket
open_client_ticket s none = none
open_client_ticket s (some dec) =
    let (t, i) = read_client_ticket s (stream dec) in if i.failed then none else some t

-- `DecryptClientTicket`
unfoldable pub decrypt_client_ticket : Crypto → Settings → Bytes → Bytes → Option ClientTicket
decrypt_client_ticket c s key sealed = open_client_ticket s (kerberos_decrypt c key sealed)

-- `ServerTicket`
pub record ServerTicket : Type 0 where
  pub timestamp : ℕ
  pub source : ℕ
  pub session_key : Bytes

abbrev pub ticket_fields : Settings → ServerTicket → Bytes
ticket_fields s t = write_u64 t.timestamp ++ (write_pid s t.source ++ t.session_key)

-- `ServerTicket.Encrypt`; `ticket_key` is what it draws at random.
unfoldable pub encrypt_server_ticket :
    Crypto → Settings → Bytes → Bytes → ServerTicket → Option Bytes
encrypt_server_ticket c s ticket_key key t =
    if not (length t.session_key == s.kerberos_key_size)
    then none
    else if s.kerberos_ticket_version == 1
    then some (
        write_buffer ticket_key
        ++ write_buffer (kerberos_encrypt c (c.md5 (key ++ ticket_key)) (ticket_fields s t)))
    else some (kerberos_encrypt c key (ticket_fields s t))

unfoldable pub read_server_ticket : Settings → Reader ServerTicket
read_server_ticket s = do
  timestamp ← read_u64
  source ← read_pid s
  session_key ← read s.kerberos_key_size
  give (record { timestamp = timestamp; source = source; session_key = session_key })

unfoldable pub open_ticket : Settings → Option Bytes → Option ServerTicket
open_ticket s none = none
open_ticket s (some dec) =
    let (t, i) = read_server_ticket s (stream dec) in if i.failed then none else some t

-- `DecryptServerTicket`
unfoldable pub decrypt_server_ticket : Crypto → Settings → Bytes → Bytes → Option ServerTicket
decrypt_server_ticket c s key sealed =
    let (ticket_key, i) = read_buffer (stream sealed) in
    let (inner, j) = read_buffer i in
    if s.kerberos_ticket_version == 1
    then (if j.failed
        then none
        else open_ticket s (kerberos_decrypt c (c.md5 (key ++ ticket_key)) inner))
    else open_ticket s (kerberos_decrypt c key sealed)
