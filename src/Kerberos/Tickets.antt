-- ===== src/Kerberos/Tickets.antt =====
-- nextendo-nex/kerberos.go and endpoint.go: what the server seals it opens again, and what a login
-- with such a ticket yields.
use nextendo_mk8d_matchmakin.Base.{
  ℕ, ◌+◌, ◌-◌, ◌%◌, ◌^◌, ◌≤◌, ◌<◌, ◌≡◌, ◌⊎◌, refl, ap, ◌∙◌, ◌==◌, ltb, if◌then◌else◌, true, false,
  Option, none, some, [], ◌++◌, arith, inl, inr, Bool-cases,
}
use nextendo_mk8d_matchmakin.Base.Lists.{
  length, length-append, take-append_length, drop-append_length,
}
use nextendo_mk8d_matchmakin.Wire.Settings.{Settings}
use nextendo_mk8d_matchmakin.Wire.Out.{Bytes, write_u32, write_u64, write_pid, write_buffer}
use nextendo_mk8d_matchmakin.Wire.In.{stream, read_buffer}
use nextendo_mk8d_matchmakin.Wire.Reads.{
  Reads, FitsPid, FitsBuffer, le-Reads, pid-Reads, read-Reads, buffer-Reads, length-le,
}
use nextendo_mk8d_matchmakin.Session.Keys.{bytes_eq_refl}
use nextendo_mk8d_matchmakin.Kerberos.{
  Crypto, ServerTicket, kerberos_encrypt, kerberos_decrypt, ticket_fields, encrypt_server_ticket,
  read_server_ticket, open_ticket, decrypt_server_ticket,
}
use nextendo_mk8d_matchmakin.Kerberos.Login.{
  Identity, read_check_data, check_request, check_ticket, process_login_request,
}
use mathlib.Core.List.{append-nil, append_assoc}

abbrev pub FitsKey : Bytes → Type 0
FitsKey key = (1 ≤ length key) × (length key ≤ 256)

-- What the code relies on: RC4 with the same key undoes itself; HMAC-MD5 and MD5 have 16 bytes.
pub record CryptoLaws (c : Crypto) : Type 0 where
  pub rc4_undo : (key plain : Bytes) → FitsKey key → c.rc4 key (c.rc4 key plain) ≡ plain
  pub mac_length : (key plain : Bytes) → length (c.hmac_md5 key plain) ≡ 16
  pub md5_length : (plain : Bytes) → length (c.md5 plain) ≡ 16

kerberos_decrypt-encrypt :
    (c : Crypto) (key plain : Bytes)
    → CryptoLaws c
    → FitsKey key
    → kerberos_decrypt c key (kerberos_encrypt c key plain) ≡ some plain
unfolding kerberos_decrypt kerberos_encrypt
kerberos_decrypt-encrypt c key plain laws fits =
    let enc = c.rc4 key plain in
    let mac = c.hmac_md5 key enc in
    let size : length (enc ++ mac) ≡ length enc + 16 =
      omega (arith, length-append enc mac, laws.mac_length key enc) in
    let long : ltb (length enc + 16) 16 ≡ false = ground arith in
    let front : length enc + 16 - 16 ≡ length enc = omega arith in
    rw
      (
        size,
        long,
        front,
        take-append_length enc mac,
        drop-append_length enc mac,
        bytes_eq_refl mac,
        laws.rc4_undo key plain fits,
      )
      refl

-- A ticket whose fields fit the wire.
pub record FitsTicket (s : Settings) (t : ServerTicket) : Type 0 where
  pub timestamp : t.timestamp < 256 ^ 8
  pub source : FitsPid s t.source
  pub session_key : length t.session_key ≡ s.kerberos_key_size

read_server_ticket-Reads :
    (s : Settings) (t : ServerTicket)
    → FitsTicket s t
    → Reads (read_server_ticket s) (ticket_fields s t) t
unfolding read_server_ticket
read_server_ticket-Reads s t h rest =
    rw
      (
        append_assoc (write_u64 t.timestamp) (write_pid s t.source ++ t.session_key) rest,
        append_assoc (write_pid s t.source) t.session_key rest,
        le-Reads 8 t.timestamp h.timestamp (write_pid s t.source ++ (t.session_key ++ rest)),
        pid-Reads s t.source h.source (t.session_key ++ rest),
        read-Reads s.kerberos_key_size t.session_key h.session_key rest,
      )
      refl

open_ticket-fields :
    (s : Settings) (t : ServerTicket)
    → FitsTicket s t
    → open_ticket s (some (ticket_fields s t)) ≡ some t
unfolding open_ticket
open_ticket-fields s t h =
    let read_back = rw (append-nil (ticket_fields s t)) at (read_server_ticket-Reads s t h []) in
    rw read_back refl

-- Two buffers behind each other are read back.
two_buffers :
    (a b : Bytes)
    → FitsBuffer a
    → FitsBuffer b
    → (read_buffer (stream (write_buffer a ++ write_buffer b)) ≡ (a, stream (write_buffer b)))
      × (read_buffer (stream (write_buffer b)) ≡ (b, stream []))
two_buffers a b ha hb =
    (buffer-Reads a ha (write_buffer b), rw (append-nil (write_buffer b)) at (buffer-Reads b hb []))

length-write_buffer : (b : Bytes) → length (write_buffer b) ≡ 4 + length b
unfolding write_buffer
length-write_buffer b =
    omega (arith, length-append (write_u32 (length b)) b, length-le 4 (length b))

-- What the server sealed with its key, with whatever random key in between, it opens again to the same
-- ticket: in version 1, where the two keys are mixed, and in the other.
decrypt_server_ticket-encrypt :
    (c : Crypto) (s : Settings) (ticket_key key blob : Bytes) (t : ServerTicket)
    → CryptoLaws c
    → FitsKey key
    → FitsTicket s t
    → FitsBuffer blob
    → encrypt_server_ticket c s ticket_key key t ≡ some blob
    → decrypt_server_ticket c s key blob ≡ some t
unfolding decrypt_server_ticket encrypt_server_ticket
decrypt_server_ticket-encrypt c s ticket_key key blob t laws fits_key fits small e =
    let sized : (length t.session_key == s.kerberos_key_size) ≡ true =
      ground (arith, fits.session_key) in
    elim (Bool-cases (s.kerberos_ticket_version == 1)) [
      | inl v ↦
          let mixed = c.md5 (key ++ ticket_key) in
          let inner = kerberos_encrypt c mixed (ticket_fields s t) in
          let same : blob ≡ write_buffer ticket_key ++ write_buffer inner =
            let h = rw (sized, v) at e in cc in
          let total : length blob ≡ (4 + length ticket_key) + (4 + length inner) =
            ap length same
            ∙ omega (
              arith,
              length-append (write_buffer ticket_key) (write_buffer inner),
              length-write_buffer ticket_key,
              length-write_buffer inner,
            ) in
          let (first, second) =
            two_buffers ticket_key inner (omega (arith, total)) (omega (arith, total)) in
          rw (same, v, first, second)
            (rw
              (kerberos_decrypt-encrypt c mixed (ticket_fields s t) laws (
                omega (arith, laws.md5_length (key ++ ticket_key)),
                omega (arith, laws.md5_length (key ++ ticket_key)),
              ))
              (open_ticket-fields s t fits))
      | inr v ↦
          let same : blob ≡ kerberos_encrypt c key (ticket_fields s t) =
            let h = rw (sized, v) at e in cc in
          rw (same, v)
            (rw (kerberos_decrypt-encrypt c key (ticket_fields s t) laws fits_key)
              (open_ticket-fields s t fits))
    ]

-- What the client sends under the session key.
abbrev pub check_fields : Settings → ℕ → ℕ → ℕ → Bytes
check_fields s pid cid check = write_pid s pid ++ (write_u32 cid ++ write_u32 check)

length-write_pid :
    (s : Settings) (pid : ℕ) → length (write_pid s pid) ≡ (if s.pid_size == 8 then 8 else 4)
length-write_pid s pid = elim (Bool-cases (s.pid_size == 8)) [
  | inl e ↦ rw e (length-le 8 pid)
  | inr e ↦ rw e (length-le 4 pid)
]

length-check_fields :
    (s : Settings) (pid cid check : ℕ)
    → (s.pid_size ≡ 4) ⊎ (s.pid_size ≡ 8)
    → length (check_fields s pid cid check) ≡ s.pid_size + 8
length-check_fields s pid cid check h =
    let most : length (check_fields s pid cid check) ≡ length (write_pid s pid) + 8 = omega (
      arith,
      length-append (write_pid s pid) (write_u32 cid ++ write_u32 check),
      length-append (write_u32 cid) (write_u32 check),
      length-le 4 cid,
      length-le 4 check,
    ) in
    elim h [
      | inl e ↦ ground (arith, e, most, length-write_pid s pid)
      | inr e ↦ ground (arith, e, most, length-write_pid s pid)
    ]

read_check_data-fields :
    (s : Settings) (pid cid check : ℕ)
    → FitsPid s pid
    → cid < 256 ^ 4
    → check < 256 ^ 4
    → read_check_data s (stream (check_fields s pid cid check)) ≡ ((pid, cid, check), stream [])
unfolding read_check_data
read_check_data-fields s pid cid check fits hc hk =
    let last = rw (append-nil (write_u32 check)) at (le-Reads 4 check hk []) in
    rw
      (
        pid-Reads s pid fits (write_u32 cid ++ write_u32 check),
        le-Reads 4 cid hc (write_u32 check),
        last,
      )
      refl

opened :
    (c : Crypto) (s : Settings) (t : ServerTicket) (named cid check : ℕ)
    → CryptoLaws c
    → FitsKey t.session_key
    → (s.pid_size ≡ 4) ⊎ (s.pid_size ≡ 8)
    → FitsPid s named
    → cid < 256 ^ 4
    → check < 256 ^ 4
    → check_ticket c s (some t) (kerberos_encrypt c t.session_key (check_fields s named cid check))
      ≡ (if named == t.source
          then some (
            record { pid = t.source; cid = cid; session_key = t.session_key },
            write_u32 4 ++ write_u32 ((check + 1) % 2 ^ 32),
          )
          else none)
unfolding check_ticket check_request
opened c s t named cid check laws fits_key sizes fits hc hk =
    let long : (length (check_fields s named cid check) == s.pid_size + 8) ≡ true =
      ground (arith, length-check_fields s named cid check sizes) in
    rw (kerberos_decrypt-encrypt c t.session_key (check_fields s named cid check) laws fits_key) (
      rw (read_check_data-fields s named cid check fits hc hk, long)
        (elim (Bool-cases (named == t.source)) [
          | inl e ↦
              let same : named ≡ t.source = ground arith in
              let self : (t.source == t.source) ≡ true = ground arith in rw (same, self) refl
          | inr e ↦ rw e refl
        ]))

-- Login with a ticket, on a secure endpoint, whoever the connection was before: where the ticket is
-- one that was sealed with the endpoint's key, and the request one that was sealed with the ticket's
-- session key, the connection becomes the player of the ticket, with the client's connection id and
-- the session key, and the answer proves the key by the check value plus one; but a request that
-- names another player than the ticket is refused.
pub process_login_request-encrypt_server_ticket :
    (c : Crypto) (s : Settings) (ticket_key key blob : Bytes) (t : ServerTicket)
    (recalled : Option ℕ) (me : Identity) (named cid check : ℕ)
    → CryptoLaws c
    → (s.pid_size ≡ 4) ⊎ (s.pid_size ≡ 8)
    → FitsKey key
    → FitsKey t.session_key
    → FitsTicket s t
    → FitsBuffer blob
    → FitsBuffer (kerberos_encrypt c t.session_key (check_fields s named cid check))
    → FitsPid s named
    → cid < 256 ^ 4
    → check < 256 ^ 4
    → encrypt_server_ticket c s ticket_key key t ≡ some blob
    → process_login_request c s true key recalled me (
        write_buffer blob
        ++ write_buffer (kerberos_encrypt c t.session_key (check_fields s named cid check)))
      ≡ (if named == t.source
          then some (
            record { pid = t.source; cid = cid; session_key = t.session_key },
            write_u32 4 ++ write_u32 ((check + 1) % 2 ^ 32),
          )
          else none)
unfolding process_login_request
process_login_request-encrypt_server_ticket c s ticket_key key blob t recalled me named cid check
      laws sizes fits_key fits_session fits small small' fits_pid hc hk e =
    let request = kerberos_encrypt c t.session_key (check_fields s named cid check) in
    let (first, second) = two_buffers blob request small small' in
    let some_bytes : (length (write_buffer blob ++ write_buffer request) == 0) ≡ false =
      ground (
        arith,
        length-append (write_buffer blob) (write_buffer request),
        length-write_buffer blob,
      ) in
    rw (first, second, some_bytes)
      (rw (decrypt_server_ticket-encrypt c s ticket_key key blob t laws fits_key fits small e)
        (opened c s t named cid check laws fits_session sizes fits_pid hc hk))
