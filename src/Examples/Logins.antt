-- ===== src/Examples/Logins.antt =====
-- Examples of tickets and logins. The cipher exchanges 0 and 1 in every byte and leaves the others.
use nextendo_mk8d_matchmakin.Base.{
  ℕ, zero, suc, ◌^◌, ◌<◌, ◌≡◌, refl, true, none, some, [], ◌∷◌, ◌++◌, arith, inr,
}
use nextendo_mk8d_matchmakin.Base.Lists.{length, replicate}
use nextendo_mk8d_matchmakin.Wire.Out.{Bytes, le, write_u32, write_buffer}
use nextendo_mk8d_matchmakin.Wire.Settings.{Settings}
use nextendo_mk8d_matchmakin.Kerberos.{
  Crypto, ServerTicket, kerberos_encrypt, encrypt_server_ticket, ticket_fields,
}
use nextendo_mk8d_matchmakin.Kerberos.Login.{Identity, process_login_request}
use nextendo_mk8d_matchmakin.Kerberos.Tickets.{
  CryptoLaws, FitsTicket, check_fields, process_login_request-encrypt_server_ticket,
}
use nextendo_mk8d_matchmakin.Examples.{settings}

abbrev exchange : ℕ → ℕ
exchange zero = 1
exchange (suc zero) = 0
exchange (suc (suc n)) = suc (suc n)

exchange_twice : (n : ℕ) → exchange (exchange n) ≡ n
exchange_twice zero = refl
exchange_twice (suc zero) = refl
exchange_twice (suc (suc n)) = refl

abbrev exchange_all : Bytes → Bytes
exchange_all [] = []
exchange_all (b ∷ bs) = exchange b ∷ exchange_all bs

exchange_all_twice : (bs : Bytes) → exchange_all (exchange_all bs) ≡ bs
exchange_all_twice [] = refl
exchange_all_twice (b ∷ bs) = let e = exchange_twice b in let h = exchange_all_twice bs in cc

abbrev crypto : Crypto
crypto = record {
  rc4 = λ key bs. exchange_all bs;
  hmac_md5 = λ key bs. replicate 16 7;
  md5 = λ bs. replicate 16 9;
}

crypto_laws : CryptoLaws crypto
crypto_laws = record {
  rc4_undo = λ key bs fits. exchange_all_twice bs;
  mac_length = λ key bs. refl;
  md5_length = λ bs. refl;
}

abbrev small_settings : Settings
small_settings = record settings { kerberos_key_size = 2 }

abbrev ticket : ServerTicket
ticket = record { timestamp = 5; source = 100; session_key = 3 ∷ 4 ∷ [] }

abbrev secure_key : Bytes
secure_key = 1 ∷ 2 ∷ 3 ∷ []

abbrev sealed_ticket : Bytes
sealed_ticket =
    write_buffer (8 ∷ 8 ∷ [])
    ++ write_buffer (kerberos_encrypt crypto (replicate 16 9) (ticket_fields small_settings ticket))

abbrev nobody : Identity
nobody = record { pid = 0; cid = 0; session_key = [] }

ticket_fits : FitsTicket small_settings ticket
ticket_fits = record { timestamp = omega arith; source = omega arith; session_key = refl }

ticket_sealed :
    encrypt_server_ticket crypto small_settings (8 ∷ 8 ∷ []) secure_key ticket ≡ some sealed_ticket
unfolding encrypt_server_ticket kerberos_encrypt write_buffer
ticket_sealed = refl

sizes :
    (length sealed_ticket < 256 ^ 4)
    × (length (kerberos_encrypt crypto (3 ∷ 4 ∷ []) (check_fields small_settings 100 6 41))
        < 256 ^ 4)
unfolding kerberos_encrypt write_buffer le
sizes = (omega arith, omega arith)

process_login_request-encrypt_server_ticket_example :
    process_login_request crypto small_settings true secure_key none nobody (
      write_buffer sealed_ticket
      ++ write_buffer (kerberos_encrypt crypto (3 ∷ 4 ∷ []) (check_fields small_settings 100 6 41)))
    ≡ some (record { pid = 100; cid = 6; session_key = 3 ∷ 4 ∷ [] }, write_u32 4 ++ write_u32 42)
process_login_request-encrypt_server_ticket_example =
    process_login_request-encrypt_server_ticket crypto small_settings (8 ∷ 8 ∷ []) secure_key
      sealed_ticket ticket none nobody 100 6 41 crypto_laws (inr refl) (omega arith, omega arith)
      (omega arith, omega arith) ticket_fits sizes.0 sizes.1 (omega arith) (omega arith)
      (omega arith) ticket_sealed
