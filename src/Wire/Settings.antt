-- ===== src/Wire/Settings.antt =====
-- nextendo-nex/settings.go: the configuration that the wire code reads. The fields that only the
-- transport or the timers read are left out.
use nextendo_mk8d_matchmakin.Base.{ℕ, Bool, true}

pub record Settings : Type 0 where
  pub nex_version : ℕ
  pub struct_header : Bool
  pub pid_size : ℕ
  pub prudp_minor_version : ℕ
  pub supported_functions : ℕ
  pub fragment_size : ℕ
  pub kerberos_key_size : ℕ
  pub kerberos_key_derivation : ℕ
  pub kerberos_ticket_version : ℕ

-- `NewSwitchSettings`
abbrev pub switch_settings : ℕ → Settings
switch_settings nex_version = record {
  nex_version = nex_version;
  struct_header = true;
  pid_size = 8;
  prudp_minor_version = 5;
  supported_functions = 0;
  fragment_size = 1300;
  kerberos_key_size = 32;
  kerberos_key_derivation = 1;
  kerberos_ticket_version = 1;
}
