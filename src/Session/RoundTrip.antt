-- ===== src/Session/RoundTrip.antt =====
-- nextendo-nex/matchmaking.go: reading what the codecs of a session write: variants, parameters, both
-- levels, the session.
use nextendo_mk8d_matchmakin.Base.{
  ℕ, ◌^◌, ◌≤◌, ◌<◌, ◌≡◌, ◌⊎◌, refl, sym, ap, ◌∙◌, true, false, [], ◌∷◌, ◌++◌, arith,
}
use nextendo_mk8d_matchmakin.Base.Lists.{All, length}
use nextendo_mk8d_matchmakin.Wire.Settings.{Settings}
use nextendo_mk8d_matchmakin.Wire.Out.{Bytes, write_string, write_list, write_level, le}
use nextendo_mk8d_matchmakin.Wire.In.{stream, read_le}
use nextendo_mk8d_matchmakin.Wire.Reads.{
  Reads, FitsPid, FitsString, FitsBuffer, le-Reads, bool-Reads, pid-Reads, string-Reads,
  buffer-Reads, list-Reads, level-Reads, length-le, framed_level-Reads,
}
use nextendo_mk8d_matchmakin.Session.Variant.{
  Variant, int64, double, date_time, uint64, boolean, text, other_tag, write_variant, read_variant,
  variant_of_tag, Params, bytes_eq, set_param, assign_params, write_pair, read_pair, write_params,
  read_params,
}
use nextendo_mk8d_matchmakin.Session.Types.{
  GatheringInfo, SessionInfo, Session, save_gathering, load_gathering, save_info, load_info,
  write_session, read_session, read_auto_param,
}
use mathlib.Core.List.{append-nil, append_assoc}

-- The values of a gathering fit the fields of the wire.
pub record FitsGathering (s : Settings) (g : GatheringInfo) : Type 0 where
  pub id : g.id < 256 ^ 4
  pub owner_pid : FitsPid s g.owner_pid
  pub host_pid : FitsPid s g.host_pid
  pub min_participants : g.min_participants < 256 ^ 2
  pub max_participants : g.max_participants < 256 ^ 2
  pub participation_policy : g.participation_policy < 256 ^ 4
  pub policy_argument : g.policy_argument < 256 ^ 4
  pub flags : g.flags < 256 ^ 4
  pub state : g.state < 256 ^ 4
  pub description : FitsString g.description

gathering-Reads :
    (s : Settings) (g : GatheringInfo)
    → FitsGathering s g
    → Reads (load_gathering s) (save_gathering s g) g
unfolding load_gathering save_gathering
gathering-Reads s g h rest = simp (
  append_assoc,
  le-Reads 4 g.id h.id,
  pid-Reads s g.owner_pid h.owner_pid,
  pid-Reads s g.host_pid h.host_pid,
  le-Reads 2 g.min_participants h.min_participants,
  le-Reads 2 g.max_participants h.max_participants,
  le-Reads 4 g.participation_policy h.participation_policy,
  le-Reads 4 g.policy_argument h.policy_argument,
  le-Reads 4 g.flags h.flags,
  le-Reads 4 g.state h.state,
  string-Reads g.description h.description,
)

-- A variant whose tag the source knows, with a value that fits; or an unknown tag on its own.
abbrev pub FitsVariant : Variant → Type 0
FitsVariant (int64 n) = n < 256 ^ 8
FitsVariant (double n) = n < 256 ^ 8
FitsVariant (date_time n) = n < 256 ^ 8
FitsVariant (uint64 n) = n < 256 ^ 8
FitsVariant (boolean b) = Unit {0}
FitsVariant (text t) = FitsString t
FitsVariant (other_tag t) = (t ≡ 0) ⊎ ((6 < t) × (t < 256))

variant-Reads : (v : Variant) → FitsVariant v → Reads read_variant (write_variant v) v
unfolding read_variant variant_of_tag write_variant
variant-Reads (int64 n) h rest = simp (append_assoc, le-Reads 1 1 (omega arith), le-Reads 8 n h)
variant-Reads (double n) h rest = simp (append_assoc, le-Reads 1 2 (omega arith), le-Reads 8 n h)
variant-Reads (boolean b) h rest = simp (append_assoc, le-Reads 1 3 (omega arith), bool-Reads b)
variant-Reads (text t) h rest = simp (append_assoc, le-Reads 1 4 (omega arith), string-Reads t h)
variant-Reads (date_time n) h rest = simp (append_assoc, le-Reads 1 5 (omega arith), le-Reads 8 n h)
variant-Reads (uint64 n) h rest = simp (append_assoc, le-Reads 1 6 (omega arith), le-Reads 8 n h)
variant-Reads (other_tag t) h rest = ground (arith, le-Reads 1 t (omega arith) rest)

abbrev pub FitsPair : Bytes × Variant → Type 0
FitsPair p = FitsString p.0 × FitsVariant p.1

pair-Reads : (p : Bytes × Variant) → FitsPair p → Reads read_pair (write_pair p) p
pair-Reads (k, v) h rest = simp (append_assoc, string-Reads k h.0, variant-Reads v h.1)

length-write_pair : (p : Bytes × Variant) → 1 ≤ length (write_pair p)
unfolding write_string le
length-write_pair (k, v) = omega arith

-- A key of the first list is no key of the second.
abbrev pub Apart : Params → Params → Type 0
Apart m ps = All (λ e. All (λ p. bytes_eq e.0 p.0 ≡ false) ps) m

-- No key stands twice.
abbrev pub DistinctKeys : Params → Type 0
DistinctKeys [] = Unit {0}
DistinctKeys (e ∷ m) = All (λ p. bytes_eq e.0 p.0 ≡ false) m × DistinctKeys m

set_param_new :
    (k : Bytes) (v : Variant) (m : Params)
    → All (λ e. bytes_eq e.0 k ≡ false) m
    → set_param k v m ≡ m ++ ((k, v) ∷ [])
unfolding set_param
set_param_new k v [] h = refl
set_param_new k v ((j, w) ∷ m) h = rw h.0 (ap (λ t. (j, w) ∷ t) (set_param_new k v m h.1))

Apart-heads :
    (m : Params) (k : Bytes) (v : Variant) (ps : Params)
    → Apart m ((k, v) ∷ ps)
    → All (λ e. bytes_eq e.0 k ≡ false) m
Apart-heads [] k v ps h = tt
Apart-heads (e ∷ m) k v ps h = (h.0.0, Apart-heads m k v ps h.1)

Apart-snoc :
    (m : Params) (k : Bytes) (v : Variant) (ps : Params)
    → Apart m ((k, v) ∷ ps)
    → All (λ p. bytes_eq k p.0 ≡ false) ps
    → Apart (m ++ ((k, v) ∷ [])) ps
Apart-snoc [] k v ps h d = (d, tt)
Apart-snoc (e ∷ m) k v ps h d = (h.0.1, Apart-snoc m k v ps h.1 d)

assign_params-append : (ps m : Params) → Apart m ps → DistinctKeys ps → assign_params ps m ≡ m ++ ps
unfolding assign_params
assign_params-append [] m a d = sym (append-nil m)
assign_params-append ((k, v) ∷ ps) m a d = rw (set_param_new k v m (Apart-heads m k v ps a)) (
    assign_params-append ps (m ++ ((k, v) ∷ [])) (Apart-snoc m k v ps a d.0) d.1
    ∙ append_assoc m ((k, v) ∷ []) ps)

-- The parameters of a session, as a map: no key twice, each pair fit for the wire, and small enough.
pub record FitsParams (m : Params) : Type 0 where
  pub pairs : All FitsPair m
  pub distinct : DistinctKeys m
  pub count : length m < 256 ^ 4
  pub size : FitsBuffer (write_list write_pair m)

params-Reads :
    (s : Settings) (m : Params) → FitsParams m → Reads (read_params s) (write_params s m) m
unfolding read_params write_params
params-Reads s m h = level-Reads s 0 _ (write_list write_pair m) m (omega arith) h.size (λ rest.
    simp (
      list-Reads read_pair write_pair FitsPair pair-Reads length-write_pair m h.pairs h.count,
      assign_params-append m [] tt h.distinct,
    ))

pub record FitsInfo (s : Settings) (m : SessionInfo) : Type 0 where
  pub game_mode : m.game_mode < 256 ^ 4
  pub attribs : All (λ a. a < 256 ^ 4) m.attribs
  pub attribs_count : length m.attribs < 256 ^ 4
  pub matchmake_system : m.matchmake_system < 256 ^ 4
  pub application_data : FitsBuffer m.application_data
  pub num_participants : m.num_participants < 256 ^ 4
  pub progress_score : m.progress_score < 256 ^ 1
  pub session_key : FitsBuffer m.session_key
  pub option : m.option < 256 ^ 4
  pub param : FitsParams m.param
  pub started_time : m.started_time < 256 ^ 8
  pub user_password : FitsString m.user_password
  pub refer_gid : m.refer_gid < 256 ^ 4
  pub codeword : FitsString m.codeword

length-write_u32 : (a : ℕ) → 1 ≤ length (le 4 a)
length-write_u32 a = omega (arith, length-le 4 a)

info-Reads : (s : Settings) (m : SessionInfo) → FitsInfo s m → Reads (load_info s) (save_info s m) m
unfolding load_info save_info
info-Reads s m h rest = simp (
  append_assoc,
  le-Reads 4 m.game_mode h.game_mode,
  list-Reads (read_le 4) (le 4) (λ a. a < 256 ^ 4) (le-Reads 4) length-write_u32 m.attribs h.attribs
      h.attribs_count,
  bool-Reads m.open_participation,
  le-Reads 4 m.matchmake_system h.matchmake_system,
  buffer-Reads m.application_data h.application_data,
  le-Reads 4 m.num_participants h.num_participants,
  le-Reads 1 m.progress_score h.progress_score,
  buffer-Reads m.session_key h.session_key,
  le-Reads 4 m.option h.option,
  params-Reads s m.param h.param,
  le-Reads 8 m.started_time h.started_time,
  string-Reads m.user_password h.user_password,
  le-Reads 4 m.refer_gid h.refer_gid,
  bool-Reads m.user_password_enabled,
  bool-Reads m.system_password_enabled,
  string-Reads m.codeword h.codeword,
)

-- Every field of the session fits the wire, and so does each framed level as a whole.
pub record FitsSession (s : Settings) (m : Session) : Type 0 where
  pub gathering : FitsGathering s m.gathering
  pub info : FitsInfo s m.info
  pub gathering_size : FitsBuffer (save_gathering s m.gathering)
  pub info_size : FitsBuffer (save_info s m.info)

pub session-Reads :
    (s : Settings) (m : Session) → FitsSession s m → Reads (read_session s) (write_session s m) m
unfolding read_session write_session
session-Reads s m h rest = simp (
  append_assoc,
  level-Reads s 0 (load_gathering s) (save_gathering s m.gathering) m.gathering (omega arith)
      h.gathering_size (gathering-Reads s m.gathering h.gathering),
  level-Reads s 0 (load_info s) (save_info s m.info) m.info (omega arith) h.info_size
      (info-Reads s m.info h.info),
)

-- For every session whose fields and framed levels fit the wire, with structure headers on or off
-- and principal ids of either width: the reader returns exactly the session that was written and
-- leaves what follows it, with no error recorded.
pub read_session-write_session :
    (s : Settings) (m : Session) (rest : Bytes)
    → FitsSession s m
    → read_session s (stream (write_session s m ++ rest)) ≡ (m, stream rest)
read_session-write_session s m rest h = session-Reads s m h rest

-- For every session that fits the wire, when structure headers are on: the reader of the
-- AutoMatchmake parameter returns the session whatever fields follow it inside the parameter's
-- frame, as long as the frame's size fits 32 bits, and leaves what follows the parameter.
pub read_auto_param_tolerant :
    (s : Settings) (m : Session) (version : ℕ) (trailing rest : Bytes)
    → s.struct_header ≡ true
    → version < 256
    → FitsSession s m
    → FitsBuffer (write_session s m ++ trailing)
    → read_auto_param s (stream (write_level s version (write_session s m ++ trailing) ++ rest))
      ≡ (m, stream rest)
unfolding read_auto_param
read_auto_param_tolerant s m version trailing rest on hv h size =
    framed_level-Reads s version (read_session s) (write_session s m ++ trailing) on hv size rest
    ∙ rw (session-Reads s m h trailing)
