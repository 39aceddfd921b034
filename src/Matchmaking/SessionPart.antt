-- ===== src/Matchmaking/SessionPart.antt =====
-- nextendo-nex/matchmaking_acnh.go: partial updates of a session (applySessionPart), and
-- updateSessionPart of nextendo-nex/matchmaking_handlers.go.
use nextendo_mk8d_matchmakin.Base.{
  ℕ, ◌==◌, if◌then◌else◌, Bool, true, false, not, ◌&&◌, ◌||◌, Option, none, some, List, [], ◌∷◌,
}
use nextendo_mk8d_matchmakin.Base.Maps.{find}
use nextendo_mk8d_matchmakin.Base.Bits.{test_bit}
use nextendo_mk8d_matchmakin.Wire.Settings.{Settings}
use nextendo_mk8d_matchmakin.Wire.Out.{Bytes}
use nextendo_mk8d_matchmakin.Wire.In.{
  Reader, stream, ◌>>=◌, give, read_u8, read_u16, read_u32, read_u64, read_bool, read_string,
  read_buffer, read_list, read_level,
}
use nextendo_mk8d_matchmakin.Session.Variant.{Params, read_params, bytes_eq}
use nextendo_mk8d_matchmakin.Session.Types.{SessionInfo, GatheringInfo}
use nextendo_mk8d_matchmakin.Rmc.{RmcMessage}
use nextendo_mk8d_matchmakin.Matchmaking.State.{Gathering, Store, Codes, Switches}
use nextendo_mk8d_matchmakin.Matchmaking.World.{Outcome}
use nextendo_mk8d_matchmakin.Matchmaking.Create.{put_gathering, reply_only, extension_success}
use nextendo_mk8d_matchmakin.Matchmaking.Leave.{is_empty}

-- `UpdateMatchmakeSessionParam`
pub record SessionPart : Type 0 where
  pub gid : ℕ
  pub modification_flags : ℕ
  pub attributes : List ℕ
  pub open_participation : Bool
  pub application_buffer : Bytes
  pub progress_score : ℕ
  pub param : Params
  pub started_time : ℕ
  pub user_password : Bytes
  pub game_mode : ℕ
  pub description : Bytes
  pub min_participants : ℕ
  pub max_participants : ℕ
  pub matchmake_system : ℕ
  pub participation_policy : ℕ
  pub policy_argument : ℕ
  pub codeword : Bytes

-- `UpdateMatchmakeSessionParam.Levels`, loading
unfoldable pub read_session_part : Settings → Reader SessionPart
read_session_part s = read_level s do
  gid ← read_u32
  modification_flags ← read_u32
  attributes ← read_list read_u32
  open_participation ← read_bool
  application_buffer ← read_buffer
  progress_score ← read_u8
  param ← read_params s
  started_time ← read_u64
  user_password ← read_string
  game_mode ← read_u32
  description ← read_string
  min_participants ← read_u16
  max_participants ← read_u16
  matchmake_system ← read_u32
  participation_policy ← read_u32
  policy_argument ← read_u32
  codeword ← read_string
  give (record {
    gid = gid;
    modification_flags = modification_flags;
    attributes = attributes;
    open_participation = open_participation;
    application_buffer = application_buffer;
    progress_score = progress_score;
    param = param;
    started_time = started_time;
    user_password = user_password;
    game_mode = game_mode;
    description = description;
    min_participants = min_participants;
    max_participants = max_participants;
    matchmake_system = matchmake_system;
    participation_policy = participation_policy;
    policy_argument = policy_argument;
    codeword = codeword;
  })

-- `modFlagCodeword` is bit 14, `modFlagOpenParticipation` bit 1.
abbrev pub sets_codeword : SessionPart → Bool
sets_codeword p = test_bit 14 p.modification_flags || not (is_empty p.codeword)

abbrev pub sets_open : SessionPart → Bool
sets_open p = test_bit 1 p.modification_flags

unfoldable pub part_info : SessionPart → SessionInfo → SessionInfo
part_info p i = record i {
  codeword = if sets_codeword p then p.codeword else i.codeword;
  attribs = if is_empty p.attributes then i.attribs else p.attributes;
  application_data =
      if is_empty p.application_buffer then i.application_data else p.application_buffer;
  game_mode = if p.game_mode == 0 then i.game_mode else p.game_mode;
  open_participation = if sets_open p then p.open_participation else i.open_participation;
}

unfoldable pub part_gathering : SessionPart → GatheringInfo → GatheringInfo
part_gathering p g = record g {
  max_participants = if p.max_participants == 0 then g.max_participants else p.max_participants;
}

-- The gathering after the update.
unfoldable pub updated_gathering : SessionPart → Gathering → Gathering
updated_gathering p g = record g {
  session = record {
    gathering = part_gathering p g.session.gathering;
    info = part_info p g.session.info;
  };
  code = if sets_codeword p then p.codeword else g.code;
}

-- `m.byCode[code] = gid`
abbrev pub insert_code : Bytes → ℕ → Codes → Codes
insert_code k gid [] = (k, gid) ∷ []
insert_code k gid ((j, v) ∷ m) = if bytes_eq j k then (k, gid) ∷ m else (j, v) ∷ insert_code k gid m

unfoldable pub apply_found : Store → SessionPart → Option Gathering → Store × Bool
apply_found m p none = (m, false)
apply_found m p (some g) =
    let m' = put_gathering p.gid (updated_gathering p g) m in
    (
      if sets_codeword p && not (is_empty p.codeword)
          then record m' { by_code = insert_code p.codeword p.gid m.by_code }
          else m',
      true,
    )

-- `applySessionPart`
unfoldable pub apply_session_part : Store → SessionPart → Store × Bool
apply_session_part m p = apply_found m p (find p.gid m.gatherings)

-- `updateSessionPart`: acknowledged in any case.
unfoldable pub update_session_part : Settings → Switches → Store → RmcMessage → Outcome
update_session_part s switches m req =
    let (p, i) = read_session_part s (stream req.body) in
    reply_only
      (if switches.session_part_persists && not i.failed then (apply_session_part m p).0 else m)
      (extension_success req [])
