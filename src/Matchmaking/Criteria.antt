-- ===== src/Matchmaking/Criteria.antt =====
-- nextendo-nex/matchmaking_acnh.go, types.go and matchmaking.go: the parameters of the queries.
use nextendo_mk8d_matchmakin.Base.{ℕ, leb, if◌then◌else◌, Bool, false, List, []}
use nextendo_mk8d_matchmakin.Wire.Settings.{Settings}
use nextendo_mk8d_matchmakin.Wire.Out.{Bytes}
use nextendo_mk8d_matchmakin.Wire.In.{
  Reader, ◌>>=◌, give, read_u16, read_u32, read_bool, read_pid, read_string, read_list, read_level,
}
use nextendo_mk8d_matchmakin.Session.Variant.{Params, read_params}

-- `ResultRange`
pub record ResultRange : Type 0 where
  pub offset : ℕ
  pub size : ℕ

-- `ResultRange.Levels`, loading
unfoldable pub read_result_range : Settings → Reader ResultRange
read_result_range s =
    read_level s
      do offset ← read_u32; size ← read_u32; give (record { offset = offset; size = size })

-- The fields of the search criteria that came with NEX 4.0.0.
pub record NewerCriteria : Type 0 where
  pub param : Params
  pub exclude_user_password : Bool
  pub exclude_sys_password : Bool
  pub refer_gid : ℕ
  pub codeword : Bytes
  pub range : ResultRange

-- `MatchmakeSessionSearchCriteria`
pub record SearchCriteria : Type 0 where
  pub attribs : List Bytes
  pub game_mode : Bytes
  pub min_participants : Bytes
  pub max_participants : Bytes
  pub matchmake_system : Bytes
  pub vacant_only : Bool
  pub exclude_locked : Bool
  pub exclude_non_host_pid : Bool
  pub selection_method : ℕ
  pub vacant_participants : ℕ
  pub newer_fields : NewerCriteria

-- The zero values that stay in an older version.
abbrev pub no_newer : NewerCriteria
no_newer = record {
  param = [];
  exclude_user_password = false;
  exclude_sys_password = false;
  refer_gid = 0;
  codeword = [];
  range = record { offset = 0; size = 0 };
}

unfoldable pub read_newer : Settings → Reader NewerCriteria
read_newer s = do
  param ← read_params s
  exclude_user_password ← read_bool
  exclude_sys_password ← read_bool
  refer_gid ← read_u32
  codeword ← read_string
  range ← read_result_range s
  give (record {
    param = param;
    exclude_user_password = exclude_user_password;
    exclude_sys_password = exclude_sys_password;
    refer_gid = refer_gid;
    codeword = codeword;
    range = range;
  })

-- `MatchmakeSessionSearchCriteria.Levels`, loading
unfoldable pub read_criteria : Settings → Reader SearchCriteria
read_criteria s = read_level s do
  attribs ← read_list read_string
  game_mode ← read_string
  min_participants ← read_string
  max_participants ← read_string
  matchmake_system ← read_string
  vacant_only ← read_bool
  exclude_locked ← read_bool
  exclude_non_host_pid ← read_bool
  selection_method ← read_u32
  vacant_participants ← if leb 30500 s.nex_version then read_u16 else give 0
  newer_fields ← if leb 40000 s.nex_version then read_newer s else give no_newer
  give (record {
    attribs = attribs;
    game_mode = game_mode;
    min_participants = min_participants;
    max_participants = max_participants;
    matchmake_system = matchmake_system;
    vacant_only = vacant_only;
    exclude_locked = exclude_locked;
    exclude_non_host_pid = exclude_non_host_pid;
    selection_method = selection_method;
    vacant_participants = vacant_participants;
    newer_fields = newer_fields;
  })

-- `MatchmakeBlockListParam.Levels`, loading: its one field, the options.
unfoldable pub read_block_list : Settings → Reader ℕ
read_block_list s = read_level s read_u32

-- `FindMatchmakeSessionByParticipantParam`
pub record ByParticipantParam : Type 0 where
  pub principal_ids : List ℕ
  pub options : ℕ
  pub block_list : ℕ

-- `FindMatchmakeSessionByParticipantParam.Levels`, loading
unfoldable pub read_by_participant_param : Settings → Reader ByParticipantParam
read_by_participant_param s = read_level s do
  principal_ids ← read_list (read_pid s)
  options ← read_u32
  block_list ← read_block_list s
  give (record { principal_ids = principal_ids; options = options; block_list = block_list })
