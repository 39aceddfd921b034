-- ===== src/Session/Types.antt =====
-- nextendo-nex/matchmaking.go: Gathering, MatchmakeSession and AutoMatchmakeParam with their level
-- codecs. Go embeds Gathering in MatchmakeSession and promotes its fields; here they are one record
-- whose first ten fields are the gathering's.
use nextendo_mk8d_matchmakin.Base.{ℕ, Bool, List, [], ◌++◌}
use nextendo_mk8d_matchmakin.Wire.Settings.{Settings}
use nextendo_mk8d_matchmakin.Wire.Out.{
  Bytes, write_u8, write_u16, write_u32, write_u64, write_bool, write_pid, write_string,
  write_buffer, write_list, write_level,
}
use nextendo_mk8d_matchmakin.Wire.In.{
  Reader, ◌>>=◌, give, read_u8, read_u16, read_u32, read_u64, read_bool, read_pid, read_string,
  read_buffer, read_list, read_level,
}
use nextendo_mk8d_matchmakin.Session.Variant.{Params, write_params, read_params}

pub record GatheringInfo : Type 0 where
  pub id : ℕ
  pub owner_pid : ℕ
  pub host_pid : ℕ
  pub min_participants : ℕ
  pub max_participants : ℕ
  pub participation_policy : ℕ
  pub policy_argument : ℕ
  pub flags : ℕ
  pub state : ℕ
  pub description : Bytes

pub record SessionInfo : Type 0 where
  pub game_mode : ℕ
  pub attribs : List ℕ
  pub open_participation : Bool
  pub matchmake_system : ℕ
  pub application_data : Bytes
  pub num_participants : ℕ
  pub progress_score : ℕ
  pub session_key : Bytes
  pub option : ℕ
  pub param : Params
  pub started_time : ℕ
  pub user_password : Bytes
  pub refer_gid : ℕ
  pub user_password_enabled : Bool
  pub system_password_enabled : Bool
  pub codeword : Bytes

-- `MatchmakeSession`
pub record Session : Type 0 where
  pub gathering : GatheringInfo
  pub info : SessionInfo

-- `gatheringLevel`, saving
unfoldable pub save_gathering : Settings → GatheringInfo → Bytes
save_gathering s g =
    write_u32 g.id
    ++ (write_pid s g.owner_pid
        ++ (write_pid s g.host_pid
            ++ (write_u16 g.min_participants
                ++ (write_u16 g.max_participants
                    ++ (write_u32 g.participation_policy
                        ++ (write_u32 g.policy_argument
                            ++ (write_u32 g.flags
                                ++ (write_u32 g.state ++ (write_string g.description ++ [])))))))))

-- `gatheringLevel`, loading
unfoldable pub load_gathering : Settings → Reader GatheringInfo
load_gathering s = do
  id ← read_u32
  owner_pid ← read_pid s
  host_pid ← read_pid s
  min_participants ← read_u16
  max_participants ← read_u16
  participation_policy ← read_u32
  policy_argument ← read_u32
  flags ← read_u32
  state ← read_u32
  description ← read_string
  give (record {
    id = id;
    owner_pid = owner_pid;
    host_pid = host_pid;
    min_participants = min_participants;
    max_participants = max_participants;
    participation_policy = participation_policy;
    policy_argument = policy_argument;
    flags = flags;
    state = state;
    description = description;
  })

-- The second level of `MatchmakeSession.Levels`, saving
unfoldable pub save_info : Settings → SessionInfo → Bytes
save_info s m =
    write_u32 m.game_mode
    ++ (write_list write_u32 m.attribs
        ++ (write_bool m.open_participation
            ++ (write_u32 m.matchmake_system
                ++ (write_buffer m.application_data
                    ++ (write_u32 m.num_participants
                        ++ (write_u8 m.progress_score
                            ++ (write_buffer m.session_key
                                ++ (write_u32 m.option
                                    ++ (write_params s m.param
                                        ++ (write_u64 m.started_time
                                            ++ (write_string m.user_password
                                                ++ (write_u32 m.refer_gid
                                                    ++ (write_bool m.user_password_enabled
                                                        ++ (write_bool m.system_password_enabled
                                                            ++ (write_string m.codeword
                                                            ++ [])))))))))))))))

-- The second level of `MatchmakeSession.Levels`, loading
unfoldable pub load_info : Settings → Reader SessionInfo
load_info s = do
  game_mode ← read_u32
  attribs ← read_list read_u32
  open_participation ← read_bool
  matchmake_system ← read_u32
  application_data ← read_buffer
  num_participants ← read_u32
  progress_score ← read_u8
  session_key ← read_buffer
  option ← read_u32
  param ← read_params s
  started_time ← read_u64
  user_password ← read_string
  refer_gid ← read_u32
  user_password_enabled ← read_bool
  system_password_enabled ← read_bool
  codeword ← read_string
  give (record {
    game_mode = game_mode;
    attribs = attribs;
    open_participation = open_participation;
    matchmake_system = matchmake_system;
    application_data = application_data;
    num_participants = num_participants;
    progress_score = progress_score;
    session_key = session_key;
    option = option;
    param = param;
    started_time = started_time;
    user_password = user_password;
    refer_gid = refer_gid;
    user_password_enabled = user_password_enabled;
    system_password_enabled = system_password_enabled;
    codeword = codeword;
  })

-- `o.Add(&session)`: the gathering's level, then the session's own.
unfoldable pub write_session : Settings → Session → Bytes
write_session s m =
    write_level s 0 (save_gathering s m.gathering) ++ write_level s 0 (save_info s m.info)

-- `i.Extract(&session)`
unfoldable pub read_session : Settings → Reader Session
read_session s = do
  gathering ← read_level s (load_gathering s)
  info ← read_level s (load_info s)
  give (record { gathering = gathering; info = info })

-- `AutoMatchmakeParam.Levels`: only the session, the first field, is taken from the level's body.
unfoldable pub write_auto_param : Settings → Session → Bytes
write_auto_param s m = write_level s 0 (write_session s m)

unfoldable pub read_auto_param : Settings → Reader Session
read_auto_param s = read_level s (read_session s)
