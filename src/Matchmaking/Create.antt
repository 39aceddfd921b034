-- ===== src/Matchmaking/Create.antt =====
-- nextendo-nex/matchmaking_handlers.go: new gatherings, and the shapes of a reply.
use nextendo_mk8d_matchmakin.Base.{
  ℕ, ◌+◌, ◌-◌, ◌%◌, ◌^◌, ◌==◌, if◌then◌else◌, Bool, true, false, some, List, [], ◌∷◌, ◌++◌,
}
use nextendo_mk8d_matchmakin.Base.Lists.{length, replicate}
use nextendo_mk8d_matchmakin.Base.Maps.{insert}
use nextendo_mk8d_matchmakin.Wire.Out.{Bytes, write_bool, write_u32}
use nextendo_mk8d_matchmakin.Session.Variant.{set_param, boolean, int64}
use nextendo_mk8d_matchmakin.Session.Types.{Session, SessionInfo, GatheringInfo}
use nextendo_mk8d_matchmakin.Rmc.{RmcMessage, rmc_success, rmc_error, core_not_implemented}
use nextendo_mk8d_matchmakin.Endpoint.State.{Connection}
use nextendo_mk8d_matchmakin.Matchmaking.State.{Gathering, Store}
use nextendo_mk8d_matchmakin.Matchmaking.World.{World, Outcome}

abbrev pub protocol_match_making : ℕ
protocol_match_making = 0x15

abbrev pub protocol_matchmake_extension : ℕ
protocol_matchmake_extension = 0x6D

abbrev pub protocol_match_making_ext : ℕ
protocol_match_making_ext = 0x32

-- "@SR" and "@GIR"
abbrev pub key_sr : Bytes
key_sr = b'@' ∷ b'S' ∷ b'R' ∷ []

abbrev pub key_gir : Bytes
key_gir = b'@' ∷ b'G' ∷ b'I' ∷ b'R' ∷ []

-- The loop that appends zeros until there are `n` attributes.
unfoldable pub pad_attribs : ℕ → List ℕ → List ℕ
pad_attribs n attribs = attribs ++ replicate (n - length attribs) 0

unfoldable pub finalize_gathering : World → GatheringInfo → ℕ → ℕ → GatheringInfo
finalize_gathering w g gid owner_pid = record g {
  id = gid;
  owner_pid = owner_pid;
  host_pid = owner_pid;
  max_participants = if g.max_participants == 0 then 12 else g.max_participants;
  state = if w.open_participation_default then 1 else g.state;
}

unfoldable pub finalize_info : World → SessionInfo → SessionInfo
finalize_info w i = record i {
  attribs = pad_attribs 6 i.attribs;
  open_participation = if w.open_participation_default then true else i.open_participation;
  num_participants = 1;
  session_key = w.random_key;
  param = set_param key_gir (int64 3) (set_param key_sr (boolean true) i.param);
  started_time = w.started_time;
  user_password_enabled = if w.open_participation_default then false else i.user_password_enabled;
  system_password_enabled = false;
}

-- `finalizeCreatedSession`
unfoldable pub finalize_created_session : World → Session → ℕ → ℕ → Session
finalize_created_session w session gid owner_pid = record {
  gathering = finalize_gathering w session.gathering gid owner_pid;
  info = finalize_info w session.info;
}

-- `m.gatherings[gid] = g`
abbrev pub put_gathering : ℕ → Gathering → Store → Store
put_gathering gid g m = record m { gatherings = insert gid g m.gatherings }

unfoldable pub new_gathering : World → ℕ → Connection → Session → Gathering
new_gathering w gid caller src = record {
  session = finalize_created_session w src gid caller.pid;
  participants = caller.pid ∷ [];
  host_conn_id = caller.id;
  code = [];
  reservations = [];
}

-- `createGathering`: the id counter is a uint32.
unfoldable pub create_gathering : World → Store → Connection → Session → Store × Gathering
create_gathering w m caller src =
    let g = new_gathering w m.next_gid caller src in
    (put_gathering m.next_gid g (record m { next_gid = (m.next_gid + 1) % 2 ^ 32 }), g)

-- `g.session.NumParticipants = uint32(len(g.participants))`
abbrev pub count_participants : Gathering → Gathering
count_participants g = record g {
  session = record (g.session) {
    info = record (g.session.info) { num_participants = length g.participants % 2 ^ 32 };
  };
}

abbrev pub reply_only : Store → RmcMessage → Outcome
reply_only m r = record { store = m; pushes = []; reply = some r }

-- A success of the extension protocol.
abbrev pub extension_success : RmcMessage → Bytes → RmcMessage
extension_success req body = rmc_success protocol_matchmake_extension req.method req.call_id body

abbrev pub extension_error : RmcMessage → ℕ → RmcMessage
extension_error req code = rmc_error protocol_matchmake_extension req.call_id code

-- `boolResponse`, `emptyList`, `notImplemented`
abbrev pub bool_response : ℕ → RmcMessage → Bool → RmcMessage
bool_response protocol req v = rmc_success protocol req.method req.call_id (write_bool v)

abbrev pub empty_list : ℕ → RmcMessage → RmcMessage
empty_list protocol req = rmc_success protocol req.method req.call_id (write_u32 0)

abbrev pub not_implemented : ℕ → RmcMessage → RmcMessage
not_implemented protocol req = rmc_error protocol req.call_id core_not_implemented
