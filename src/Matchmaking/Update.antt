-- ===== src/Matchmaking/Update.antt =====
-- nextendo-nex/matchmaking_handlers.go and matchmaking_acnh.go: the calls that change a gathering in
-- place. A loop on fuel yields `none` while it has not ended.
use nextendo_mk8d_matchmakin.Base.{
  ℕ, zero, suc, ◌%◌, ◌^◌, ◌==◌, leb, if◌then◌else◌, Bool, not, ◌&&◌, Option, none, some, List, [],
  ◌∷◌, ◌++◌,
}
use nextendo_mk8d_matchmakin.Base.Lists.{length, get_or, set}
use nextendo_mk8d_matchmakin.Base.Maps.{find}
use nextendo_mk8d_matchmakin.Wire.Settings.{Settings}
use nextendo_mk8d_matchmakin.Wire.Out.{Bytes}
use nextendo_mk8d_matchmakin.Wire.In.{stream, read_u32, read_pid, read_buffer, read_list}
use nextendo_mk8d_matchmakin.Session.Types.{SessionInfo}
use nextendo_mk8d_matchmakin.Rmc.{RmcMessage, rmc_success, session_void, core_access_denied}
use nextendo_mk8d_matchmakin.Endpoint.State.{Connection}
use nextendo_mk8d_matchmakin.Matchmaking.State.{Gathering, Store}
use nextendo_mk8d_matchmakin.Matchmaking.World.{World, Outcome, notify_participation}
use nextendo_mk8d_matchmakin.Matchmaking.Create.{
  put_gathering, reply_only, extension_success, extension_error, protocol_match_making,
}
use nextendo_mk8d_matchmakin.Matchmaking.Leave.{request_gid, is_empty}

abbrev pub with_info : Gathering → SessionInfo → Gathering
with_info g i = record g { session = record (g.session) { info = i } }

unfoldable pub set_open : Store → ℕ → Bool → Option Gathering → Store
set_open m gid opens none = m
set_open m gid opens (some g) =
    put_gathering gid (with_info g (record (g.session.info) { open_participation = opens })) m

-- `setParticipation`: OpenParticipation and CloseParticipation.
unfoldable pub set_participation : Store → RmcMessage → Bool → Outcome
set_participation m req opens =
    reply_only (set_open m (request_gid req) opens (find (request_gid req) m.gatherings))
      (extension_success req [])

-- The owner is the first participant.
abbrev pub is_owner : Gathering → ℕ → Bool
is_owner g pid = not (is_empty g.participants) && get_or g.participants 0 0 == pid

unfoldable pub buffer_found :
    Store → Connection → RmcMessage → ℕ → Bytes → Option Gathering → Outcome
buffer_found m caller req gid buffer none = reply_only m (extension_error req session_void)
buffer_found m caller req gid buffer (some g) =
    let owner = get_or g.participants 0 0 in
    if owner == caller.pid
    then reply_only
        (put_gathering gid (with_info g (record (g.session.info) { application_data = buffer })) m)
        (extension_success req [])
    else reply_only m (extension_error req core_access_denied)

-- `updateApplicationBuffer`
unfoldable pub update_application_buffer : Store → Connection → RmcMessage → Outcome
update_application_buffer m caller req =
    let (gid, i) = read_u32 (stream req.body) in
    let (buffer, j) = read_buffer i in buffer_found m caller req gid buffer (find gid m.gatherings)

-- The loop `for uint32(len(attribs)) <= index` of `modifyCurrentGameAttribute`.
unfoldable pub extend_attribs : ℕ → ℕ → List ℕ → Option (List ℕ)
extend_attribs zero index attribs = none
extend_attribs (suc fuel) index attribs =
    let rest = extend_attribs fuel index (attribs ++ (0 ∷ [])) in
    if leb (length attribs % 2 ^ 32) index then rest else some attribs

unfoldable pub store_attribs : Store → ℕ → Gathering → ℕ → ℕ → Option (List ℕ) → Option Store
store_attribs m gid g index value none = none
store_attribs m gid g index value (some attribs) = some (
    put_gathering gid (with_info g (record (g.session.info) { attribs = set attribs index value }))
      m)

unfoldable pub modify_found : ℕ → Store → ℕ → ℕ → ℕ → ℕ → Option Gathering → Option Store
modify_found fuel m pid gid index value none = some m
modify_found fuel m pid gid index value (some g) =
    if is_owner g pid
    then store_attribs m gid g index value (extend_attribs fuel index g.session.info.attribs)
    else some m

-- `modifyCurrentGameAttribute` on the store.
unfoldable pub modify_attribute : ℕ → Store → ℕ → ℕ → ℕ → ℕ → Option Store
modify_attribute fuel m pid gid index value =
    modify_found fuel m pid gid index value (find gid m.gatherings)

unfoldable pub acknowledged : RmcMessage → Option Store → Option Outcome
acknowledged req none = none
acknowledged req (some m) = some (reply_only m (extension_success req []))

-- `modifyCurrentGameAttribute`
unfoldable pub modify_current_game_attribute : ℕ → Store → Connection → RmcMessage → Option Outcome
modify_current_game_attribute fuel m caller req =
    let (gid, i) = read_u32 (stream req.body) in
    let (index, j) = read_u32 i in
    let (value, k) = read_u32 j in
    acknowledged req (modify_attribute fuel m caller.pid gid index value)

abbrev pub after_one : Option ℕ → Option ℕ
after_one none = none
after_one (some i) = some (suc i)

-- Where a number stands first in a list.
unfoldable pub index_of : ℕ → List ℕ → Option ℕ
index_of p [] = none
index_of p (x ∷ xs) = if x == p then some 0 else after_one (index_of p xs)

-- `xs[0], xs[i] = xs[i], xs[0]`
abbrev pub swap_first : List ℕ → ℕ → List ℕ
swap_first xs i = set (set xs 0 (get_or xs i 0)) i (get_or xs 0 0)

abbrev pub swap_to : List ℕ → Option ℕ → List ℕ → List ℕ
swap_to xs none otherwise = otherwise
swap_to xs (some i) otherwise = swap_first xs i

-- The loops of `migrateGatheringOwnership`: the first candidate that takes part comes first.
unfoldable pub migrate_to : List ℕ → List ℕ → List ℕ
migrate_to xs [] = xs
migrate_to xs (c ∷ cs) = swap_to xs (index_of c xs) (migrate_to xs cs)

unfoldable pub migrate_found :
    World → Store → Connection → RmcMessage → ℕ → List ℕ → Option Gathering → Outcome
migrate_found w m caller req gid candidates none =
    reply_only m (rmc_success protocol_match_making req.method req.call_id [])
migrate_found w m caller req gid candidates (some g) =
    let participants = migrate_to g.participants candidates in
    if is_empty g.participants
    then reply_only m (rmc_success protocol_match_making req.method req.call_id [])
    else record {
      store = put_gathering gid (record g { participants = participants }) m;
      pushes = notify_participation w.endpoint caller participants gid [];
      reply = some (rmc_success protocol_match_making req.method req.call_id []);
    }

-- `migrateGatheringOwnership`; the V1 form lacks a closing bool, which is not used.
unfoldable pub migrate_gathering_ownership :
    Settings → World → Store → Connection → RmcMessage → Outcome
migrate_gathering_ownership s w m caller req =
    let (gid, i) = read_u32 (stream req.body) in
    let (candidates, j) = read_list (read_pid s) i in
    migrate_found w m caller req gid candidates (find gid m.gatherings)
