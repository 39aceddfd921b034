-- ===== src/Dedup.antt =====
-- server/rmc_dedup.go: the table of calls in execution and of answers for repeated calls. The entry
-- objects of the source are told apart by a token; a channel that waiters block on is the token of the
-- entry that has it.
use nextendo_mk8d_matchmakin.Base.{
  ℕ, zero, suc, ◌+◌, ◌*◌, ◌%◌, ◌^◌, ◌==◌, ltb, leb, if◌then◌else◌, Bool, true, false, not, ◌&&◌,
  ◌||◌, Option, none, some, List, [], ◌∷◌,
}
use nextendo_mk8d_matchmakin.Base.Lists.{length, contains}
use nextendo_mk8d_matchmakin.Wire.Out.{Bytes}
use nextendo_mk8d_matchmakin.Session.Variant.{bytes_eq}
use nextendo_mk8d_matchmakin.Rmc.{RmcMessage}
use nextendo_mk8d_matchmakin.Endpoint.State.{Connection}
pub mod Table
pub mod Turns
pub mod Runs
pub mod Replay

-- `rmcDedupKey`
pub record Key : Type 0 where
  pub connection_id : ℕ
  pub pid : ℕ
  pub protocol : ℕ
  pub method : ℕ
  pub call_id : ℕ
  pub body_hash : Bytes

abbrev pub key_eq : Key → Key → Bool
key_eq a b =
    a.connection_id == b.connection_id
    && (a.pid == b.pid
        && (a.protocol == b.protocol
            && (a.method == b.method
                && (a.call_id == b.call_id && bytes_eq a.body_hash b.body_hash))))

-- `rmcDedupEntry`: in flight with a channel to wait on, or answered until some time.
pub data Entry : Type 0 where
  in_flight : (token : ℕ) → Entry
  answered : (response : RmcMessage) (expires : ℕ) → Entry

abbrev pub Entries : Type 0
Entries = List (Key × Entry)

abbrev pub find_entry : Key → Entries → Option Entry
find_entry k [] = none
find_entry k ((j, e) ∷ m) = if key_eq j k then some e else find_entry k m

abbrev pub put_entry : Key → Entry → Entries → Entries
put_entry k e [] = (k, e) ∷ []
put_entry k e ((j, f) ∷ m) = if key_eq j k then (k, e) ∷ m else (j, f) ∷ put_entry k e m

abbrev pub erase_entry : Key → Entries → Entries
erase_entry k [] = []
erase_entry k ((j, f) ∷ m) = if key_eq j k then erase_entry k m else (j, f) ∷ erase_entry k m

-- `rmcDeduplicator`; `next_token` numbers the entries as they are made.
pub record Deduplicator : Type 0 where
  pub entries : Entries
  pub ttl : ℕ
  pub max_entries : ℕ
  pub calls : ℕ
  pub next_token : ℕ

-- `newRMCDeduplicator`; a duration or a size below zero is one at zero here.
unfoldable pub new_deduplicator : ℕ → ℕ → Deduplicator
new_deduplicator ttl max_entries = record {
  entries = [];
  ttl = if ttl == 0 then 20_000_000_000 else ttl;
  max_entries = if max_entries == 0 then 4096 else max_entries;
  calls = 0;
  next_token = 0;
}

-- An entry that pruning at a time keeps.
abbrev pub is_kept : ℕ → Entry → Bool
is_kept now (in_flight token) = true
is_kept now (answered response expires) = ltb now expires

-- `pruneLocked`
unfoldable pub prune : ℕ → Entries → Entries
prune now [] = []
prune now ((k, e) ∷ m) = if is_kept now e then (k, e) ∷ prune now m else prune now m

-- What one turn of the loop in `wrap` does next: wait for the entry's channel and turn again, give
-- the kept response, execute without an entry, or execute with one.
pub data Turn : Type 0 where
  waits : (token : ℕ) → Turn
  replays : (response : RmcMessage) → Turn
  bypasses : Turn
  executes : (token : ℕ) → Turn

-- The part of a turn behind the look-up: the key is not in use.
unfoldable pub claim : Deduplicator → Key → Entries → Deduplicator × Turn
claim d key entries =
    if leb d.max_entries (length entries) then (record d { entries = entries }, bypasses) else (
      record d {
        entries = put_entry key (in_flight d.next_token) entries;
        next_token = d.next_token + 1;
      },
      executes d.next_token,
    )

unfoldable pub turn_found : Deduplicator → Key → ℕ → Entries → Option Entry → Deduplicator × Turn
turn_found d key now entries none = claim d key entries
turn_found d key now entries (some (in_flight token)) =
    (record d { entries = entries }, waits token)
turn_found d key now entries (some (answered response expires)) =
    if ltb now expires
    then (record d { entries = entries }, replays response)
    else claim d key (erase_entry key entries)

-- One turn of the loop in `wrap`, under the lock; the counter is a uint64.
unfoldable pub take_turn : Deduplicator → Key → ℕ → Deduplicator × Turn
take_turn d key now =
    let calls = (d.calls + 1) % 2 ^ 64 in
    let counted = record d { calls = calls } in
    let entries =
      if calls % 256 == 0 || leb d.max_entries (length d.entries)
      then prune now d.entries
      else d.entries in
    turn_found counted key now entries (find_entry key entries)

abbrev pub is_token : Option Entry → ℕ → Bool
is_token (some (in_flight token)) t = token == t
is_token _ t = false

abbrev settle : Deduplicator → Key → ℕ → Option RmcMessage → Deduplicator
settle d key now none = record d { entries = erase_entry key d.entries }
settle d key now (some response) = record d {
  entries = put_entry key (answered response (now + d.ttl)) d.entries;
}

-- The deferred function of `execute`: a missing response, also one of a handler that panics, frees
-- the key.
unfoldable pub finish_execution : Deduplicator → Key → ℕ → Option RmcMessage → ℕ → Deduplicator
finish_execution d key token response now =
    if is_token (find_entry key d.entries) token then settle d key now response else d

-- CloseParticipation, OpenParticipation, CreateMatchmakeSessionWithParam,
-- JoinMatchmakeSessionWithParam, AutoMatchmakeWithParamPostpone, CustomPrivateRoomCreate,
-- UpdateMatchmakeSessionPart, UpdateApplicationBuffer, ModifyCurrentGameAttribute,
-- UpdateNotificationData, SSBUArenaCode, TournamentCreate, TournamentDelete, TournamentJoin
abbrev extension_methods : List ℕ
extension_methods =
    0x01 ∷ 0x02 ∷ 0x26 ∷ 0x27 ∷ 0x28 ∷ 0x44 ∷ 0x2C ∷ 0x0B ∷ 0x08 ∷ 0x09 ∷ 0x37 ∷ 0x3D ∷ 0x3E ∷ 0x3F
    ∷ []

-- UnregisterGathering, UpdateSessionURL, UpdateSessionHost, UpdateSessionHostV1,
-- MigrateGatheringOwnership, MigrateGatheringOwnershipV1, UpdateGatheringOwnership
abbrev match_making_methods : List ℕ
match_making_methods = 0x02 ∷ 0x1B ∷ 0x2A ∷ 0x28 ∷ 0x2C ∷ 0x24 ∷ 0x2B ∷ []

-- `deduplicateMatchmaking`; EndParticipation is the only method of the third protocol.
unfoldable pub deduplicate_matchmaking : RmcMessage → Bool
deduplicate_matchmaking req =
    if req.protocol == 0x6D
    then contains extension_methods req.method
    else if req.protocol == 0x15
    then contains match_making_methods req.method
    else req.protocol == 0x32 && req.method == 0x01

-- The key of a call; SHA-256 is given.
unfoldable pub key_of : (Bytes → Bytes) → Connection → RmcMessage → Key
key_of sha256 conn req = record {
  connection_id = conn.id;
  pid = conn.pid;
  protocol = req.protocol;
  method = req.method;
  call_id = req.call_id;
  body_hash = sha256 req.body;
}

-- A turn of `wrap` for a call; other calls are executed without an entry.
unfoldable pub arrive :
    (Bytes → Bytes) → Deduplicator → Connection → RmcMessage → ℕ → Deduplicator × Turn
arrive sha256 d conn req now =
    if deduplicate_matchmaking req then take_turn d (key_of sha256 conn req) now else (d, bypasses)
