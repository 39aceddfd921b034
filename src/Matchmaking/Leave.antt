-- ===== src/Matchmaking/Leave.antt =====
-- nextendo-nex/matchmaking_handlers.go: unregister, endParticipation and RemovePlayer.
use nextendo_mk8d_matchmakin.Base.{
  ℕ, ◌==◌, if◌then◌else◌, Bool, true, false, ◌||◌, Option, none, some, List, [], ◌∷◌,
}
use nextendo_mk8d_matchmakin.Base.Lists.{length, remove}
use nextendo_mk8d_matchmakin.Base.Maps.{Table, find, erase}
use nextendo_mk8d_matchmakin.Wire.Out.{Bytes}
use nextendo_mk8d_matchmakin.Wire.In.{stream, read_u32}
use nextendo_mk8d_matchmakin.Session.Variant.{bytes_eq}
use nextendo_mk8d_matchmakin.Rmc.{RmcMessage}
use nextendo_mk8d_matchmakin.Endpoint.State.{Connection}
use nextendo_mk8d_matchmakin.Matchmaking.State.{Gathering, Store, Codes}
use nextendo_mk8d_matchmakin.Matchmaking.World.{Outcome}
use nextendo_mk8d_matchmakin.Matchmaking.NotifData.{forget}
use nextendo_mk8d_matchmakin.Matchmaking.Create.{
  put_gathering, count_participants, reply_only, bool_response, protocol_match_making,
  protocol_match_making_ext,
}

-- The gathering id that a request's body begins with.
unfoldable pub request_gid : RmcMessage → ℕ
request_gid req = let (gid, i) = read_u32 (stream req.body) in gid

abbrev pub drop_gathering : ℕ → Store → Store
drop_gathering gid m = record m { gatherings = erase gid m.gatherings }

unfoldable pub unregister_found : Store → ℕ → ℕ → Option Gathering → Store
unregister_found m pid gid none = m
unregister_found m pid gid (some g) =
    if g.session.gathering.owner_pid == pid then drop_gathering gid m else m

-- `unregister`: only the owner's call removes the gathering.
unfoldable pub unregister : Store → ℕ → ℕ → Store
unregister m pid gid = unregister_found m pid gid (find gid m.gatherings)

-- The case of MethodUnregisterGathering: the reply is true in any case.
unfoldable pub unregister_gathering : Store → Connection → RmcMessage → Outcome
unregister_gathering m caller req =
    reply_only (unregister m caller.pid (request_gid req))
      (bool_response protocol_match_making req true)

abbrev pub is_empty {ℓ} : {A : Type ℓ} → List A → Bool
is_empty [] = true
is_empty (x ∷ xs) = false

-- The gathering without the player and its reservation.
abbrev pub without_player : Gathering → ℕ → Gathering
without_player g pid = record g {
  participants = remove g.participants pid;
  reservations = erase pid g.reservations;
}

unfoldable pub end_found : Store → ℕ → ℕ → Option Gathering → Store
end_found m pid gid none = m
end_found m pid gid (some g) =
    let g' = without_player g pid in
    if is_empty g'.participants
    then drop_gathering gid m
    else put_gathering gid (count_participants g') m

-- `endParticipation`
unfoldable pub end_participation : Store → ℕ → ℕ → Store
end_participation m pid gid = end_found m pid gid (find gid m.gatherings)

-- The case of MethodEndParticipation.
unfoldable pub end_participation_call : Store → Connection → RmcMessage → Outcome
end_participation_call m caller req =
    reply_only (end_participation m caller.pid (request_gid req))
      (bool_response protocol_match_making_ext req true)

abbrev pub erase_code : Bytes → Codes → Codes
erase_code k [] = []
erase_code k ((j, gid) ∷ m) = if bytes_eq j k then erase_code k m else (j, gid) ∷ erase_code k m

-- One gathering of the loop in `RemovePlayer`: what is left of it, if anything.
unfoldable pub leave_gathering : ℕ → Gathering → Option Gathering
leave_gathering pid g =
    let g' = without_player g pid in
    if length g'.participants == length g.participants
    then some g'
    else if length g'.participants == 0 || g.session.gathering.owner_pid == pid
    then none
    else some (count_participants g')

unfoldable pub keep_or_drop :
    ℕ → Gathering → Option Gathering → Table Gathering × Codes → Table Gathering × Codes
keep_or_drop gid g (some g') (gs, codes) = ((gid, g') ∷ gs, codes)
keep_or_drop gid g none (gs, codes) =
    (gs, (if is_empty g.code then codes else erase_code g.code codes))

-- The loop; gatherings do not bear on one another, so the runtime's order does not show.
unfoldable pub leave_all : ℕ → Table Gathering → Codes → Table Gathering × Codes
leave_all pid [] codes = ([], codes)
leave_all pid ((gid, g) ∷ gs) codes =
    keep_or_drop gid g (leave_gathering pid g) (leave_all pid gs codes)

-- `RemovePlayer`
unfoldable pub remove_player : Store → ℕ → Store
remove_player m pid =
    let (gs, codes) = leave_all pid m.gatherings m.by_code in
    if pid == 0
    then m
    else record m { notif = forget m.notif pid; gatherings = gs; by_code = codes }
