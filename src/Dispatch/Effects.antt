-- ===== src/Dispatch/Effects.antt =====
-- nextendo-nex/matchmaking_handlers.go: calls of the extension protocol by their numbers, as a client
-- sees them.
use nextendo_mk8d_matchmakin.Base.{◌≡◌, ◌⊎◌, ap, inl, inr}
use nextendo_mk8d_matchmakin.Wire.Out.{write_u32}
use nextendo_mk8d_matchmakin.Rmc.{RmcMessage}
use nextendo_mk8d_matchmakin.Endpoint.State.{Connection}
use nextendo_mk8d_matchmakin.Matchmaking.State.{Store}
use nextendo_mk8d_matchmakin.Matchmaking.Create.{extension_success}
use nextendo_mk8d_matchmakin.Matchmaking.Leave.{request_gid}
use nextendo_mk8d_matchmakin.Matchmaking.Codes.{make_code, private_room_create}
use nextendo_mk8d_matchmakin.Matchmaking.CodeRules.{AsksFor, resolve_code-private_room_create}
use nextendo_mk8d_matchmakin.Tournament.Store.{Tournaments}
use nextendo_mk8d_matchmakin.Dispatch.{
  Site, only_reply, serve_extension, extension_calls, method_in, extension_handler, creates_room,
  resolves_code,
}
use nextendo_mk8d_matchmakin.Dispatch.Rules.{store_of}

-- After a room is created by a call with the number 0x44 or 0x37, any connection that asks for its
-- code with the number 0x45 or 0x38, with or without a structure header, gets the id that the room was
-- created for, and the asking changes nothing.
pub extension_handler_room :
    (h h' : Site) (m : Store) (ts ts' : Tournaments) (c c' : Connection) (req joiner : RmcMessage)
    → (req.method ≡ 0x44) ⊎ (req.method ≡ 0x37)
    → (joiner.method ≡ 0x45) ⊎ (joiner.method ≡ 0x38)
    → AsksFor (make_code m (request_gid req)).1 joiner
    → let m' = store_of (extension_handler h m ts c req) m in
      extension_handler h' m' ts' c' joiner
      ≡ only_reply m' ts' (extension_success joiner (write_u32 (request_gid req)))
unfolding extension_handler serve_extension method_in extension_calls
extension_handler_room h h' m ts ts' c c' req joiner made asked asks =
    let create : method_in extension_calls req.method ≡ creates_room = elim made [
      | inl e ↦ ap (method_in extension_calls) e
      | inr e ↦ ap (method_in extension_calls) e
    ] in
    let resolve : method_in extension_calls joiner.method ≡ resolves_code = elim asked [
      | inl e ↦ ap (method_in extension_calls) e
      | inr e ↦ ap (method_in extension_calls) e
    ] in
    rw (create, resolve)
      (ap (λ (x : RmcMessage). only_reply (private_room_create m req).store ts' x)
        (resolve_code-private_room_create m req joiner asks))
