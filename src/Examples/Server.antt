-- ===== src/Examples/Server.antt =====
-- Examples of the matchmaking handlers.
use nextendo_mk8d_matchmakin.Base.{◌≡◌, refl, false, none, some, [], inl}
use nextendo_mk8d_matchmakin.Base.Maps.{find}
use nextendo_mk8d_matchmakin.Wire.Out.{le, write_u32}
use nextendo_mk8d_matchmakin.Wire.In.{read_le, read, le_value}
use nextendo_mk8d_matchmakin.Rmc.{RmcMessage, rmc_request}
use nextendo_mk8d_matchmakin.Matchmaking.State.{no_switches}
use nextendo_mk8d_matchmakin.Matchmaking.Create.{extension_success}
use nextendo_mk8d_matchmakin.Matchmaking.Leave.{request_gid}
use nextendo_mk8d_matchmakin.Matchmaking.Update.{with_info, set_open, set_participation}
use nextendo_mk8d_matchmakin.Tournament.Store.{no_tournaments}
use nextendo_mk8d_matchmakin.Dispatch.{
  Site, only_reply, extension_handler, serve_extension, method_in, extension_calls,
}
use nextendo_mk8d_matchmakin.Dispatch.Rules.{store_of}
use nextendo_mk8d_matchmakin.Dispatch.Effects.{extension_handler_room}
use nextendo_mk8d_matchmakin.Examples.{settings, world, store, gathering, bob, alice}
use nextendo_mk8d_matchmakin.Examples.Rooms.{room_request, code_request}
use nextendo_mk8d_matchmakin.Examples.Tourneys.{draw}

abbrev site : Site
site = record {
  settings = settings;
  switches = no_switches;
  world = world;
  draw = draw;
  tournament_order = [];
  is_private = λ a. false;
  nat_port = λ a. none;
  public_station_first = false;
  fuel = 10;
}

-- Bob closes the gathering; the two other handlers do not know the number, or answer only.
abbrev close_request : RmcMessage
close_request = rmc_request 0x6D 0x01 12 (write_u32 1)

-- The gathering is closed then.
closed_by :
    find 1
      (store_of (extension_handler site store no_tournaments bob close_request) store).gatherings
    ≡ some (with_info gathering (record (gathering.session.info) { open_participation = false }))
unfolding extension_handler serve_extension method_in extension_calls set_participation set_open
    request_gid read_le read le_value le
closed_by = refl

-- Bob creates a room, and Alice asks for its code.
extension_handler_room_example :
    let m' = store_of (extension_handler site store no_tournaments bob room_request) store in
    extension_handler site m' no_tournaments alice code_request
    ≡ only_reply m' no_tournaments
        (extension_success code_request (write_u32 (request_gid room_request)))
extension_handler_room_example =
    extension_handler_room site site store no_tournaments no_tournaments bob alice room_request
      code_request (inl refl) (inl refl) (inl refl)
