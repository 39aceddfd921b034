-- ===== src/Examples/Codecs.antt =====
-- Examples of the codecs.
use nextendo_mk8d_matchmakin.Base.{◌≡◌, ◌++◌, refl, some, [], ◌∷◌, arith}
use nextendo_mk8d_matchmakin.Wire.Out.{
  write_level, write_string, write_bool, write_buffer, write_list, write_elements, le,
}
use nextendo_mk8d_matchmakin.Wire.In.{stream}
use nextendo_mk8d_matchmakin.Session.Variant.{write_params, write_variant}
use nextendo_mk8d_matchmakin.Session.Types.{
  write_session, read_session, read_auto_param, save_gathering, save_info,
}
use nextendo_mk8d_matchmakin.Session.RoundTrip.{
  FitsSession, read_session-write_session, read_auto_param_tolerant,
}
use nextendo_mk8d_matchmakin.Rmc.{
  encode, parse_rmc, encode_payload, encode_protocol, encode_content,
}
use nextendo_mk8d_matchmakin.Rmc.RoundTrip.{parse_rmc-encode}
use nextendo_mk8d_matchmakin.Examples.{settings, session, join_request}

session-FitsSession : FitsSession settings session
unfolding save_gathering save_info write_params write_variant write_level write_string write_buffer
    write_list write_bool le write_elements
session-FitsSession = record {
  gathering = record {
    id = omega arith;
    owner_pid = omega arith;
    host_pid = omega arith;
    min_participants = omega arith;
    max_participants = omega arith;
    participation_policy = omega arith;
    policy_argument = omega arith;
    flags = omega arith;
    state = omega arith;
    description = omega arith;
  };
  info = record {
    game_mode = omega arith;
    attribs = (omega arith, (omega arith, tt));
    attribs_count = omega arith;
    matchmake_system = omega arith;
    application_data = omega arith;
    num_participants = omega arith;
    progress_score = omega arith;
    session_key = omega arith;
    option = omega arith;
    param = record {
      pairs = ((omega arith, tt), ((omega arith, omega arith), tt));
      distinct = ((refl, tt), (tt, tt));
      count = omega arith;
      size = omega arith;
    };
    started_time = omega arith;
    user_password = omega arith;
    refer_gid = omega arith;
    codeword = omega arith;
  };
  gathering_size = omega arith;
  info_size = omega arith;
}

read_session-write_session_example :
    read_session settings (stream (write_session settings session ++ (1 ∷ [])))
    ≡ (session, stream (1 ∷ []))
read_session-write_session_example =
    read_session-write_session settings session (1 ∷ []) session-FitsSession

read_auto_param_tolerant_example :
    read_auto_param settings
      (stream (write_level settings 1 (write_session settings session ++ (9 ∷ 9 ∷ [])) ++ (1 ∷ [])))
    ≡ (session, stream (1 ∷ []))
unfolding write_session save_gathering save_info write_params write_variant write_level write_string
    write_buffer write_list write_bool le write_elements
read_auto_param_tolerant_example =
    read_auto_param_tolerant settings session 1 (9 ∷ 9 ∷ []) (1 ∷ []) refl (omega arith)
      session-FitsSession (omega arith)

parse_rmc-encode_example : parse_rmc (encode join_request) ≡ some join_request
unfolding encode_payload encode_protocol encode_content le
parse_rmc-encode_example = parse_rmc-encode join_request (record {
  protocol = omega arith;
  no_escape = λ e. omega (arith, e);
  method = omega arith;
  call_id = omega arith;
  result = omega arith;
  size = omega arith;
})
