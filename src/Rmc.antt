-- ===== src/Rmc.antt =====
-- nextendo-nex/rmc.go: remote method calls, and the result codes of nextendo-nex/resultcodes.go.
pub mod RoundTrip
use nextendo_mk8d_matchmakin.Base.{
  ℕ, ◌+◌, ◌==◌, ltb, if◌then◌else◌, Bool, true, false, Option, none, some, [], ◌++◌,
}
use nextendo_mk8d_matchmakin.Base.Lists.{length}
use nextendo_mk8d_matchmakin.Base.Bits.{test_bit, set_bit, clear_bit}
use nextendo_mk8d_matchmakin.Wire.Out.{Bytes, write_u8, write_u16, write_u32, write_bool}
use nextendo_mk8d_matchmakin.Wire.In.{
  Reader, stream, ◌>>=◌, give, read_u8, read_u16, read_u32, read_bool, read_all,
}

pub data Mode : Type 0 where
  request response : Mode

pub record RmcMessage : Type 0 where
  pub mode : Mode
  pub protocol : ℕ
  pub method : ℕ
  pub call_id : ℕ
  pub result : ℕ
  pub body : Bytes
  pub is_error : Bool

-- resultcodes.go; `ResultErrorMask` is bit 31.
abbrev pub core_not_implemented : ℕ
core_not_implemented = 0x00010002

abbrev pub core_access_denied : ℕ
core_access_denied = 0x00010006

abbrev pub core_invalid_argument : ℕ
core_invalid_argument = 0x0001000A

abbrev pub session_void : ℕ
session_void = 0x00030073

abbrev pub session_full : ℕ
session_full = 0x000300C8

-- `NewRMCRequest`
abbrev pub rmc_request : ℕ → ℕ → ℕ → Bytes → RmcMessage
rmc_request protocol method call_id body = record {
  mode = request;
  protocol = protocol;
  method = method;
  call_id = call_id;
  result = 0;
  body = body;
  is_error = false;
}

-- `NewRMCSuccess`
abbrev pub rmc_success : ℕ → ℕ → ℕ → Bytes → RmcMessage
rmc_success protocol method call_id body = record {
  mode = response;
  protocol = protocol;
  method = method;
  call_id = call_id;
  result = 0;
  body = body;
  is_error = false;
}

-- `NewRMCError`
abbrev pub rmc_error : ℕ → ℕ → ℕ → RmcMessage
rmc_error protocol call_id code = record {
  mode = response;
  protocol = protocol;
  method = 0;
  call_id = call_id;
  result = set_bit 31 code;
  body = [];
  is_error = true;
}

-- The protocol byte carries the direction in its top bit.
abbrev pub with_flag : Mode → ℕ → ℕ
with_flag request p = set_bit 7 p
with_flag response p = p

unfoldable pub encode_protocol : Mode → ℕ → Bytes
encode_protocol mode p =
    if ltb p 0x80
    then write_u8 (with_flag mode p)
    else write_u8 (with_flag mode 0x7F) ++ write_u16 p

-- The `switch` of `Encode`.
unfoldable pub encode_content : RmcMessage → Mode → Bool → Bytes
encode_content m request is_error = write_u32 m.call_id ++ (write_u32 m.method ++ m.body)
encode_content m response true =
    write_bool false ++ (write_u32 (set_bit 31 m.result) ++ write_u32 m.call_id)
encode_content m response false =
    write_bool true ++ (write_u32 m.call_id ++ (write_u32 (set_bit 15 m.method) ++ m.body))

unfoldable pub encode_payload : RmcMessage → Bytes
encode_payload m = encode_protocol m.mode m.protocol ++ encode_content m m.mode m.is_error

-- `Encode`
unfoldable pub encode : RmcMessage → Bytes
encode m = write_u32 (length (encode_payload m)) ++ encode_payload m

unfoldable pub read_protocol : ℕ → Reader ℕ
read_protocol proto = let p = clear_bit 7 proto in if p == 0x7F then read_u16 else give p

unfoldable pub read_request : ℕ → Reader RmcMessage
read_request p = do
  call_id ← read_u32
  method ← read_u32
  body ← read_all
  give (rmc_request p method call_id body)

unfoldable pub read_response : ℕ → Bool → Reader RmcMessage
read_response p true = do
  call_id ← read_u32
  method ← read_u32
  body ← read_all
  give (rmc_success p (clear_bit 15 method) call_id body)
read_response p false = do
  result ← read_u32
  call_id ← read_u32
  give (record {
    mode = response;
    protocol = p;
    method = 0;
    call_id = call_id;
    result = result;
    body = [];
    is_error = true;
  })

-- The part of `ParseRMC` behind the length.
unfoldable pub read_message : Reader RmcMessage
read_message = do
  proto ← read_u8
  p ← read_protocol proto
  if test_bit 7 proto then read_request p else (do good ← read_bool; read_response p good)

-- `ParseRMC`, with `none` for an error. A header shorter than four bytes reads as 0, which no such
-- input's length matches.
unfoldable pub parse_rmc : Bytes → Option RmcMessage
parse_rmc input =
    let (size, i) = read_u32 (stream input) in
    let (m, j) = read_message i in
    if size + 4 == length input then (if j.failed then none else some m) else none
