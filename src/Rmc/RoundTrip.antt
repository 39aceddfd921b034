-- ===== src/Rmc/RoundTrip.antt =====
-- nextendo-nex/rmc.go: parsing what `encode` writes.
use nextendo_mk8d_matchmakin.Base.{
  ℕ, ◌^◌, ◌<◌, ◌≡◌, ◌≢◌, refl, ◌∙◌, Bool, true, false, some, [], ◌++◌, arith, inl, inr, Bool-cases,
  ltb,
}
use nextendo_mk8d_matchmakin.Base.Lists.{length, length-append}
use nextendo_mk8d_matchmakin.Base.Bits.{
  set_bit, clear_bit, clear_bit-set_bit_15, set_bit_15-lt, set_bit_31-lt,
}
use nextendo_mk8d_matchmakin.Wire.Out.{Bytes, le}
use nextendo_mk8d_matchmakin.Wire.In.{stream, Reader, ◌>>=◌, read_all, read_bool, read_le}
use nextendo_mk8d_matchmakin.Wire.Reads.{le-Reads, bool-Reads, length-le, read-Reads}
use nextendo_mk8d_matchmakin.Rmc.{
  Mode, request, response, RmcMessage, encode, encode_payload, encode_protocol, encode_content,
  read_protocol, read_request, read_response, read_message, parse_rmc, with_flag,
}
use mathlib.Core.List.{append-nil, append_assoc}

-- The fields fit the wire. 0x7F is the escape for wide protocol numbers, so it is none itself.
pub record FitsRmc (m : RmcMessage) : Type 0 where
  pub protocol : m.protocol < 256 ^ 2
  pub no_escape : m.protocol ≢ 0x7F
  pub method : m.method < 256 ^ 4
  pub call_id : m.call_id < 256 ^ 4
  pub result : m.result < 256 ^ 4
  pub size : length (encode_payload m) < 256 ^ 4

-- What of a message its encoding keeps: a request has no result; a success has no result, and
-- method numbers lose bit 15; an error keeps its code, error bit set, and the call id.
abbrev pub kept : RmcMessage → Mode → Bool → RmcMessage
kept m request is_error = record m { mode = request; result = 0; is_error = false }
kept m response false = record m {
  mode = response;
  method = clear_bit 15 m.method;
  result = 0;
  is_error = false;
}
kept m response true = record m {
  mode = response;
  method = 0;
  result = set_bit 31 m.result;
  body = [];
  is_error = true;
}

read_all-whole : (b : Bytes) → read_all (stream b) ≡ (b, stream [])
unfolding read_all
read_all-whole b = rw (append-nil b) at (read-Reads (length b) b refl [])

le-Reads_end : (n v : ℕ) → v < 256 ^ n → read_le n (stream (le n v)) ≡ (v, stream [])
le-Reads_end n v h = rw (append-nil (le n v)) at (le-Reads n v h [])

abbrev body_of : Mode → ℕ → Reader RmcMessage
body_of request p = read_request p
body_of response p = read_bool >>= λ good. read_response p good

-- The protocol number and the direction come back, whichever of the two forms was written.
narrow_head :
    (mode : Mode) (p : ℕ) (rest : Bytes)
    → p < 0x7F
    → read_message (stream (le 1 (with_flag mode p) ++ rest)) ≡ body_of mode p (stream rest)
unfolding read_message read_protocol
narrow_head request p rest h = ground (arith, le-Reads 1 (with_flag request p) (ground arith) rest)
narrow_head response p rest h = ground (arith, le-Reads 1 p (omega arith) rest)

wide_head :
    (mode : Mode) (p : ℕ) (rest : Bytes)
    → p < 256 ^ 2
    → read_message (stream (le 1 (with_flag mode 0x7F) ++ (le 2 p ++ rest)))
      ≡ body_of mode p (stream rest)
unfolding read_message read_protocol
wide_head request p rest h =
    rw (le-Reads 1 0xFF (omega arith) (le 2 p ++ rest), le-Reads 2 p h rest)
wide_head response p rest h =
    rw (le-Reads 1 0x7F (omega arith) (le 2 p ++ rest), le-Reads 2 p h rest)

message_head :
    (mode : Mode) (p : ℕ) (rest : Bytes)
    → p < 256 ^ 2
    → p ≢ 0x7F
    → read_message (stream (encode_protocol mode p ++ rest)) ≡ body_of mode p (stream rest)
unfolding encode_protocol
message_head mode p rest h e = elim (Bool-cases (ltb p 0x80)) [
  | inl small ↦ rw small (narrow_head mode p rest (ground arith))
  | inr large ↦
      rw (large, append_assoc (le 1 (with_flag mode 0x7F)) (le 2 p) rest) (wide_head mode p rest h)
]

content-Reads :
    (m : RmcMessage) (mode : Mode) (e : Bool)
    → FitsRmc m
    → body_of mode m.protocol (stream (encode_content m mode e)) ≡ (kept m mode e, stream [])
unfolding encode_content read_request read_response
content-Reads m request e h =
    simp (le-Reads 4 m.call_id h.call_id, le-Reads 4 m.method h.method, read_all-whole m.body)
content-Reads m response false h = simp (
  bool-Reads true,
  le-Reads 4 m.call_id h.call_id,
  le-Reads 4 (set_bit 15 m.method) (set_bit_15-lt m.method h.method),
  read_all-whole m.body,
  clear_bit-set_bit_15 m.method,
)
content-Reads m response true h = simp (
  bool-Reads false,
  le-Reads 4 (set_bit 31 m.result) (set_bit_31-lt m.result h.result),
  le-Reads_end 4 m.call_id h.call_id,
)

read_message-payload :
    (m : RmcMessage)
    → FitsRmc m
    → read_message (stream (encode_payload m)) ≡ (kept m m.mode m.is_error, stream [])
unfolding encode_payload
read_message-payload m h =
    message_head m.mode m.protocol (encode_content m m.mode m.is_error) h.protocol h.no_escape
    ∙ content-Reads m m.mode m.is_error h

-- For every message whose fields and size fit the wire and whose protocol number is not the escape
-- 0x7F: parsing the encoding succeeds and yields the message with what its kind keeps: a request
-- its protocol, method, call id and body; a success the same with bit 15 of the method cleared; an
-- error its protocol, call id and code with the error bit set.
pub parse_rmc-encode :
    (m : RmcMessage) → FitsRmc m → parse_rmc (encode m) ≡ some (kept m m.mode m.is_error)
unfolding parse_rmc encode
parse_rmc-encode m h = rw (le-Reads 4 (length (encode_payload m)) h.size (encode_payload m)) (
    rw (read_message-payload m h) (
      ground (
        arith,
        length-append (le 4 (length (encode_payload m))) (encode_payload m),
        length-le 4 (length (encode_payload m)),
      )))
