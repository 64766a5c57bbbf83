-- ===== src/Frame.antt =====
-- vibeconnect_common/tunnel.py: the framed tunnel protocol. Bytes are numbers; a length bound that
-- Python's `int` allows to be negative is a natural here, and 0 stands for every refused bound.
mod Pack
pub mod RoundTrip
pub mod Accepted
unfoldable pub use Pack.{pack_u32, unpack_u32}
pub use Pack.{unpack_u32-pack_u32, length-pack_u32}
use vibe_connect.Base.{
  ℕ, ◌+◌, ◌*◌, String, Bool, true, false, not, ◌&&◌, ◌||◌, Option, none, some, List, [], ◌∷◌, ◌++◌,
  Result, ok, raise, ◌>>=◌, ◌>>◌, raise_if, or_raise, tunnel_protocol_error, ltb, leb, nat_beq,
  ◌==◌, ◌!=◌, string_eq, nat_eq, is_none, if◌then◌else◌, length, take, drop,
}
use vibe_connect.Value.{
  ℤ, pos, negsuc, Value, null, bool, int, str, list, dict, Fields, end, field, get_field, Json,
}

-- models.py: `TunnelFrameType`
pub data FrameType : Type 0 where
  auth auth_ok heartbeat open_session session_data : FrameType
  resize_pty close_session renew_agent_cert rotate_tunnel_secret error : FrameType

unfoldable pub frame_type_value : FrameType → String
frame_type_value auth = "auth"
frame_type_value auth_ok = "auth_ok"
frame_type_value heartbeat = "heartbeat"
frame_type_value open_session = "open_session"
frame_type_value session_data = "session_data"
frame_type_value resize_pty = "resize_pty"
frame_type_value close_session = "close_session"
frame_type_value renew_agent_cert = "renew_agent_cert"
frame_type_value rotate_tunnel_secret = "rotate_tunnel_secret"
frame_type_value error = "error"

abbrev pub frame_types : List FrameType
frame_types =
    auth ∷ auth_ok ∷ heartbeat ∷ open_session ∷ session_data ∷ resize_pty ∷ close_session
    ∷ renew_agent_cert ∷ rotate_tunnel_secret ∷ error ∷ []

unfoldable pub find_frame_type : List FrameType → String → Option FrameType
unfolding frame_type_value
find_frame_type [] value = none
find_frame_type (t ∷ ts) value =
    if frame_type_value t == value then some t else find_frame_type ts value

-- `TunnelFrameType(value)`
unfoldable pub frame_type_of : String → Option FrameType
unfolding find_frame_type
frame_type_of = find_frame_type frame_types

pub record Frame : Type 0 where
  pub frame_type : FrameType
  pub request_id : String
  pub channel_id : Option String
  pub payload_length : ℕ

pub record DecodedFrame : Type 0 where
  pub frame : Frame
  pub payload : List ℕ

abbrev pub frame_header_max_bytes : ℕ
frame_header_max_bytes = 16 * 1024

abbrev pub default_frame_max_bytes : ℕ
default_frame_max_bytes = 1024 * 1024

unfoldable pub validate_payload_length : ℕ → ℕ → Result (Unit {0})
validate_payload_length payload_length max_frame_bytes = do
  raise_if (leb max_frame_bytes 0) (tunnel_protocol_error "max_frame_bytes must be positive")
  raise_if (ltb max_frame_bytes payload_length) (tunnel_protocol_error "frame payload is too large")

abbrev pub optional_str : Option String → Value
optional_str none = null
optional_str (some s) = str s

-- The header of `encode_frame`.
unfoldable pub header_fields : FrameType → String → Option String → ℕ → Fields
unfolding frame_type_value
header_fields frame_type request_id channel_id payload_length =
    field "type" (str (frame_type_value frame_type)) (
      field "request_id" (str request_id) (
        field "channel_id" (optional_str channel_id)
          (field "payload_length" (int (pos payload_length)) end)))

unfoldable pub decode_frame_type : Option Value → Result FrameType
unfolding frame_type_of
decode_frame_type (some (str value)) =
    or_raise (frame_type_of value) (tunnel_protocol_error "unknown frame type")
decode_frame_type _ = raise (tunnel_protocol_error "frame type is required")

unfoldable pub decode_request_id : Option Value → Result String
decode_request_id (some (str value)) =
    if value == "" then raise (tunnel_protocol_error "request_id is required") else ok value
decode_request_id _ = raise (tunnel_protocol_error "request_id is required")

unfoldable pub decode_channel_id : Option Value → Result (Option String)
decode_channel_id none = ok none
decode_channel_id (some null) = ok none
decode_channel_id (some (str value)) = ok (some value)
decode_channel_id _ = raise (tunnel_protocol_error "channel_id must be a string or null")

-- `isinstance(value, int)` without `bool`, and no negative number.
unfoldable pub decode_payload_length : Option Value → Result ℕ
decode_payload_length (some (int (pos n))) = ok n
decode_payload_length (some (int (negsuc n))) =
    raise (tunnel_protocol_error "payload_length cannot be negative")
decode_payload_length _ = raise (tunnel_protocol_error "payload_length must be an integer")

unfoldable pub decode_object : Option Value → Result Fields
decode_object (some (dict fields)) = ok fields
decode_object (some _) = raise (tunnel_protocol_error "frame header must be an object")
decode_object none = raise (tunnel_protocol_error "frame header is not valid JSON")

-- `decode_frame` from the parsed header on.
unfoldable pub decode_header : Option Value → List ℕ → ℕ → Result DecodedFrame
unfolding decode_object decode_frame_type decode_request_id decode_channel_id decode_payload_length
    validate_payload_length
decode_header parsed payload max_frame_bytes = do
  header ← decode_object parsed
  frame_type ← decode_frame_type (get_field "type" header)
  request_id ← decode_request_id (get_field "request_id" header)
  channel_id ← decode_channel_id (get_field "channel_id" header)
  payload_length ← decode_payload_length (get_field "payload_length" header)
  validate_payload_length payload_length max_frame_bytes
  raise_if (length payload != payload_length)
      (tunnel_protocol_error "frame payload length mismatch")
  ok (record {
    frame = record {
      frame_type = frame_type;
      request_id = request_id;
      channel_id = channel_id;
      payload_length = payload_length;
    };
    payload = payload;
  })

abbrev pub bad_header_length : ℕ → Bool
bad_header_length n = nat_beq n 0 || ltb frame_header_max_bytes n

-- `decode_frame` up to the parse of the header: the bytes of the header and of the payload.
unfoldable pub split_frame : List ℕ → Result (List ℕ × List ℕ)
split_frame frame_bytes = do
  raise_if (ltb (length frame_bytes) 4) (tunnel_protocol_error "frame header length is missing")
  let header_length = unpack_u32 (take 4 frame_bytes)
  raise_if (bad_header_length header_length)
      (tunnel_protocol_error "frame header length is invalid")
  raise_if (ltb (length frame_bytes) (4 + header_length))
      (tunnel_protocol_error "frame header is incomplete")
  ok (take header_length (drop 4 frame_bytes), drop (4 + header_length) frame_bytes)

module _ (json : Json) where
  unfoldable pub encode_frame : FrameType → String → Option String → List ℕ → ℕ → Result (List ℕ)
  unfolding validate_payload_length header_fields
  encode_frame frame_type request_id channel_id payload max_frame_bytes = do
    validate_payload_length (length payload) max_frame_bytes
    raise_if (request_id == "") (tunnel_protocol_error "request_id is required")
    let header = json.dumps (dict (header_fields frame_type request_id channel_id (length payload)))
    raise_if (ltb frame_header_max_bytes (length header))
        (tunnel_protocol_error "frame header is too large")
    ok (pack_u32 (length header) ++ (header ++ payload))

  unfoldable pub decode_frame : List ℕ → ℕ → Result DecodedFrame
  unfolding split_frame decode_header
  decode_frame frame_bytes max_frame_bytes = do
    (header, payload) ← split_frame frame_bytes
    decode_header (json.loads header) payload max_frame_bytes
