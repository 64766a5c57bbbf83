-- ===== src/Stream.antt =====
-- Frames on a byte stream: `_read_one_frame` and `_write_frame` of server/tunnel.py, and the reader
-- of agent/tunnel.py. The state of a reader is all that the peer will send before it closes.
pub mod Reading
pub mod Shrinking
use vibe_connect.Base.{
  ℕ, ◌++◌, String, true, false, Option, none, some, List, [], ◌∷◌, Error, Result, ok,
  tunnel_protocol_error, agent_tunnel_error, eof_error, ltb, leb, if◌then◌else◌, length, take, drop,
}
use vibe_connect.Base.Action.{Action, pure, raise, lift, raise_if, ◌>>=◌, ◌>>◌}
use vibe_connect.Value.{pos, negsuc, Value, int, dict, Fields, get_field, Json}
use vibe_connect.Frame.{
  FrameType, DecodedFrame, bad_header_length, default_frame_max_bytes, decode_object, unpack_u32,
  encode_frame, decode_frame,
}

-- `await reader.readexactly(n)`: at the end of the stream what was left is consumed.
unfoldable pub readexactly : ℕ → Action (List ℕ) (List ℕ)
unfolding ◌>>=◌
readexactly n s = if ltb (length s) n then raise eof_error [] else pure (take n s) (drop n s)

-- server/tunnel.py: the length that the header announces
unfoldable pub announced_length : ℕ → Option Value → Result ℕ
announced_length max_frame_bytes (some (int (pos n))) =
    if ltb max_frame_bytes n
    then Result.raise (tunnel_protocol_error "frame payload is too large")
    else ok n
announced_length max_frame_bytes (some (int (negsuc n))) =
    Result.raise (tunnel_protocol_error "frame payload is too large")
announced_length max_frame_bytes _ =
    Result.raise (tunnel_protocol_error "payload_length must be an integer")

-- agent/tunnel.py: the checks on the header's `payload_length`
unfoldable pub header_payload_length : Option Value → Result ℕ
header_payload_length (some (int (pos n))) = ok n
header_payload_length (some (int (negsuc n))) =
    Result.raise (agent_tunnel_error "tunnel frame payload_length cannot be negative")
header_payload_length _ =
    Result.raise (agent_tunnel_error "tunnel frame payload_length must be an integer")

-- agent/tunnel.py: `_payload_length_from_header`, after the parse
unfoldable pub payload_length_from_header : Option Value → Result ℕ
payload_length_from_header none =
    Result.raise (agent_tunnel_error "tunnel frame header is not valid JSON")
payload_length_from_header (some (dict header)) =
    header_payload_length (get_field "payload_length" header)
payload_length_from_header (some _) =
    Result.raise (agent_tunnel_error "tunnel frame header must be an object")

-- agent/tunnel.py: no frame at a clean end of the stream
agent_header_prefix : Action (List ℕ) (Option (List ℕ))
unfolding ◌>>=◌
agent_header_prefix [] = pure none []
agent_header_prefix (x ∷ s) =
    if ltb (length (x ∷ s)) 4
    then raise (agent_tunnel_error "partial tunnel frame header") []
    else pure (some (take 4 (x ∷ s))) (drop 4 (x ∷ s))

module _ (json : Json) (max_frame_bytes : ℕ) where
  -- server/tunnel.py
  unfoldable pub read_one_frame : Action (List ℕ) DecodedFrame
  unfolding decode_object announced_length ◌>>=◌
  read_one_frame = do
    header_prefix ← readexactly 4
    let header_length = unpack_u32 header_prefix
    raise_if (bad_header_length header_length)
        (tunnel_protocol_error "frame header length is invalid")
    header ← readexactly header_length
    values ← lift (decode_object (json.loads header))
    payload_length ← lift (announced_length max_frame_bytes (get_field "payload_length" values))
    payload ← readexactly payload_length
    lift (decode_frame json (header_prefix ++ (header ++ payload)) max_frame_bytes)

  agent_frame_body : Option (List ℕ) → Action (List ℕ) (Option (List ℕ))
  unfolding payload_length_from_header ◌>>=◌
  agent_frame_body none = pure none
  agent_frame_body (some header_prefix) = do
    let header_length = unpack_u32 header_prefix
    raise_if (bad_header_length header_length)
        (agent_tunnel_error "tunnel frame header length is invalid")
    header ← readexactly header_length
    payload_length ← lift (payload_length_from_header (json.loads header))
    raise_if (ltb max_frame_bytes payload_length)
        (agent_tunnel_error "tunnel frame payload is too large")
    payload ← readexactly payload_length
    pure (some (header_prefix ++ (header ++ payload)))

  unfoldable pub agent_read_one_frame : Action (List ℕ) (Option (List ℕ))
  unfolding agent_header_prefix agent_frame_body ◌>>=◌
  agent_read_one_frame = do header_prefix ← agent_header_prefix; agent_frame_body header_prefix
