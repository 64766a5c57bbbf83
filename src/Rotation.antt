-- ===== src/Rotation.antt =====
-- vibeconnect_common/tunnel.py: the control frame that rotates an agent's tunnel secret.
pub mod RoundTrip
use vibe_connect.Base.{
  ℕ, ◌≡◌, ◌≢◌, refl, String, true, false, not, Option, none, some, List, Result, ok, raise, ◌>>=◌,
  ◌>>◌, raise_if, or_raise, tunnel_protocol_error, ◌==◌, string_eq, is_none, if◌then◌else◌, arith,
  beq_of_ne, ap, ◌∙◌, length,
}
use vibe_connect.Value.{Value, str, dict, Fields, end, field, get_field, Json, IsJson, is_flat}
use vibe_connect.Identifiers.{validate_node_name}
use vibe_connect.Secret.{SecretValue, too_short, secret_value}
use vibe_connect.Frame.{FrameType, rotate_tunnel_secret, DecodedFrame, encode_frame, decode_frame}
use vibe_connect.Frame.RoundTrip.{as_sent, decode_frame-encode_frame}

pub record TunnelSecretRotation : Type 0 where
  pub request_id : String
  pub node_name : String
  pub tunnel_secret : SecretValue

unfoldable pub rotation_fields : String → SecretValue → Fields
rotation_fields node_name tunnel_secret =
    field "node_name" (str node_name) (field "tunnel_secret" (str tunnel_secret.reveal) end)

unfoldable pub is_rotation : FrameType → Option (Unit {0})
is_rotation rotate_tunnel_secret = some tt
is_rotation _ = none

unfoldable pub rotation_object : Option Value → Result Fields
rotation_object none = raise (tunnel_protocol_error "tunnel-secret rotation payload is invalid")
rotation_object (some (dict fields)) = ok fields
rotation_object (some _) =
    raise (tunnel_protocol_error "tunnel-secret rotation payload must be an object")

unfoldable pub rotation_node_name : Option Value → Result String
rotation_node_name (some (str node_name)) = ok node_name
rotation_node_name _ = raise (tunnel_protocol_error "node_name is required")

unfoldable pub rotation_secret : Option Value → Result String
rotation_secret (some (str secret)) =
    if secret == "" then raise (tunnel_protocol_error "tunnel_secret is required") else ok secret
rotation_secret _ = raise (tunnel_protocol_error "tunnel_secret is required")

module _ (json : Json) where
  unfoldable pub encode_tunnel_secret_rotation : String → String → SecretValue → ℕ → Result (List ℕ)
  encode_tunnel_secret_rotation request_id node_name tunnel_secret max_frame_bytes = do
    safe_node_name ← validate_node_name node_name
    encode_frame json rotate_tunnel_secret request_id none
        (json.dumps (dict (rotation_fields safe_node_name tunnel_secret))) max_frame_bytes

  unfoldable pub decode_rotation_payload : String → Option Value → Result TunnelSecretRotation
  unfolding rotation_object
  decode_rotation_payload request_id parsed = do
    payload ← rotation_object parsed
    node_name ← rotation_node_name (get_field "node_name" payload)
    tunnel_secret ← rotation_secret (get_field "tunnel_secret" payload)
    safe_node_name ← validate_node_name node_name
    secret ← secret_value tunnel_secret
    ok (record { request_id = request_id; node_name = safe_node_name; tunnel_secret = secret })

  unfoldable pub decode_tunnel_secret_rotation : List ℕ → ℕ → Result TunnelSecretRotation
  unfolding decode_rotation_payload is_rotation
  decode_tunnel_secret_rotation frame_bytes max_frame_bytes = do
    decoded ← decode_frame json frame_bytes max_frame_bytes
    or_raise (is_rotation decoded.frame.frame_type)
        (tunnel_protocol_error "frame is not a tunnel-secret rotation")
    raise_if (not (is_none decoded.frame.channel_id))
        (tunnel_protocol_error "tunnel-secret rotation must be a control frame")
    decode_rotation_payload decoded.frame.request_id (json.loads decoded.payload)
