-- ===== src/Tests/Frames.antt =====
-- The identifiers, the frame codec, its readers and the rotation frame at concrete inputs.
use vibe_connect.Base.{
  ℕ, ◌≡◌, ◌<◌, ◌≤◌, ◌+◌, ◌++◌, String, some, List, [], ◌∷◌, Result, ok, raise, refl, length, take,
  drop, ne_of_beq, string_eq,
}
use vibe_connect.Identifiers.{validate_node_name, validate_label, validate_username_principal}
use vibe_connect.Identifiers.Containment.{
  validate_label-validate_node_name, validate_username_principal-validate_node_name,
}
use vibe_connect.Frame.{
  session_data, DecodedFrame, encode_frame, decode_frame, unpack_u32, frame_header_max_bytes,
}
use vibe_connect.Frame.RoundTrip.{as_sent, decode_frame-encode_frame}
use vibe_connect.Frame.Accepted.{IsAccepted, decode_frame-IsAccepted}
use vibe_connect.Stream.{read_one_frame, agent_read_one_frame}
use vibe_connect.Stream.Reading.{
  read_one_frame-encode_frame, agent_read_one_frame-encode_frame, read_one_frame-consumes,
}
use vibe_connect.Secret.{SecretValue, too_short}
use vibe_connect.Rotation.{
  rotation_fields, encode_tunnel_secret_rotation, decode_tunnel_secret_rotation,
}
use vibe_connect.Rotation.RoundTrip.{decode-encode_tunnel_secret_rotation}
use vibe_connect.Tests.Codec.{write_fields, write_text, small_json, small_json-IsJson}

web_accepted : validate_node_name "web-1.example" ≡ ok "web-1.example"
unfolding validate_node_name
web_accepted = refl

validate_label-validate_node_name_example :
    (◌≡◌ {A = String} "web-1.example" "web-1.example")
    × (validate_label "web-1.example" ≡ ok "web-1.example")
validate_label-validate_node_name_example =
    validate_label-validate_node_name "web-1.example" "web-1.example" web_accepted

validate_username_principal-validate_node_name_example :
    validate_username_principal "web-1.example" ≡ ok "web-1.example"
validate_username_principal-validate_node_name_example =
    validate_username_principal-validate_node_name "web-1.example" "web-1.example" web_accepted
      (ne_of_beq "web-1.example" "root" refl)

abbrev data_payload : List ℕ
data_payload = 7 ∷ 8 ∷ 9 ∷ []

abbrev bytes_of : Result (List ℕ) → List ℕ
bytes_of (ok bytes) = bytes
bytes_of (raise e) = []

data_frame : List ℕ
data_frame = bytes_of (encode_frame small_json session_data "r1" (some "c1") data_payload 64)

data_encoded : encode_frame small_json session_data "r1" (some "c1") data_payload 64 ≡ ok data_frame
unfolding data_frame encode_frame write_fields write_text
data_encoded = refl

abbrev data_sent : DecodedFrame
data_sent = as_sent session_data "r1" (some "c1") data_payload

decode_frame-encode_frame_example : decode_frame small_json data_frame 64 ≡ ok data_sent
decode_frame-encode_frame_example =
    decode_frame-encode_frame small_json session_data "r1" (some "c1") data_payload 64 data_frame
      small_json-IsJson data_encoded

decode_frame-IsAccepted_example :
    IsAccepted data_sent (drop (4 + unpack_u32 (take 4 data_frame)) data_frame) 64
    × (0 < unpack_u32 (take 4 data_frame))
    × (unpack_u32 (take 4 data_frame) ≤ frame_header_max_bytes)
    × (length data_frame ≡ 4 + unpack_u32 (take 4 data_frame) + 3)
decode_frame-IsAccepted_example =
    decode_frame-IsAccepted small_json data_frame 64 data_sent decode_frame-encode_frame_example

read_one_frame-encode_frame_example :
    read_one_frame small_json 64 (data_frame ++ data_payload) ≡ (ok data_sent, data_payload)
read_one_frame-encode_frame_example =
    read_one_frame-encode_frame small_json session_data "r1" (some "c1") data_payload 64
      small_json-IsJson data_frame data_payload data_encoded

agent_read_one_frame-encode_frame_example :
    agent_read_one_frame small_json 64 (data_frame ++ data_payload)
    ≡ (ok (some data_frame), data_payload)
agent_read_one_frame-encode_frame_example =
    agent_read_one_frame-encode_frame small_json session_data "r1" (some "c1") data_payload 64
      small_json-IsJson data_frame data_payload data_encoded

read_one_frame-consumes_example :
    (p : List ℕ) × (data_frame ++ data_payload ≡ p ++ data_payload)
    × (decode_frame small_json p 64 ≡ ok data_sent)
read_one_frame-consumes_example =
    read_one_frame-consumes small_json 64 (data_frame ++ data_payload) data_payload data_sent
      read_one_frame-encode_frame_example

abbrev new_secret : SecretValue
new_secret = record { reveal = "0123456789012345678901234567890123456789012" }

rotation_frame : List ℕ
rotation_frame = bytes_of (encode_tunnel_secret_rotation small_json "r2" "web" new_secret 1024)

rotation_encoded :
    encode_tunnel_secret_rotation small_json "r2" "web" new_secret 1024 ≡ ok rotation_frame
unfolding rotation_frame encode_tunnel_secret_rotation validate_node_name encode_frame write_fields
    write_text rotation_fields
rotation_encoded = refl

decode-encode_tunnel_secret_rotation_example :
    decode_tunnel_secret_rotation small_json rotation_frame 1024
    ≡ ok (record { request_id = "r2"; node_name = "web"; tunnel_secret = new_secret })
unfolding too_short
decode-encode_tunnel_secret_rotation_example =
    decode-encode_tunnel_secret_rotation small_json small_json-IsJson "r2" "web" new_secret 1024
      rotation_frame refl rotation_encoded
