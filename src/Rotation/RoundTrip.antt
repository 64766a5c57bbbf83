-- ===== src/Rotation/RoundTrip.antt =====
-- The rotation frame against its decoder.
use vibe_connect.Base.{
  ℕ, ◌≡◌, ◌≢◌, refl, String, false, none, List, ok, >>=-eq-ok, string_eq, beq_of_ne, ap, ◌∙◌, true,
  sym,
}
use vibe_connect.Value.{get_field, Json, IsJson, is_flat}
use vibe_connect.Identifiers.{validate_node_name}
use vibe_connect.Identifiers.Containment.{validate_label-validate_node_name}
use vibe_connect.Secret.{SecretValue, too_short, secret_value}
use vibe_connect.Frame.{rotate_tunnel_secret}
use vibe_connect.Frame.RoundTrip.{decode_frame-encode_frame}
use vibe_connect.Rotation.{
  rotation_fields, rotation_node_name, rotation_secret, encode_tunnel_secret_rotation,
  decode_tunnel_secret_rotation,
}

rotation_fields-is_flat :
    (node : String) (secret : SecretValue) → is_flat (rotation_fields node secret) ≡ true
unfolding rotation_fields is_flat get_field
rotation_fields-is_flat node secret = refl

long_nonempty : (s : String) → too_short s ≡ false → s ≢ ""
unfolding too_short
long_nonempty s h e = cc (ap too_short (sym e) ∙ h)

module _ (node : String) (secret : SecretValue) (long : too_short secret.reveal ≡ false) where
  secret_written :
      rotation_secret (get_field "tunnel_secret" (rotation_fields node secret)) ≡ ok secret.reveal
  unfolding rotation_fields get_field rotation_secret
  secret_written = rw (beq_of_ne secret.reveal "" (long_nonempty secret.reveal long))

  node_written : rotation_node_name (get_field "node_name" (rotation_fields node secret)) ≡ ok node
  unfolding rotation_fields get_field rotation_node_name
  node_written = refl

  secret_kept : secret_value secret.reveal ≡ ok secret
  unfolding secret_value
  secret_kept = rw long

module _ (json : Json) (codec : IsJson json) where
  -- Under a codec that reads its own objects back, a rotation that was encoded is decoded, under the same bound, to the same identifier, node and
  -- secret, where the secret is long enough for `SecretValue`.
  pub decode-encode_tunnel_secret_rotation :
      (r node : String) (secret : SecretValue) (m : ℕ) (bytes : List ℕ)
      → too_short secret.reveal ≡ false
      → encode_tunnel_secret_rotation json r node secret m ≡ ok bytes
      → decode_tunnel_secret_rotation json bytes m
        ≡ ok (record { request_id = r; node_name = node; tunnel_secret = secret })
  unfolding encode_tunnel_secret_rotation decode_tunnel_secret_rotation
  decode-encode_tunnel_secret_rotation r node secret m bytes long h =
      let (n, valid, h1) = >>=-eq-ok (validate_node_name node) _ h in
      let same = (validate_label-validate_node_name node n valid).0 in
      let (gs, reads, members) =
        codec.reads_back (rotation_fields n secret) (rotation_fields-is_flat n secret) in
      rw (decode_frame-encode_frame json rotate_tunnel_secret r none _ m bytes codec h1) (
        rw (reads, members "node_name", node_written n secret long)
          (rw (members "tunnel_secret", secret_written n secret long)
            (rw (ap validate_node_name same ∙ valid, secret_kept node secret long) (rw same refl))))
