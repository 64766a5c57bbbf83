-- ===== src/Tunnel/Auth/Decision.antt =====
-- TunnelAuthenticator.authenticate: exactly which requests it admits.
use text.Mathlib.TextEquality.{eq_iff}
use vibe_connect.Base.{
  ℕ, ◌≡◌, ◌↔◌, ◌<◌, String, Bool, true, false, none, some, Result, ok, arith, >>=-eq-ok, or_raise,
  tunnel_auth_error, raise_if-then-eq-ok, or_raise-eq-ok, eq_of_not_differs, not_differs, leb,
  leb→lt, not, is_none, ◌!=◌, string_eq,
}
use vibe_connect.Secret.{too_short}
use vibe_connect.Tunnel.Auth.{
  AgentTunnelRecord, TunnelAuthRequest, AgentStore, get_agent, secret_matches, check_record,
  authenticate,
}

module _ (sha256_hex_text : String → String) (request : TunnelAuthRequest) (now : ℕ) where
  -- The certificate is current and the record binds the request's node, certificate and secret.
  pub record IsBound (found : AgentTunnelRecord) : Type 0 where
    pub not_revoked : found.revoked_at ≡ none
    pub current : now < found.cert_expires_at
    pub node : found.node_name ≡ request.node_name
    pub serial : found.cert_serial ≡ request.cert_serial
    pub public_key : found.x509_public_key ≡ request.cert_public_key
    pub generated : too_short request.tunnel_secret ≡ false
    pub secret : sha256_hex_text request.tunnel_secret ≡ found.tunnel_secret_hash

  matches_iff :
      (hash : String)
      → (secret_matches sha256_hex_text request.tunnel_secret hash ≡ ok true) ↔ (
          (too_short request.tunnel_secret ≡ false)
          × (sha256_hex_text request.tunnel_secret ≡ hash))
  unfolding secret_matches
  matches_iff hash = (
    λ h. ground (arith, eq_iff (sha256_hex_text request.tunnel_secret) hash),
    λ h. ground (arith, eq_iff (sha256_hex_text request.tunnel_secret) hash),
  )

  module _ (found : AgentTunnelRecord) where
    found_of_ok :
        (r : AgentTunnelRecord) → ◌≡◌ {A = Result AgentTunnelRecord} (ok found) (ok r) → r ≡ found
    found_of_ok r h = cc

    checks-IsBound :
        (matches : Bool)
        → not (is_none found.revoked_at) ≡ false
        → leb found.cert_expires_at now ≡ false
        → (found.node_name != request.node_name) ≡ false
        → (found.cert_serial != request.cert_serial) ≡ false
        → (found.x509_public_key != request.cert_public_key) ≡ false
        → secret_matches sha256_hex_text request.tunnel_secret found.tunnel_secret_hash ≡ ok matches
        → not matches ≡ false
        → IsBound found
    checks-IsBound false live current node serial key e accepted = cc
    checks-IsBound true live current node serial key e accepted =
        let (long, same) = (matches_iff found.tunnel_secret_hash).0 e in
        record {
          not_revoked = ground arith;
          current = leb→lt found.cert_expires_at now current;
          node = eq_of_not_differs found.node_name request.node_name node;
          serial = eq_of_not_differs found.cert_serial request.cert_serial serial;
          public_key = eq_of_not_differs found.x509_public_key request.cert_public_key key;
          generated = long;
          secret = same;
        }

  check_record-IsBound :
      (found r : AgentTunnelRecord)
      → check_record sha256_hex_text request now found ≡ ok r
      → (r ≡ found) × IsBound found
  unfolding check_record
  check_record-IsBound found r h =
      let (live, h1) = raise_if-then-eq-ok _ _ _ h in
      let (current, h2) = raise_if-then-eq-ok _ _ _ h1 in
      let (node, h3) = raise_if-then-eq-ok _ _ _ h2 in
      let (serial, h4) = raise_if-then-eq-ok _ _ _ h3 in
      let (key, h5) = raise_if-then-eq-ok _ _ _ h4 in
      let (matches, e, h6) =
        >>=-eq-ok (secret_matches sha256_hex_text request.tunnel_secret found.tunnel_secret_hash) _
          h5 in
      let (accepted, h7) = raise_if-then-eq-ok _ _ _ h6 in
      (found_of_ok found r h7, checks-IsBound found matches live current node serial key e accepted)

  check_record-total :
      (found : AgentTunnelRecord)
      → IsBound found
      → check_record sha256_hex_text request now found ≡ ok found
  unfolding check_record
  check_record-total found b =
      let matched = (matches_iff found.tunnel_secret_hash).1 (b.generated, b.secret) in
      let fresh : leb found.cert_expires_at now ≡ false = ground (arith, b.current) in
      rw (b.not_revoked, fresh, not_differs found.node_name request.node_name b.node)
        (rw (not_differs found.cert_serial request.cert_serial b.serial) (
          rw (not_differs found.x509_public_key request.cert_public_key b.public_key) (rw matched)))

  -- A tunnel is authenticated exactly when the store holds a record of the agent that is not
  -- revoked, whose certificate has not expired, which names the request's node, serial number and
  -- public key, and whose secret's hash is that of the request's secret, which is long enough to
  -- be a generated one; the answer is that record.
  pub authenticate_iff :
      (store : AgentStore) (found : AgentTunnelRecord)
      → (authenticate sha256_hex_text request now store ≡ ok found)
        ↔ ((get_agent request.agent_id store ≡ some found) × IsBound found)
  unfolding authenticate
  authenticate_iff store found = (only_if, if_bound)
    where
      only_if :
          authenticate sha256_hex_text request now store ≡ ok found
          → (get_agent request.agent_id store ≡ some found) × IsBound found
      only_if h =
          let (r, e, h1) =
            >>=-eq-ok
              (or_raise (get_agent request.agent_id store) (tunnel_auth_error "agent is unknown")) _
              h in
          let (same, bound) = check_record-IsBound r found h1 in
          rw same (or_raise-eq-ok (get_agent request.agent_id store) _ e, bound)

      if_bound :
          (get_agent request.agent_id store ≡ some found) × IsBound found
          → authenticate sha256_hex_text request now store ≡ ok found
      if_bound h = rw h.0 (check_record-total found h.1)
