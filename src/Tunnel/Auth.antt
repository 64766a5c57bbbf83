-- ===== src/Tunnel/Auth.antt =====
-- server/tunnel.py: the agents' records, `TunnelAuthenticator`, the binding to the peer's
-- certificate, and `AgentCertificateRenewer`, over `InMemoryAgentTunnelStore`. A UUID is a number,
-- an instant a number of microseconds in UTC.
pub mod Decision
pub mod Renewal
use vibe_connect.Base.{
  ℕ, String, Bool, true, false, not, Option, none, some, Result, ok, raise, Error, secret_error,
  tunnel_auth_error, key_error, raise_if, or_raise, ◌>>=◌, ◌>>◌, leb, ◌==◌, ◌!=◌, nat_eq, string_eq,
  is_none, if◌then◌else◌, ◌||◌,
}
use vibe_connect.Base.Dict.{Dict, get, put}
use vibe_connect.Secret.{SecretValue, too_short, secret_value, verify_secret_hash}

pub record AgentTunnelRecord : Type 0 where
  pub agent_id : ℕ
  pub node_name : String
  pub x509_public_key : String
  pub tunnel_secret_hash : String
  pub cert_serial : String
  pub cert_expires_at : ℕ
  pub revoked_at : Option ℕ

pub record TunnelAuthRequest : Type 0 where
  pub agent_id : ℕ
  pub node_name : String
  pub cert_serial : String
  pub cert_public_key : String
  pub tunnel_secret : String

pub record PeerCertificateBinding : Type 0 where
  pub cert_serial : String
  pub cert_public_key : String

-- `InMemoryAgentTunnelStore`
pub record AgentStore : Type 0 where
  pub records : Dict ℕ AgentTunnelRecord
  pub last_seen : Dict ℕ ℕ

unfoldable pub get_agent : ℕ → AgentStore → Option AgentTunnelRecord
get_agent agent_id store = get agent_id store.records

unfoldable pub update_last_seen : ℕ → ℕ → AgentStore → AgentStore
update_last_seen agent_id now store = record store { last_seen = put agent_id now store.last_seen }

unfoldable pub with_certificate : String → String → ℕ → AgentTunnelRecord → AgentTunnelRecord
with_certificate public_key_pem cert_serial expires_at record' = record record' {
  x509_public_key = public_key_pem;
  cert_serial = cert_serial;
  cert_expires_at = expires_at;
}

unfoldable pub update_agent_certificate : ℕ → String → String → ℕ → AgentStore → Result AgentStore
unfolding with_certificate
update_agent_certificate agent_id public_key_pem cert_serial expires_at store = do
  found ← or_raise (get agent_id store.records) key_error
  let renewed = with_certificate public_key_pem cert_serial expires_at found
  ok (record store { records = put agent_id renewed store.records })

unfoldable pub verify_peer_certificate_binding :
    TunnelAuthRequest → PeerCertificateBinding → Result (Unit {0})
verify_peer_certificate_binding request peer = do
  raise_if (request.cert_serial != peer.cert_serial)
      (tunnel_auth_error "mTLS certificate serial mismatch")
  raise_if (request.cert_public_key != peer.cert_public_key)
      (tunnel_auth_error "mTLS certificate public key mismatch")

module _ (sha256_hex_text : String → String) where
  -- `verify_secret_hash(SecretValue(...), ...)`, a `SecretError` turned into a mismatch
  unfoldable pub secret_matches : String → String → Result Bool
  unfolding secret_value verify_secret_hash
  secret_matches tunnel_secret expected_hash = elim (secret_value tunnel_secret) [
    | ok secret ↦ ok (verify_secret_hash sha256_hex_text secret expected_hash)
    | raise e ↦ raise (tunnel_auth_error "tunnel secret mismatch")
  ]

  unfoldable pub check_record : TunnelAuthRequest → ℕ → AgentTunnelRecord → Result AgentTunnelRecord
  unfolding secret_matches
  check_record request now found = do
    raise_if (not (is_none found.revoked_at)) (tunnel_auth_error "agent is revoked")
    raise_if (leb found.cert_expires_at now) (tunnel_auth_error "agent certificate is expired")
    raise_if (found.node_name != request.node_name) (tunnel_auth_error "node binding mismatch")
    raise_if (found.cert_serial != request.cert_serial)
        (tunnel_auth_error "certificate serial mismatch")
    raise_if (found.x509_public_key != request.cert_public_key)
        (tunnel_auth_error "certificate public key mismatch")
    matches ← secret_matches request.tunnel_secret found.tunnel_secret_hash
    raise_if (not matches) (tunnel_auth_error "tunnel secret mismatch")
    ok found

  unfoldable pub authenticate : TunnelAuthRequest → ℕ → AgentStore → Result AgentTunnelRecord
  unfolding get_agent check_record
  authenticate request now store = do
    found ← or_raise (get_agent request.agent_id store) (tunnel_auth_error "agent is unknown")
    check_record request now found

-- What `issue_agent_client_certificate` returns; the certificate's signature and its random serial
-- number come from a library.
pub record IssuedAgentCertificate : Type 0 where
  pub certificate_pem : String
  pub serial : String
  pub expires_at : ℕ

pub record RenewedAgentCertificate : Type 0 where
  pub public_key_pem : String
  pub certificate_pem : String
  pub cert_serial : String
  pub cert_expires_at : ℕ

abbrev pub may_not_renew : AgentTunnelRecord → String → Bool
may_not_renew found node_name = not (is_none found.revoked_at) || found.node_name != node_name

-- `issue` is `_load_ed25519_public_key` and `issue_agent_client_certificate`.
module _ (issue : String → String → ℕ → ℕ → Result IssuedAgentCertificate) where
  unfoldable pub renew :
      ℕ → String → String → ℕ → AgentStore → Result (RenewedAgentCertificate × AgentStore)
  unfolding get_agent update_agent_certificate
  renew agent_id node_name new_public_key_pem now store = do
    found ← or_raise (get_agent agent_id store) (tunnel_auth_error "agent cannot renew certificate")
    raise_if (may_not_renew found node_name) (tunnel_auth_error "agent cannot renew certificate")
    issued ← issue new_public_key_pem node_name agent_id now
    store' ←
        update_agent_certificate agent_id new_public_key_pem issued.serial issued.expires_at store
    ok (
      record {
        public_key_pem = new_public_key_pem;
        certificate_pem = issued.certificate_pem;
        cert_serial = issued.serial;
        cert_expires_at = issued.expires_at;
      },
      store',
    )
