-- ===== src/Config/Models.antt =====
-- models.py: the configuration records. A path is its text.
use vibe_connect.Base.{ℕ, String, Bool, true, false, ◌&&◌, Option, List, leb}
use vibe_connect.Value.{ℤ, pos, negsuc}

pub record FilePublicKeyEntry : Type 0 where
  pub entry_username : String
  pub entry_keys : List String

pub record CertConfig : Type 0 where
  pub agent_ca_key_path : String
  pub agent_ca_cert_path : String
  pub user_ca_key_path : String
  pub user_ca_public_key_path : String
  pub agent_cert_lifetime_days : ℤ
  pub user_cert_ttl_hours : ℤ

pub record TunnelConfig : Type 0 where
  pub max_sessions_per_agent : ℤ
  pub tunnel_heartbeat_seconds : ℤ
  pub frame_max_bytes : ℤ
  pub server_tls_ca_bundle : String
  pub node_ssh_port : ℤ

pub record PublicKeyAuthConfig : Type 0 where
  pub source : String
  pub file_path : Option String
  pub file_entries : List FilePublicKeyEntry

pub record LdapConfig : Type 0 where
  pub enabled : Bool
  pub use_tls : Bool
  pub validate_tls : Bool

pub record AzureAdConfig : Type 0 where
  pub azure_enabled : Bool
  pub client_secret_path : Option String
  pub use_managed_identity : Bool

pub record AuthConfig : Type 0 where
  pub public_keys_config : PublicKeyAuthConfig
  pub ldap : LdapConfig
  pub azure_ad : AzureAdConfig
  pub keyboard_interactive_verifier : Option String

pub record ReplayConfig : Type 0 where
  pub directory : String
  pub retention_days : ℤ
  pub integrity_key_path : String

pub record ServerConfig : Type 0 where
  pub certs : CertConfig
  pub tunnel : TunnelConfig
  pub auth : AuthConfig
  pub replay_config : ReplayConfig
  pub metrics_listen : String
  pub install_dirs : List String
  pub secret_paths : List String

-- `identity_parent` is `identity_path.parent`.
pub record AgentConfig : Type 0 where
  pub config_path : String
  pub identity_parent : String
  pub enrollment_token : Option String
  pub enrollment_completed : Bool
  pub enrollment_tls_ca_bundle : String
  pub tunnel_tls_ca_bundle : String
  pub proxy_target_host : String
  pub proxy_target_port : ℤ
  pub agent_heartbeat_seconds : ℤ
  pub reconnect_backoff_max_seconds : ℤ
  pub max_reconnect_attempts : ℤ

-- `low <= n <= high`
unfoldable pub within : ℕ → ℕ → ℤ → Bool
within low high (pos n) = leb low n && leb n high
within low high (negsuc n) = false

unfoldable pub is_negative : ℤ → Bool
is_negative (pos n) = false
is_negative (negsuc n) = true
