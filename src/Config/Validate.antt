-- ===== src/Config/Validate.antt =====
-- validate_server_config and validate_agent_config.
use vibe_connect.Base.{
  ℕ, String, Bool, false, not, ◌||◌, ◌&&◌, Option, none, some, List, [], ◌∷◌, Result, ok, raise,
  config_error, ◌>>◌, raise_if, string_eq, ◌==◌, if◌then◌else◌,
}
use vibe_connect.Config.Models.{
  TunnelConfig, PublicKeyAuthConfig, LdapConfig, AuthConfig, ServerConfig, AgentConfig, within,
  is_negative,
}
use vibe_connect.Config.Files.{
  FileSystem, require_file, require_dir, require_owner, require_readable_by_uid,
  reject_group_or_other_accessible, reject_group_or_other_writable, reject_other_readable,
}
use vibe_connect.Config.Listen.{Addresses, is_ipv4_loopback, validate_metrics_listen}
use vibe_connect.Config.Keys.{validate_file_public_key_entries}

unfoldable pub validate_tunnel_bounds : TunnelConfig → Result (Unit {0})
unfolding within
validate_tunnel_bounds tunnel = do
  raise_if (not (within 1 1024 tunnel.max_sessions_per_agent))
      (config_error "max_sessions_per_agent is outside documented bounds")
  raise_if (not (within 5 300 tunnel.tunnel_heartbeat_seconds))
      (config_error "heartbeat_seconds is outside documented bounds")
  raise_if (not (within 65536 16777216 tunnel.frame_max_bytes))
      (config_error "frame_max_bytes is outside documented bounds")
  raise_if (not (within 1 65535 tunnel.node_ssh_port))
      (config_error "node_ssh_port is outside valid TCP port bounds")

abbrev pub is_text : Option String → String → Bool
is_text none text = false
is_text (some found) text = found == text

abbrev pub unsafe_ldap : LdapConfig → Bool
unsafe_ldap ldap = ldap.enabled && (not ldap.use_tls || not ldap.validate_tls)

-- `if config.enrollment_token`
abbrev pub token_given : Option String → Bool
token_given none = false
token_given (some token) = not (token == "")

module _ (fs : FileSystem) (addresses : Addresses) where
  unfoldable pub validate_file_keys : PublicKeyAuthConfig → Option String → Result (Unit {0})
  unfolding require_file reject_group_or_other_writable validate_file_public_key_entries
  validate_file_keys keys none = raise (config_error "file public-key auth requires file_path")
  validate_file_keys keys (some path) = do
    require_file fs path "authorized-keys file"
    reject_group_or_other_writable fs path "authorized-keys file"
    validate_file_public_key_entries keys.file_entries

  unfoldable pub validate_auth_config : AuthConfig → Result (Unit {0})
  unfolding validate_file_keys
  validate_auth_config auth = do
    raise_if (unsafe_ldap auth.ldap)
        (config_error "LDAP requires StartTLS/LDAPS certificate validation")
    raise_if (is_text auth.keyboard_interactive_verifier "azure_ad")
        (config_error "Azure AD cannot verify keyboard-interactive passwords")
    if auth.public_keys_config.source == "file"
        then validate_file_keys auth.public_keys_config auth.public_keys_config.file_path
        else ok tt

  unfoldable pub check_install_dirs : List String → Result (Unit {0})
  unfolding require_dir reject_group_or_other_writable
  check_install_dirs [] = ok tt
  check_install_dirs (path ∷ paths) =
      let rest = check_install_dirs paths in
      (do
        require_dir fs path "install directory"
        reject_group_or_other_writable fs path "install directory"
        rest)

  unfoldable pub check_secret_paths : List String → Result (Unit {0})
  unfolding require_file reject_group_or_other_accessible
  check_secret_paths [] = ok tt
  check_secret_paths (path ∷ paths) =
      let rest = check_secret_paths paths in
      (do require_file fs path "secret"; reject_group_or_other_accessible fs path "secret"; rest)

  unfoldable pub require_server_files : ServerConfig → Result (Unit {0})
  unfolding require_file require_dir
  require_server_files config = do
    require_file fs config.certs.agent_ca_key_path "agent CA key"
    require_file fs config.certs.agent_ca_cert_path "agent CA certificate"
    require_file fs config.certs.user_ca_key_path "user CA key"
    require_file fs config.certs.user_ca_public_key_path "user CA public key"
    require_file fs config.tunnel.server_tls_ca_bundle "tunnel TLS CA bundle"
    require_dir fs config.replay_config.directory "replay directory"
    require_file fs config.replay_config.integrity_key_path "replay integrity key"

  unfoldable pub validate_server_config : ServerConfig → Result (Unit {0})
  unfolding require_server_files check_install_dirs check_secret_paths within validate_tunnel_bounds
      validate_auth_config validate_metrics_listen
  validate_server_config config = do
    require_server_files config
    check_install_dirs config.install_dirs
    check_secret_paths config.secret_paths
    raise_if (not (within 1 12 config.certs.user_cert_ttl_hours))
        (config_error "user_cert_ttl_hours must be between 1 and 12")
    validate_tunnel_bounds config.tunnel
    validate_auth_config config.auth
    validate_metrics_listen addresses config.metrics_listen

  -- The files and the directory of an agent.
  unfoldable pub validate_agent_files : AgentConfig → ℕ → List ℕ → Result (Unit {0})
  unfolding require_file require_dir require_owner reject_other_readable require_readable_by_uid
      reject_group_or_other_accessible
  validate_agent_files config runtime_uid allowed_owners = do
    require_file fs config.config_path "agent.conf"
    require_owner fs config.config_path allowed_owners "agent.conf"
    reject_other_readable fs config.config_path "agent.conf"
    require_readable_by_uid fs config.config_path runtime_uid "agent.conf"
    require_dir fs config.identity_parent "identity directory"
    require_owner fs config.identity_parent (runtime_uid ∷ []) "identity directory"
    reject_group_or_other_accessible fs config.identity_parent "identity directory"
    require_file fs config.enrollment_tls_ca_bundle "enrollment TLS CA bundle"
    require_file fs config.tunnel_tls_ca_bundle "tunnel TLS CA bundle"

  abbrev pub owners_or : ℕ → Option (List ℕ) → List ℕ
  owners_or runtime_uid none = runtime_uid ∷ []
  owners_or runtime_uid (some owners) = owners

  -- `runtime_uid` is the given one, or that of the process.
  unfoldable pub validate_agent_config : AgentConfig → ℕ → Option (List ℕ) → Result (Unit {0})
  unfolding validate_agent_files is_ipv4_loopback within is_negative
  validate_agent_config config runtime_uid allowed_owner_uids = do
    validate_agent_files config runtime_uid (owners_or runtime_uid allowed_owner_uids)
    raise_if (not (is_ipv4_loopback addresses config.proxy_target_host))
        (config_error "proxy target host must be within 127.0.0.0/8")
    raise_if (not (within 1 65535 config.proxy_target_port))
        (config_error "proxy target_port is outside valid TCP port bounds")
    raise_if (not (within 5 300 config.agent_heartbeat_seconds))
        (config_error "heartbeat_seconds is outside documented bounds")
    raise_if (not (within 30 1800 config.reconnect_backoff_max_seconds))
        (config_error "reconnect_backoff_max_seconds is outside documented bounds")
    raise_if (is_negative config.max_reconnect_attempts)
        (config_error "max_reconnect_attempts cannot be negative")
    raise_if (config.enrollment_completed && token_given config.enrollment_token)
        (config_error "enrollment token remains after successful enrollment")
