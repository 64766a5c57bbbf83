-- ===== src/Tests/Configs.antt =====
-- A server's configuration that validates, and one that does not.
use vibe_connect.Base.{
  ℕ, String, Bool, true, false, Option, none, some, List, [], ◌∷◌, Result, ok, raise, ◌≡◌, refl,
  config_error, eq_of_beq, string_eq, ◌==◌, if◌then◌else◌,
}
use vibe_connect.Base.Dict.{Dict}
use vibe_connect.Value.{pos}
use vibe_connect.Config.Models.{
  FilePublicKeyEntry, ServerConfig, AgentConfig, AuthConfig, TunnelConfig,
}
use vibe_connect.Config.Files.{FileSystem}
use vibe_connect.Config.Listen.{Addresses, is_ipv4_loopback, loopback_of}
use vibe_connect.Config.Keys.{validate_file_public_key_entries}
use vibe_connect.Config.Validate.{validate_server_config, validate_agent_config}
use vibe_connect.Config.Sound.{IsSound, validate_server_config-IsSound}
use vibe_connect.Identifiers.{codes}
use vibe_connect.Audit.Scrub.{is_prefix}
use vibe_connect.Config.Runnable.{IsRunnable, validate_agent_config-IsRunnable}
use vibe_connect.Config.Unshared.{AllOwned, validate_file_public_key_entries-AllOwned}

-- Every path is a file of mode 0o600, but /opt, of mode 0o755.
abbrev small_files : FileSystem
small_files = record {
  is_file = λ path. if path == "/opt" then false else true;
  is_dir = λ path. true;
  stat = λ path. some (record { owner = 0; mode = if path == "/opt" then 493 else 384 });
}

abbrev small_addresses : Addresses
small_addresses = record {
  ip_address = λ text.
      if text == "127.0.0.1" then some (record { version = 4; is_loopback = true }) else none;
  isdigit = λ text. text == "9100";
  int_of = λ text. if text == "9100" then some 9100 else none;
}

abbrev two_entries : List FilePublicKeyEntry
two_entries =
    record { entry_username = "ann"; entry_keys = "k1" ∷ "k2" ∷ [] }
    ∷ record { entry_username = "bob"; entry_keys = "k3" ∷ [] }
    ∷ []

abbrev small_tunnel : TunnelConfig
small_tunnel = record {
  max_sessions_per_agent = pos 64;
  tunnel_heartbeat_seconds = pos 30;
  frame_max_bytes = pos 1048576;
  server_tls_ca_bundle = "/ca";
  node_ssh_port = pos 2222;
}

abbrev small_auth : AuthConfig
small_auth = record {
  public_keys_config = record {
    source = "file";
    file_path = some "/keys";
    file_entries = two_entries;
  };
  ldap = record { enabled = true; use_tls = true; validate_tls = true };
  azure_ad = record {
    azure_enabled = false;
    client_secret_path = none;
    use_managed_identity = false;
  };
  keyboard_interactive_verifier = some "ldap";
}

abbrev small_config : ServerConfig
small_config = record {
  certs = record {
    agent_ca_key_path = "/a";
    agent_ca_cert_path = "/b";
    user_ca_key_path = "/c";
    user_ca_public_key_path = "/d";
    agent_cert_lifetime_days = pos 30;
    user_cert_ttl_hours = pos 4;
  };
  tunnel = small_tunnel;
  auth = small_auth;
  replay_config = record {
    directory = "/replay";
    retention_days = pos 90;
    integrity_key_path = "/e";
  };
  metrics_listen = "127.0.0.1:9100";
  install_dirs = "/opt" ∷ [];
  secret_paths = "/a" ∷ "/e" ∷ [];
}

small_config-accepted : validate_server_config small_files small_addresses small_config ≡ ok tt
unfolding validate_server_config vibe_connect.Identifiers.validate_username_principal
    vibe_connect.Base.Dict.get vibe_connect.Base.Dict.put
small_config-accepted = refl

validate_server_config-IsSound_example : IsSound small_files small_addresses small_config
validate_server_config-IsSound_example =
    validate_server_config-IsSound small_files small_addresses small_config small_config-accepted

-- A secret that is a directory.
secret_refused :
    validate_server_config small_files small_addresses
      record small_config { secret_paths = "/opt" ∷ [] }
    ≡ raise (config_error "secret is missing")
unfolding validate_server_config vibe_connect.Text.append
secret_refused = refl

two_entries-accepted : validate_file_public_key_entries two_entries ≡ ok tt
unfolding validate_file_public_key_entries vibe_connect.Identifiers.validate_username_principal
    vibe_connect.Base.Dict.get vibe_connect.Base.Dict.put
two_entries-accepted = refl

validate_file_public_key_entries-AllOwned_example :
    (owners : Dict String String) × AllOwned owners two_entries
validate_file_public_key_entries-AllOwned_example =
    validate_file_public_key_entries-AllOwned two_entries two_entries-accepted

-- One key of two users.
shared_key_refused :
    validate_file_public_key_entries
      (record { entry_username = "eve"; entry_keys = "k3" ∷ [] } ∷ two_entries)
    ≡ raise (config_error "file public-key auth maps a key to multiple users")
unfolding validate_file_public_key_entries vibe_connect.Identifiers.validate_username_principal
    vibe_connect.Base.Dict.get vibe_connect.Base.Dict.put
shared_key_refused = refl

abbrev small_agent : AgentConfig
small_agent = record {
  config_path = "/etc/agent.conf";
  identity_parent = "/var/lib/vibeconnect";
  enrollment_token = none;
  enrollment_completed = true;
  enrollment_tls_ca_bundle = "/ca";
  tunnel_tls_ca_bundle = "/ca";
  proxy_target_host = "127.0.0.1";
  proxy_target_port = pos 22;
  agent_heartbeat_seconds = pos 30;
  reconnect_backoff_max_seconds = pos 300;
  max_reconnect_attempts = pos 0;
}

small_agent-accepted : validate_agent_config small_files small_addresses small_agent 0 none ≡ ok tt
unfolding validate_agent_config vibe_connect.Base.contains
small_agent-accepted = refl

-- Nothing but 127.0.0.1 is an address here.
small_begins :
    (host : String)
    → is_ipv4_loopback small_addresses host ≡ true
    → is_prefix (codes "127.") (codes host) ≡ true
unfolding is_ipv4_loopback is_prefix
small_begins host h = only (host == "127.0.0.1") refl h
  where
    only :
        (b : Bool)
        → (host == "127.0.0.1") ≡ b
        → loopback_of small_addresses
            (if b then some (record { version = 4; is_loopback = true }) else none)
          ≡ true
        → is_prefix (codes "127.") (codes host) ≡ true
    only true e h' = rw (eq_of_beq host "127.0.0.1" e) refl
    only false e h' = cc

validate_agent_config-IsRunnable_example : IsRunnable small_files small_addresses small_agent 0 none
validate_agent_config-IsRunnable_example =
    validate_agent_config-IsRunnable small_files small_addresses small_begins small_agent 0 none
      small_agent-accepted
