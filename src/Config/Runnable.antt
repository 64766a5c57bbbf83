-- ===== src/Config/Runnable.antt =====
-- What an agent's configuration has when validate_agent_config returns; the agent process then calls
-- validate_proxy_target of agent/tunnel.py on the same host and port.
use vibe_connect.Base.{
  ℕ, String, true, false, ◌&&◌, Option, some, List, [], ◌∷◌, ok, ◌≡◌, refl, ◌%◌, leb, arith,
  os_error, contains, nat_eq, or_raise, >>=-eq-ok, raise_if-then-eq-ok, raise_if-eq-ok,
  or_raise-eq-ok,
}
use vibe_connect.Value.{ℤ, pos}
use vibe_connect.Identifiers.{codes}
use vibe_connect.Audit.Scrub.{is_prefix}
use vibe_connect.Agent.Limits.{validate_proxy_target}
use vibe_connect.Config.Models.{AgentConfig, is_negative}
use vibe_connect.Config.Files.{
  FileStat, FileSystem, has_bit, readable_by, require_file, require_dir, require_owner,
  require_readable_by_uid, reject_other_readable, reject_group_or_other_accessible,
}
use vibe_connect.Config.Listen.{Addresses, is_ipv4_loopback}
use vibe_connect.Config.Validate.{
  token_given, owners_or, validate_agent_files, validate_agent_config,
}
use vibe_connect.Config.Sound.{IsWithin, not-false, within-IsWithin}

module _ (fs : FileSystem) (addresses : Addresses) where
  -- agent.conf: of a permitted owner, read by the runtime user and not by others.
  abbrev pub IsReadableConf : String → ℕ → List ℕ → Type 0
  IsReadableConf path uid owners =
      (found : FileStat) × (fs.stat path ≡ some found)
      × (contains owners found.owner ≡ true)
      × (has_bit 4 found.mode ≡ false)
      × (readable_by fs uid found ≡ true)

  -- The directory of the identity: the runtime user's, and closed to everybody else.
  abbrev pub IsOwnDirectory : String → ℕ → Type 0
  IsOwnDirectory path uid =
      (fs.is_dir path ≡ true)
      × (found : FileStat) × (fs.stat path ≡ some found)
      × (contains (uid ∷ []) found.owner ≡ true)
      × (found.mode % 64 ≡ 0)

  -- The agent's own check of the proxy's target returns that target.
  abbrev pub IsAcceptedTarget : String → ℤ → Type 0
  IsAcceptedTarget host z =
      (port : ℕ) × (z ≡ pos port)
      × (validate_proxy_target host port ≡ ok (record { host = host; port = port }))

  pub record IsRunnable (config : AgentConfig) (uid : ℕ) (owners : Option (List ℕ)) : Type 0 where
    pub conf : IsReadableConf config.config_path uid (owners_or fs addresses uid owners)
    pub identity : IsOwnDirectory config.identity_parent uid
    pub target : IsAcceptedTarget config.proxy_target_host config.proxy_target_port
    pub heartbeat : IsWithin 5 300 config.agent_heartbeat_seconds
    pub backoff : IsWithin 30 1800 config.reconnect_backoff_max_seconds
    pub attempts : is_negative config.max_reconnect_attempts ≡ false
    pub token_gone : (config.enrollment_completed && token_given config.enrollment_token) ≡ false

  owner_found :
      (path label : String) (owners : List ℕ)
      → require_owner fs path owners label ≡ ok tt
      → (found : FileStat) × (fs.stat path ≡ some found) × (contains owners found.owner ≡ true)
  unfolding require_owner
  owner_found path label owners h =
      let (found, e, owned) = >>=-eq-ok (or_raise (fs.stat path) os_error) _ h in
      (found, or_raise-eq-ok (fs.stat path) os_error e, not-false _ (raise_if-eq-ok _ _ owned))

  conf-IsReadableConf :
      (path label : String) (uid : ℕ) (owners : List ℕ)
      → require_owner fs path owners label ≡ ok tt
      → reject_other_readable fs path label ≡ ok tt
      → require_readable_by_uid fs path uid label ≡ ok tt
      → IsReadableConf path uid owners
  unfolding reject_other_readable require_readable_by_uid
  conf-IsReadableConf path label uid owners h1 h2 h3 =
      let (found, e, owned) = owner_found path label owners h1 in
      (
        found,
        e,
        owned,
        raise_if-eq-ok _ _ (rw e at h2),
        not-false _ (raise_if-eq-ok _ _ (rw e at h3)),
      )

  directory-IsOwnDirectory :
      (path label : String) (uid : ℕ)
      → require_dir fs path label ≡ ok tt
      → require_owner fs path (uid ∷ []) label ≡ ok tt
      → reject_group_or_other_accessible fs path label ≡ ok tt
      → IsOwnDirectory path uid
  unfolding require_dir reject_group_or_other_accessible
  directory-IsOwnDirectory path label uid h1 h2 h3 =
      let (found, e, owned) = owner_found path label (uid ∷ []) h2 in
      let private = raise_if-eq-ok _ _ (rw e at h3) in
      (not-false _ (raise_if-eq-ok _ _ h1), found, e, owned, ground (arith, private))

  target-IsAcceptedTarget :
      ((host : String)
        → is_ipv4_loopback addresses host ≡ true
        → is_prefix (codes "127.") (codes host) ≡ true)
      → (host : String) (z : ℤ) → is_ipv4_loopback addresses host ≡ true
      → IsWithin 1 65535 z
      → IsAcceptedTarget host z
  unfolding validate_proxy_target
  target-IsAcceptedTarget begins host z h (port, e, low, high) =
      let bounded : (leb 1 port && leb port 65535) ≡ true = ground (arith, low, high) in
      (port, e, rw (begins host h) (rw bounded refl))

  files_facts :
      (config : AgentConfig) (uid : ℕ) (owners : List ℕ)
      → validate_agent_files fs addresses config uid owners ≡ ok tt
      → IsReadableConf config.config_path uid owners × IsOwnDirectory config.identity_parent uid
  unfolding validate_agent_files
  files_facts config uid owners h =
      let (u1, e1, h1) = >>=-eq-ok (require_file fs config.config_path "agent.conf") _ h in
      let (u2, e2, h2) = >>=-eq-ok (require_owner fs config.config_path owners "agent.conf") _ h1 in
      let (u3, e3, h3) =
        >>=-eq-ok (reject_other_readable fs config.config_path "agent.conf") _ h2 in
      let (u4, e4, h4) =
        >>=-eq-ok (require_readable_by_uid fs config.config_path uid "agent.conf") _ h3 in
      let (u5, e5, h5) =
        >>=-eq-ok (require_dir fs config.identity_parent "identity directory") _ h4 in
      let (u6, e6, h6) =
        >>=-eq-ok (require_owner fs config.identity_parent (uid ∷ []) "identity directory") _ h5 in
      let (u7, e7, h7) =
        >>=-eq-ok (reject_group_or_other_accessible fs config.identity_parent "identity directory")
          _ h6 in
      (
        conf-IsReadableConf config.config_path "agent.conf" uid owners e2 e3 e4,
        directory-IsOwnDirectory config.identity_parent "identity directory" uid e5 e6 e7,
      )

  -- Where an IPv4 loopback address is a text that begins with "127.": when validate_agent_config
  -- returns, agent.conf has a permitted owner and is read by the runtime user and not by others, the
  -- directory of the identity is that user's and closed to everybody else, the heartbeat and the
  -- backoff are within their bounds, the number of attempts is not negative, no enrollment token is
  -- left after the enrollment, and validate_proxy_target accepts the configured host and port.
  pub validate_agent_config-IsRunnable :
      ((host : String)
        → is_ipv4_loopback addresses host ≡ true
        → is_prefix (codes "127.") (codes host) ≡ true)
      → (config : AgentConfig) (uid : ℕ) (owners : Option (List ℕ))
      → validate_agent_config fs addresses config uid owners ≡ ok tt
      → IsRunnable config uid owners
  unfolding validate_agent_config
  validate_agent_config-IsRunnable begins config uid owners h =
      let (u, files, h1) =
        >>=-eq-ok (validate_agent_files fs addresses config uid (owners_or fs addresses uid owners))
          _ h in
      let (host, h2) = raise_if-then-eq-ok _ _ _ h1 in
      let (port, h3) = raise_if-then-eq-ok _ _ _ h2 in
      let (seconds, h4) = raise_if-then-eq-ok _ _ _ h3 in
      let (backoff, h5) = raise_if-then-eq-ok _ _ _ h4 in
      let (attempts, h6) = raise_if-then-eq-ok _ _ _ h5 in
      let (conf, identity) = files_facts config uid (owners_or fs addresses uid owners) files in
      record {
        conf = conf;
        identity = identity;
        target =
            target-IsAcceptedTarget begins config.proxy_target_host config.proxy_target_port
              (not-false _ host) (within-IsWithin 1 65535 _ port);
        heartbeat = within-IsWithin 5 300 _ seconds;
        backoff = within-IsWithin 30 1800 _ backoff;
        attempts = attempts;
        token_gone = raise_if-eq-ok _ _ h6;
      }
