-- ===== src/Config/Sound.antt =====
-- What a server's configuration has when validate_server_config returns.
use vibe_connect.Base.{
  ℕ, String, Bool, true, false, not, ◌||◌, Option, none, some, List, [], ◌∷◌, Result, ok, raise,
  ◌≡◌, refl, ◌⊎◌, ◌≤◌, ◌%◌, ◌==◌, nat_eq, string_eq, arith, config_error, value_error, os_error,
  ◌>>◌, or_raise, >>=-eq-ok, raise_if-then-eq-ok, raise_if-eq-ok, or_raise-eq-ok,
}
use vibe_connect.Value.{ℤ, pos, negsuc}
use vibe_connect.Text.{append}
use vibe_connect.Config.Models.{ServerConfig, TunnelConfig, AuthConfig, LdapConfig, within}
use vibe_connect.Config.Files.{
  FileStat, FileSystem, has_bit, require_file, require_dir, reject_group_or_other_accessible,
  reject_group_or_other_writable,
}
use vibe_connect.Config.Listen.{
  Addresses, is_ipv4_loopback, at_last_colon, listen_parts, validate_metrics_listen,
}
use vibe_connect.Config.Validate.{
  unsafe_ldap, is_text, validate_tunnel_bounds, validate_auth_config, check_install_dirs,
  check_secret_paths, require_server_files, validate_server_config,
}

-- A number between two others.
abbrev pub IsWithin : ℕ → ℕ → ℤ → Type 0
IsWithin low high z = (n : ℕ) × (z ≡ pos n) × (low ≤ n) × (n ≤ high)

abbrev pub Each : (String → Type 0) → List String → Type 0
Each P [] = Unit
Each P (x ∷ xs) = P x × Each P xs

pub not-false : (b : Bool) → not b ≡ false → b ≡ true
not-false true h = refl
not-false false h = cc

or-false : (a b : Bool) → (a || b) ≡ false → (a ≡ false) × (b ≡ false)
or-false a b h = ground arith

pub then_ok : (m k : Result (Unit {0})) → m ≡ ok tt → k ≡ ok tt → (m >> k) ≡ ok tt
then_ok (ok tt) k e e' = e'
then_ok (raise x) k e e' = cc

pub within-IsWithin : (low high : ℕ) (z : ℤ) → not (within low high z) ≡ false → IsWithin low high z
unfolding within
within-IsWithin low high (pos n) h = (n, refl, ground (arith, h), ground (arith, h))
within-IsWithin low high (negsuc n) h = cc

module _ (fs : FileSystem) (addresses : Addresses) where
  -- A file that nobody but its owner may use.
  abbrev pub IsPrivate : String → Type 0
  IsPrivate path =
      (fs.is_file path ≡ true)
      × (found : FileStat) × (fs.stat path ≡ some found)
      × (found.mode % 64 ≡ 0)

  -- A directory that only its owner writes to.
  abbrev pub IsUnwritable : String → Type 0
  IsUnwritable path =
      (fs.is_dir path ≡ true)
      × (found : FileStat) × (fs.stat path ≡ some found)
      × (has_bit 16 found.mode ≡ false)
      × (has_bit 2 found.mode ≡ false)

  abbrev pub IsGuarded : LdapConfig → Type 0
  IsGuarded ldap = (ldap.enabled ≡ false) ⊎ ((ldap.use_tls ≡ true) × (ldap.validate_tls ≡ true))

  -- A loopback address and a port.
  abbrev pub IsLocal : String → Type 0
  IsLocal listen =
      (host : String) × (port_text : String) × (port : ℕ) × (at_last_colon listen
        ≡ some (host, port_text))
      × (is_ipv4_loopback addresses host ≡ true)
      × (addresses.int_of port_text ≡ some port)
      × (1 ≤ port)
      × (port ≤ 65535)

  pub record IsBounded (tunnel : TunnelConfig) : Type 0 where
    pub sessions : IsWithin 1 1024 tunnel.max_sessions_per_agent
    pub heartbeat : IsWithin 5 300 tunnel.tunnel_heartbeat_seconds
    pub frames : IsWithin 65536 16777216 tunnel.frame_max_bytes
    pub ssh_port : IsWithin 1 65535 tunnel.node_ssh_port

  pub record IsSound (config : ServerConfig) : Type 0 where
    pub installed : Each IsUnwritable config.install_dirs
    pub secrets : Each IsPrivate config.secret_paths
    pub ttl : IsWithin 1 12 config.certs.user_cert_ttl_hours
    pub limits : IsBounded config.tunnel
    pub ldap : IsGuarded config.auth.ldap
    pub verifier : is_text config.auth.keyboard_interactive_verifier "azure_ad" ≡ false
    pub metrics : IsLocal config.metrics_listen

  writable-IsUnwritable :
      (path label label' : String)
      → (require_dir fs path label >> reject_group_or_other_writable fs path label') ≡ ok tt
      → IsUnwritable path
  unfolding require_dir reject_group_or_other_writable
  writable-IsUnwritable path label label' h =
      let (dir, more) =
        raise_if-then-eq-ok (not (fs.is_dir path)) (config_error (append label " is missing"))
          (reject_group_or_other_writable fs path label') h in
      let (found, e, mode) = >>=-eq-ok (or_raise (fs.stat path) os_error) _ more in
      let (group, other) = or-false _ _ (raise_if-eq-ok _ _ mode) in
      (
        not-false (fs.is_dir path) dir,
        found,
        or_raise-eq-ok (fs.stat path) os_error e,
        group,
        other,
      )

  accessible-IsPrivate :
      (path label label' : String)
      → (require_file fs path label >> reject_group_or_other_accessible fs path label') ≡ ok tt
      → IsPrivate path
  unfolding require_file reject_group_or_other_accessible
  accessible-IsPrivate path label label' h =
      let (file, more) =
        raise_if-then-eq-ok (not (fs.is_file path)) (config_error (append label " is missing"))
          (reject_group_or_other_accessible fs path label') h in
      let (found, e, mode) = >>=-eq-ok (or_raise (fs.stat path) os_error) _ more in
      let is_clear = raise_if-eq-ok _ _ mode in
      (
        not-false (fs.is_file path) file,
        found,
        or_raise-eq-ok (fs.stat path) os_error e,
        ground (arith, is_clear),
      )

  directories-IsUnwritable :
      (paths : List String)
      → check_install_dirs fs addresses paths ≡ ok tt
      → Each IsUnwritable paths
  unfolding check_install_dirs
  directories-IsUnwritable [] h = tt
  directories-IsUnwritable (path ∷ paths) h =
      let (u, e, more) = >>=-eq-ok (require_dir fs path "install directory") _ h in
      let (v, e', rest) =
        >>=-eq-ok (reject_group_or_other_writable fs path "install directory") _ more in
      (
        writable-IsUnwritable path "install directory" "install directory" (then_ok _ _ e e'),
        directories-IsUnwritable paths rest,
      )

  files-IsPrivate :
      (paths : List String) → check_secret_paths fs addresses paths ≡ ok tt → Each IsPrivate paths
  unfolding check_secret_paths
  files-IsPrivate [] h = tt
  files-IsPrivate (path ∷ paths) h =
      let (u, e, more) = >>=-eq-ok (require_file fs path "secret") _ h in
      let (v, e', rest) = >>=-eq-ok (reject_group_or_other_accessible fs path "secret") _ more in
      (accessible-IsPrivate path "secret" "secret" (then_ok _ _ e e'), files-IsPrivate paths rest)

  ldap-IsGuarded : (ldap : LdapConfig) → unsafe_ldap ldap ≡ false → IsGuarded ldap
  ldap-IsGuarded ldap h = ground arith

  tunnel-IsBounded :
      (tunnel : TunnelConfig) → validate_tunnel_bounds tunnel ≡ ok tt → IsBounded tunnel
  unfolding validate_tunnel_bounds
  tunnel-IsBounded tunnel h =
      let (a, h1) = raise_if-then-eq-ok _ _ _ h in
      let (b, h2) = raise_if-then-eq-ok _ _ _ h1 in
      let (c, h3) = raise_if-then-eq-ok _ _ _ h2 in
      let d = raise_if-eq-ok _ _ h3 in
      record {
        sessions = within-IsWithin 1 1024 _ a;
        heartbeat = within-IsWithin 5 300 _ b;
        frames = within-IsWithin 65536 16777216 _ c;
        ssh_port = within-IsWithin 1 65535 _ d;
      }

  parts-IsLocal :
      (listen : String) (parts : Option (String × String))
      → at_last_colon listen ≡ parts
      → listen_parts addresses parts ≡ ok tt
      → IsLocal listen
  unfolding listen_parts
  parts-IsLocal listen none e h = cc
  parts-IsLocal listen (some (host, port_text)) e h =
      let (_, h1) =
        raise_if-then-eq-ok (host == "" || not (addresses.isdigit port_text))
          (config_error "metrics.listen must be host:port") _ h in
      let (loopback, h2) =
        raise_if-then-eq-ok (not (is_ipv4_loopback addresses host))
          (config_error "metrics.listen must bind to IPv4 loopback by default") _ h1 in
      let (port, p, h3) =
        >>=-eq-ok (or_raise (addresses.int_of port_text) (value_error "invalid literal")) _ h2 in
      let (n, same, low, high) = within-IsWithin 1 65535 (pos port) (
        raise_if-eq-ok (not (within 1 65535 (pos port)))
          (config_error "metrics.listen port is outside valid TCP port bounds") h3) in
      (
        host,
        port_text,
        port,
        e,
        not-false _ loopback,
        or_raise-eq-ok (addresses.int_of port_text) _ p,
        ground (arith, same, low),
        ground (arith, same, high),
      )

  auth_facts :
      (auth : AuthConfig)
      → validate_auth_config fs addresses auth ≡ ok tt
      → (unsafe_ldap auth.ldap ≡ false)
        × (is_text auth.keyboard_interactive_verifier "azure_ad" ≡ false)
  unfolding validate_auth_config
  auth_facts auth h =
      let (a, h1) = raise_if-then-eq-ok _ _ _ h in
      let (b, _) = raise_if-then-eq-ok _ _ _ h1 in (a, b)

  -- When validate_server_config returns, every install directory is a directory that neither its
  -- group nor others write to, every secret is a file whose mode gives them nothing, the lifetime of
  -- a certificate and the limits of the tunnel are in their documented bounds, LDAP is off or checks
  -- certificates over TLS, keyboard-interactive passwords are not left to Azure AD, and the metrics
  -- listen to a port of an IPv4 loopback address.
  pub validate_server_config-IsSound :
      (config : ServerConfig) → validate_server_config fs addresses config ≡ ok tt → IsSound config
  unfolding validate_server_config validate_metrics_listen
  validate_server_config-IsSound config h =
      let (u1, _, h1) = >>=-eq-ok (require_server_files fs addresses config) _ h in
      let (u2, dirs, h2) = >>=-eq-ok (check_install_dirs fs addresses config.install_dirs) _ h1 in
      let (u3, files, h3) = >>=-eq-ok (check_secret_paths fs addresses config.secret_paths) _ h2 in
      let (hours, h4) = raise_if-then-eq-ok _ _ _ h3 in
      let (u4, tunnel, h5) = >>=-eq-ok (validate_tunnel_bounds config.tunnel) _ h4 in
      let (u5, auth, metrics) = >>=-eq-ok (validate_auth_config fs addresses config.auth) _ h5 in
      let (ldap, verifier) = auth_facts config.auth auth in
      record {
        installed = directories-IsUnwritable config.install_dirs dirs;
        secrets = files-IsPrivate config.secret_paths files;
        ttl = within-IsWithin 1 12 _ hours;
        limits = tunnel-IsBounded config.tunnel tunnel;
        ldap = ldap-IsGuarded config.auth.ldap ldap;
        verifier = verifier;
        metrics =
            parts-IsLocal config.metrics_listen (at_last_colon config.metrics_listen) refl metrics;
      }
