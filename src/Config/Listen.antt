-- ===== src/Config/Listen.antt =====
-- The address of the metrics. `ipaddress`, `str.isdigit` and `int` are Python's library; `int` may
-- raise ValueError.
use vibe_connect.Base.{
  ℕ, String, code, Bool, false, not, ◌||◌, ◌&&◌, Option, none, some, Result, raise, config_error,
  value_error, ◌>>=◌, ◌>>◌, raise_if, or_raise, nat_eq, string_eq, ◌==◌, if◌then◌else◌,
}
use vibe_connect.Value.{pos}
use vibe_connect.Config.Models.{within}

pub record IpAddress : Type 0 where
  pub version : ℕ
  pub is_loopback : Bool

pub record Addresses : Type 0 where
  pub ip_address : String → Option IpAddress
  pub isdigit : String → Bool
  pub int_of : String → Option ℕ

-- `rpartition(":")`, where there is a colon
unfoldable pub at_last_colon : String → Option (String × String)
at_last_colon String.[] = none
at_last_colon (String.◌∷◌ c s) = elim (at_last_colon s) [
  | some (host, port) ↦ some (String.◌∷◌ c host, port)
  | none ↦ if code c == 58 then some ("", s) else none
]

module _ (addresses : Addresses) where
  abbrev pub loopback_of : Option IpAddress → Bool
  loopback_of none = false
  loopback_of (some address) = address.version == 4 && address.is_loopback

  unfoldable pub is_ipv4_loopback : String → Bool
  is_ipv4_loopback value = loopback_of (addresses.ip_address value)

  unfoldable pub listen_parts : Option (String × String) → Result (Unit {0})
  unfolding is_ipv4_loopback within
  listen_parts none = raise (config_error "metrics.listen must be host:port")
  listen_parts (some (host, port_text)) = do
    raise_if (host == "" || not (addresses.isdigit port_text))
        (config_error "metrics.listen must be host:port")
    raise_if (not (is_ipv4_loopback host))
        (config_error "metrics.listen must bind to IPv4 loopback by default")
    port ← or_raise (addresses.int_of port_text) (value_error "invalid literal")
    raise_if (not (within 1 65535 (pos port)))
        (config_error "metrics.listen port is outside valid TCP port bounds")

  unfoldable pub validate_metrics_listen : String → Result (Unit {0})
  unfolding listen_parts at_last_colon
  validate_metrics_listen listen = listen_parts (at_last_colon listen)
