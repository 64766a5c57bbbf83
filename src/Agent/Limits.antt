-- ===== src/Agent/Limits.antt =====
-- agent/tunnel.py: the proxy's target and the count of missed heartbeats. A port and a limit are
-- naturals, and 0 stands for every value that is refused for being too small.
use vibe_connect.Base.{
  ℕ, ◌+◌, Bool, not, ◌&&◌, String, Result, ok, ◌>>◌, raise_if, agent_tunnel_error, leb,
}
use vibe_connect.Identifiers.{codes}
use vibe_connect.Audit.Scrub.{is_prefix}

pub record ProxyTarget : Type 0 where
  pub host : String
  pub port : ℕ

unfoldable pub validate_proxy_target : String → ℕ → Result ProxyTarget
validate_proxy_target host port = do
  raise_if (not (is_prefix (codes "127.") (codes host)))
      (agent_tunnel_error "agent proxy target must be IPv4 loopback")
  raise_if (not (leb 1 port && leb port 65535))
      (agent_tunnel_error "agent proxy target port is outside TCP bounds")
  ok (record { host = host; port = port })

pub record MissedHeartbeatTracker : Type 0 where
  pub max_missed : ℕ
  pub missed : ℕ

unfoldable pub new_tracker : ℕ → Result MissedHeartbeatTracker
new_tracker max_missed = do
  raise_if (leb max_missed 0) (agent_tunnel_error "max_missed must be positive")
  ok (record { max_missed = max_missed; missed = 0 })

unfoldable pub mark_tracker_seen : MissedHeartbeatTracker → MissedHeartbeatTracker
mark_tracker_seen t = record t { missed = 0 }

unfoldable pub mark_missed : MissedHeartbeatTracker → MissedHeartbeatTracker
mark_missed t = record t { missed = t.missed + 1 }

unfoldable pub should_reconnect : MissedHeartbeatTracker → Bool
should_reconnect t = leb t.max_missed t.missed
