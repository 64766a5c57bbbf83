-- ===== src/Tunnel/Heartbeat.antt =====
-- server/tunnel.py: `HeartbeatState`. An instant is a number of microseconds in UTC, as `_as_utc`
-- makes it; `heartbeat_seconds` is a natural, and 0 stands for every refused value.
use vibe_connect.Base.{
  ℕ, ◌≡◌, ◌<◌, ◌+◌, ◌*◌, ◌↔◌, Bool, true, false, Option, none, some, Result, raise_if, ◌>>◌, ok,
  tunnel_state_error, ltb, leb, arith,
}

pub record HeartbeatState : Type 0 where
  pub heartbeat_seconds : ℕ
  pub last_seen : Option ℕ

unfoldable pub new_heartbeat : ℕ → Result HeartbeatState
new_heartbeat heartbeat_seconds = do
  raise_if (leb heartbeat_seconds 0) (tunnel_state_error "heartbeat_seconds must be positive")
  ok (record { heartbeat_seconds = heartbeat_seconds; last_seen = none })

unfoldable pub mark_seen : ℕ → HeartbeatState → HeartbeatState
mark_seen now heartbeat = record heartbeat { last_seen = some now }

abbrev pub microseconds : ℕ
microseconds = 1_000_000

unfoldable pub allows_after : Option ℕ → ℕ → ℕ → Bool
allows_after none heartbeat_seconds now = false
allows_after (some last_seen) heartbeat_seconds now =
    ltb now (last_seen + heartbeat_seconds * 2 * microseconds)

unfoldable pub allows_new_jump : ℕ → HeartbeatState → Bool
unfolding allows_after
allows_new_jump now heartbeat = allows_after heartbeat.last_seen heartbeat.heartbeat_seconds now

-- A jump is allowed exactly when the tunnel was seen and fewer than two heartbeat intervals have
-- passed since then.
pub allows_new_jump_iff :
    (now seen : ℕ) (h : HeartbeatState)
    → (allows_new_jump now (mark_seen seen h) ≡ true)
      ↔ (now < seen + h.heartbeat_seconds * 2 * microseconds)
unfolding allows_new_jump mark_seen
allows_new_jump_iff now seen h = (λ p. ground arith, λ p. ground arith)
