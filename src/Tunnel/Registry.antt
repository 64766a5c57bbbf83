-- ===== src/Tunnel/Registry.antt =====
-- server/tunnel.py: `ActiveTunnelRegistry`, at most one tunnel for each agent.
pub mod Ownership
use vibe_connect.Base.{
  ℕ, String, Option, none, some, ◌!=◌, ◌==◌, nat_eq, string_eq, Bool, false, tunnel_state_error,
  if◌then◌else◌, List, [], ◌∷◌,
}
use vibe_connect.Base.Action.{Action, pure, raise, gets, modify, raise_if, ◌>>=◌, ◌>>◌}
use vibe_connect.Base.Dict.{Dict, get, put, pop}

-- `_active`: the connection that owns each agent's slot
abbrev pub Registry : Type 0
Registry = Dict ℕ String

abbrev pub differs : Option String → String → Bool
differs none connection_id = false
differs (some current) connection_id = current != connection_id

abbrev pub owns : Option String → String → Bool
owns none connection_id = false
owns (some current) connection_id = current == connection_id

unfoldable pub connect : ℕ → String → Action Registry (Unit {0})
unfolding ◌>>=◌
connect agent_id connection_id = do
  current ← gets (get agent_id)
  raise_if (differs current connection_id) (tunnel_state_error "duplicate active tunnel")
  modify (put agent_id connection_id)

unfoldable pub disconnect : ℕ → String → Registry → Registry
disconnect agent_id connection_id active =
    if owns (get agent_id active) connection_id then pop agent_id active else active

unfoldable pub revoke : ℕ → Action Registry (Option String)
unfolding ◌>>=◌
revoke agent_id active = pure (get agent_id active) (pop agent_id active)
