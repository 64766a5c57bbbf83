-- ===== src/Agent.antt =====
-- agent/tunnel.py: the agent's side of a tunnel.
pub mod Limits
pub mod Loop
pub mod Streamed
