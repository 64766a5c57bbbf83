-- ===== src/Tunnel.antt =====
-- server/tunnel.py: the state that the server keeps for the agents' tunnels.
pub mod Registry
pub mod Channels
pub mod Heartbeat
pub mod Backpressure
pub mod Auth
