-- ===== src/Jump.antt =====
-- server/jump.py: a jump from the restricted shell to a node, over the agent's tunnel.
pub mod World
pub mod Store
pub mod Opener
pub mod Checks
pub mod Coordinator
pub mod Untouched
pub mod Gates
pub mod Prepared
pub mod Opened
pub mod Bridge
pub mod Recorded
pub mod Once
pub mod Settled
pub mod Released
pub mod Adapter
pub mod Delivery
