-- ===== src/Tests.antt =====
-- Runs at concrete inputs: the theorems applied, and the definitions evaluated.
mod Codec
mod Frames
mod Tunnels
mod Enrollments
mod Access
mod Agents
mod Replays
mod Jumps
mod Configs
