-- ===== src/Replay.antt =====
-- vibeconnect_common/replay.py: recordings of terminal sessions. Each is written to a temporary
-- file, which takes its final name when the recording is closed.
pub mod Storage
pub mod Recorder
pub mod Writer
pub mod Pruning
pub mod Expiry
pub mod Expired
pub mod Log
pub mod Refinement
pub mod Starting
pub mod Runs
pub mod Published
