-- ===== src/Config.antt =====
-- vibeconnect_common/config.py: the validation of a server's and an agent's configuration. The
-- loading from a file is left out.
pub mod Models
pub mod Files
pub mod Listen
pub mod Keys
pub mod Validate
pub mod Sound
pub mod Unshared
pub mod Runnable
