-- ===== src/Audit.antt =====
-- vibeconnect_common/audit.py, and scrub_secret_metadata of crypto.py.
pub mod Scrub
pub mod Writer
