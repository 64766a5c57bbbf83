-- ===== src/Enrollment.antt =====
-- server/enrollment.py: single-use enrollment tokens, the limit on failures, and the service.
pub mod Store
pub mod Limiter
pub mod Requests
pub mod Service
pub mod Handler
