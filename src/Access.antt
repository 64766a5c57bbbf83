-- ===== src/Access.antt =====
-- server/auth.py: LDAP escaping, the identity behind a public key, the nodes that it may see, and
-- the restricted shell.
pub mod Ldap
pub mod Identity
pub mod Visible
pub mod Shell
