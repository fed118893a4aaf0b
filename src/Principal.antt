-- ===== src/Principal.antt =====
-- Users and groups: limestone/principal.c and limestone/dbms_principal.c.
pub mod Group
pub mod Domain
pub mod User
