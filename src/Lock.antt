-- ===== src/Lock.antt =====
-- Locks: the statements of limestone/dbms_locks.c and the hooks of limestone/lock.c and
-- limestone/lock_bridge.c.
pub mod Read
pub mod Expire
pub mod Write
pub mod Indirect
