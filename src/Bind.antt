-- ===== src/Bind.antt =====
-- The table of binds, limestone/dbms_bind.c: which resource a collection holds under which name.
pub mod Rows
pub mod Path
pub mod Lookup
pub mod PathBinds
pub mod Cleanup
