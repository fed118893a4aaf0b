-- ===== src/Bridge.antt =====
-- The bridge between the hooks of the server and the statements: limestone/bridge.c and limestone/gc.c.
pub mod Delete
pub mod Collect
pub mod Reverse
