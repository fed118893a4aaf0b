-- ===== src/Text.antt =====
-- The string helpers of limestone/util.c.
pub mod Uri
pub mod Uuid
pub mod Trim
