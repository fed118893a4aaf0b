-- ===== src/Tests.antt =====
-- Concrete tables and strings, and the theorems of the other modules on them.
mod Data
mod Paths
mod Locks
mod Texts
mod Ends
mod Garbage
mod Groups
mod Access
mod Versions
mod Statements
