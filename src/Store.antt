-- ===== src/Store.antt =====
-- The tables that the statements of limestone/dbms*.c read and write (create_postgres_full.sql with
-- the change sets of limestone/database), and `dbms_execute` with its failures.
mod Tables
mod Monad
mod Cascade
pub mod Laws
pub mod Ends
pub mod Rows
pub use Tables.*
unfoldable pub use Monad.*
unfoldable pub use Cascade.*
