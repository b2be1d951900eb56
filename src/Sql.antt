-- ===== src/Sql.antt =====
-- The statements that the code runs over a table, as functions on the list of its rows.
mod Statements
pub mod Guarded
mod Laws
pub use Statements.*
pub use Laws.*
