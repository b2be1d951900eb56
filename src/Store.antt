-- ===== src/Store.antt =====
-- The PostgreSQL tables of the service, the events kept in them, and transactions over them.
mod Entities
mod Events
mod Tables
mod Empty
pub mod Tx
pub use Entities.*
unfoldable pub use Events.*
pub use Tables.*
pub use Empty.*
