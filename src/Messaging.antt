-- ===== src/Messaging.antt =====
-- The consumer of order.placed messages (src/messaging).
pub mod Receipts
pub mod Publisher
pub mod Inbox
mod Tests
pub mod Once
pub mod Consumer
