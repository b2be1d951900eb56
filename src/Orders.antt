-- ===== src/Orders.antt =====
-- src/orders: the orders of the marketplace, their access rules, their status and its events.
pub mod Controller
pub mod Stream
pub mod Page
pub mod Cards
mod Tests
pub mod Gateway
pub mod Status
pub mod Events
pub mod Read
pub mod Create
