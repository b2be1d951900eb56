-- ===== src/Products.antt =====
-- src/products/products.service.ts: the products that a client creates and reads.
pub mod Report
pub mod Controller
pub mod Cards
pub mod Card
pub mod Service
