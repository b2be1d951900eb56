-- ===== src/Store/Tables.antt =====
-- The tables together. A sequence gives the ids of new orders; `next_uuid` stands for
-- `gen_random_uuid()`, of which the code relies on freshness alone.
use marketplace_api.Prelude.{ℕ, List}
use marketplace_api.Store.Entities.{
  Product, User, Order, OrderItem, PostProcessingJob, IdempotencyKey, ProcessedMessage,
  ProcessedOrderEvent, RefreshToken,
}
use marketplace_api.Store.Events.{OutboxRow}

pub record Db : Type 0 where
  pub products : List Product
  pub users : List User
  pub orders : List Order
  pub order_items : List OrderItem
  pub jobs : List PostProcessingJob
  pub outbox : List OutboxRow
  pub idempotency_keys : List IdempotencyKey
  pub processed_messages : List ProcessedMessage
  pub processed_order_events : List ProcessedOrderEvent
  pub refresh_tokens : List RefreshToken
  pub next_order_id : ℕ
  pub next_uuid : ℕ
