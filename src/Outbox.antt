-- ===== src/Outbox.antt =====
-- The transactional outbox: src/outbox/outbox.ts here, src/outbox/relay.ts in the child `Relay`.
pub mod Announced
pub mod Relay
use marketplace_api.Prelude.{ℕ, suc, [], ◌∷◌, ◌++◌, none, Conversions}
use marketplace_api.Store.{
  OrderPlacedData, OrderPlacedEvent, OutboxRow, build_order_placed_event, aggregate_order,
}
use marketplace_api.Store.Tx.{Tx, ok}

module _ (conv : Conversions) where
  -- The row that the INSERT adds, with the defaults of its columns.
  abbrev pub outbox_row : ℕ → ℕ → OrderPlacedEvent → OutboxRow
  outbox_row id now event = record {
    id = id;
    aggregate_type = aggregate_order;
    aggregate_id = conv.string event.body.order_id;
    type = event.type;
    payload = event;
    created_at = now;
    published_at = none;
    attempts = 0;
  }

  -- `enqueueOrderPlaced`: one INSERT into `outbox`, in the caller's transaction.
  unfoldable pub enqueue_order_placed : ℕ → OrderPlacedData → Tx OrderPlacedEvent
  unfolding build_order_placed_event
  enqueue_order_placed now input db =
      let event = build_order_placed_event conv input now in
      ok (
        event,
        record db {
          outbox = db.outbox ++ outbox_row db.next_uuid now event ∷ [];
          next_uuid = suc db.next_uuid;
        },
      )
