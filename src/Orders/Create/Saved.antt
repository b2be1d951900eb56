-- ===== src/Orders/Create/Saved.antt =====
-- What the transaction of a new order leaves in the tables.
use marketplace_api.Prelude.{
  Conversions, List, Option, [], arith, inl, inr, map, refl, suc, ℕ, ◌++◌, ◌∷◌, ◌≡◌, ◌⊎◌,
}
use marketplace_api.Store.{Db, Order, build_order_placed_event}
use marketplace_api.Store.Tx.{Result, Failure, ok, err}
use marketplace_api.Orders.Create.{
  insert_order_with_event, save_order, PricedItem, total_of, new_item, order_data, price_items,
  order_data, CreateOrderDto,
}
use marketplace_api.Outbox.{outbox_row, enqueue_order_placed}

module _ (conv : Conversions) where
  -- Everything that a committed order has changed, and what it has left alone.
  pub record Saved (now : ℕ) (db d : Db) (order : Order) : Type 0 where
    pub priced : List PricedItem
    pub ids : order.id ≡ db.next_order_id
    pub total : order.total_cents ≡ total_of conv priced
    pub rows : d.orders ≡ db.orders ++ order ∷ []
    pub lines : d.order_items ≡ db.order_items ++ map (new_item conv order.id) priced
    pub next : d.next_order_id ≡ suc db.next_order_id
    pub message :
        d.outbox
        ≡ db.outbox
          ++ outbox_row conv db.next_uuid now
              (build_order_placed_event conv (order_data conv order priced) now)
            ∷ []
    pub uuids : d.next_uuid ≡ suc db.next_uuid
    pub products : d.products ≡ db.products
    pub effects : d.processed_order_events ≡ db.processed_order_events
    pub marks : d.processed_messages ≡ db.processed_messages

  pub result-cases :
      {A : Type 0} (r : Result A) → ((f : Failure) × (r ≡ err f)) ⊎ ((a : A) × (r ≡ ok a))
  result-cases (err f) = inl (f, refl)
  result-cases (ok a) = inr (a, refl)

  -- With the lines that the request and the products give.
  pub insert-Saved_priced :
      (now : ℕ) (dto : CreateOrderDto) (user_id : Option ℕ) (db d : Db) (order : Order)
      → insert_order_with_event conv now dto user_id db ≡ ok (order, d)
      → (s : Saved now db d order) × (price_items conv dto.items db.products ≡ ok s.priced)
  unfolding insert_order_with_event save_order enqueue_order_placed
  insert-Saved_priced now dto user_id db d order h =
      elim (result-cases (price_items conv dto.items db.products)) [
        | inl (f, e) ↦ absurd (ground (arith, e, h))
        | inr (ps, e) ↦ (
          record {
            priced = ps;
            ids = ground (arith, e, h);
            total = ground (arith, e, h);
            rows = ground (arith, e, h);
            lines = ground (arith, e, h);
            next = ground (arith, e, h);
            message = ground (arith, e, h);
            uuids = ground (arith, e, h);
            products = ground (arith, e, h);
            effects = ground (arith, e, h);
            marks = ground (arith, e, h);
          },
          e,
        )
      ]

  pub insert-Saved :
      (now : ℕ) (dto : CreateOrderDto) (user_id : Option ℕ) (db d : Db) (order : Order)
      → insert_order_with_event conv now dto user_id db ≡ ok (order, d)
      → Saved now db d order
  insert-Saved now dto user_id db d order h = (insert-Saved_priced now dto user_id db d order h).0
