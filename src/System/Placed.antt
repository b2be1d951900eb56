-- ===== src/System/Placed.antt =====
-- A new order with its message, whether a purchase or a request for an order made it.
use marketplace_api.Prelude.{
  Conversions, Option-cases, [], arith, inl, inr, refl, suc, ℕ, ◌*◌, ◌++◌, ◌∷◌, ◌≡◌, Number, Option,
  none, positive?, some,
}
use marketplace_api.Store.{Db, Order, OrderPlacedData, build_order_placed_event}
use marketplace_api.Checkout.{
  can_pay, in_stock, purchase_order, purchase_data, place, take_stock, charge, save_purchase,
  in_stock, checkout,
}
use marketplace_api.Orders.Create.Saved.{Saved}
use marketplace_api.Outbox.{outbox_row, enqueue_order_placed}
use marketplace_api.Orders.Create.{order_data}
use marketplace_api.Store.Tx.{ok, Result, commit, transaction, err, invalid_quantity}
use marketplace_api.Sql.{find}
use marketplace_api.Orders.Create.Changed.{Changed, unchanged}

module _ (conv : Conversions) where
  -- What a committed order leaves in the tables, as far as its way goes.
  pub record Placed (now : ℕ) (db d : Db) (order : Order) : Type 0 where
    pub ids : order.id ≡ db.next_order_id
    pub rows : d.orders ≡ db.orders ++ order ∷ []
    pub next : d.next_order_id ≡ suc db.next_order_id
    pub news : OrderPlacedData
    pub about : news.order_id ≡ order.id
    pub message :
        d.outbox
        ≡ db.outbox
          ++ outbox_row conv db.next_uuid now (build_order_placed_event conv news now) ∷ []
    pub uuids : d.next_uuid ≡ suc db.next_uuid
    pub effects : d.processed_order_events ≡ db.processed_order_events
    pub marks : d.processed_messages ≡ db.processed_messages

  pub Saved-Placed :
      (now : ℕ) (db d : Db) (order : Order) → Saved conv now db d order → Placed now db d order
  Saved-Placed now db d order s = record {
    ids = s.ids;
    rows = s.rows;
    next = s.next;
    news = order_data conv order s.priced;
    about = refl;
    message = s.message;
    uuids = s.uuids;
    effects = s.effects;
    marks = s.marks;
  }

  place-Placed :
      (now user product qty n : ℕ) (db d : Db)
      → place conv now user product qty db ≡ ok (n, d)
      → (order : Order) × Placed now db d order
  unfolding place take_stock charge save_purchase enqueue_order_placed
  place-Placed now user product qty n db d h =
      elim (Option-cases (find (in_stock product qty) db.products)) [
        | inl e ↦ absurd (ground (arith, e, h))
        | inr (p, e) ↦ elim (Option-cases (find (can_pay user (p.price_cents * qty)) db.users)) [
          | inl f ↦ absurd (ground (arith, e, f, h))
          | inr (u, f) ↦
              let total = p.price_cents * qty in
              (
                purchase_order db.next_order_id user u.email total,
                record {
                  ids = refl;
                  rows = ground (arith, e, f, h);
                  next = ground (arith, e, f, h);
                  news = purchase_data db.next_order_id u.email total product qty;
                  about = refl;
                  message = ground (arith, e, f, h);
                  uuids = ground (arith, e, f, h);
                  effects = ground (arith, e, f, h);
                  marks = ground (arith, e, f, h);
                },
              )
        ]
      ]

  -- The tables before and after: no change that lasts, or a new order.
  pub data Ordered (now : ℕ) (db d : Db) : Type 0 where
    no_order : d ≡ db → Ordered now db d
    new_order : (order : Order) → Placed now db d order → Ordered now db d

  pub Changed-Ordered : (now : ℕ) (db d : Db) → Changed conv now db d → Ordered now db d
  Changed-Ordered now db d (unchanged e) = no_order e
  Changed-Ordered now db d (Changed.ordered order s) =
      new_order order (Saved-Placed now db d order s)

  committed-Ordered :
      (now user product qty : ℕ) (db : Db) (r : Result (ℕ × Db))
      → place conv now user product qty db ≡ r
      → Ordered now db (commit db r).1
  committed-Ordered now user product qty db (err f) e = no_order refl
  committed-Ordered now user product qty db (ok (n, d)) e =
      let (order, p) = place-Placed now user product qty n db d e in new_order order p

  pub checkout-Ordered :
      (now user product : ℕ) (quantity : Number) (db : Db)
      → Ordered now db (checkout conv now user product quantity db).1
  unfolding checkout transaction
  checkout-Ordered now user product quantity db = bought (positive? quantity)
    where
      bought :
          (q : Option ℕ)
          → Ordered now db
              (elim q as (λ x. Result ℕ × Db) [
                | none ↦ (err invalid_quantity, db)
                | some qty ↦ transaction (place conv now user product qty) db
              ]).1
      bought none = no_order refl
      bought (some qty) = committed-Ordered now user product qty db _ refl
