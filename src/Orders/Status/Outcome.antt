-- ===== src/Orders/Status/Outcome.antt =====
-- What a change of status does, and what it does not.
use marketplace_api.Prelude.{
  Conversions, List, Text, arith, ltb, nat, none, refl, some, true, ℕ, ◌<◌, ◌^◌, ◌∙◌, ◌≡◌, false,
}
use marketplace_api.Store.{OrderStatus, Order, Db}
use marketplace_api.Orders.Status.{update_status, set_status}
use marketplace_api.Sql.{find, update, contains, find-holds, find-update}
use marketplace_api.Orders.Read.{has_order_id, load_order}
use marketplace_api.Orders.Events.{OrderEvents, emit_status_changed}
use marketplace_api.Store.Tx.{ok, err, not_found}
use marketplace_api.Orders.Read.Access.{find_one-number}

module _ (conv : Conversions) where
  found-updated :
      (n : ℕ) (status : OrderStatus) (os : List Order) (o : Order)
      → find (has_order_id n) os ≡ some o
      → find (has_order_id n) (update (has_order_id n) (set_status status) os)
        ≡ some (set_status status o)
  found-updated n status os o f =
      let holds = find-holds (has_order_id n) os o f in
      find-update (has_order_id n) (has_order_id n) (set_status status) (λ r. refl) os
      ∙ rw (f, holds) refl

  found-contains :
      (n : ℕ) (os : List Order) (o : Order)
      → find (has_order_id n) os ≡ some o
      → contains (has_order_id n) os ≡ true
  found-contains n os o f = ground (arith, f)

  missing-contains :
      (n : ℕ) (os : List Order)
      → find (has_order_id n) os ≡ none
      → contains (has_order_id n) os ≡ false
  missing-contains n os f = ground (arith, f)

  -- A change of the status of an order in the table answers with the order in its new status, and
  -- emits one event, which carries the next id, the order and the status. Ids fit in an int4.
  update_status-emits :
      (order_id : Text) (n : ℕ) (status : OrderStatus) (db : Db) (events : OrderEvents) (o : Order)
      → conv.number order_id ≡ nat n
      → n < 2 ^ 31
      → find (has_order_id n) db.orders ≡ some o
      → let out = update_status conv order_id status (db, events) in
        (out.0 ≡ ok (load_order conv out.1.0 (set_status status o)))
        × (out.1.1 ≡ (emit_status_changed n status events).1)
  unfolding update_status
  update_status-emits order_id n status db events o e lt f =
      let there = found-contains n db.orders o f in
      let small : ltb n (2 ^ 31) ≡ true = ground arith in
      let shown =
        find_one-number conv order_id n (set_status status o)
          (record db { orders = update (has_order_id n) (set_status status) db.orders }) e lt
          (found-updated n status db.orders o f) in
      rw (e, small, there) (shown, refl)

  -- A change of the status of an order that is not in the table answers that there is none, and
  -- neither changes the tables nor emits an event. Ids fit in an int4.
  update_status-missing :
      (order_id : Text) (n : ℕ) (status : OrderStatus) (db : Db) (events : OrderEvents)
      → conv.number order_id ≡ nat n
      → n < 2 ^ 31
      → find (has_order_id n) db.orders ≡ none
      → update_status conv order_id status (db, events) ≡ (err not_found, (db, events))
  unfolding update_status
  update_status-missing order_id n status db events e lt f =
      let small : ltb n (2 ^ 31) ≡ true = ground arith in
      rw (e, small, missing-contains n db.orders f) refl
