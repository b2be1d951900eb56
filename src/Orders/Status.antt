-- ===== src/Orders/Status.antt =====
-- `updateStatus` of src/orders/orders.service.ts: the UPDATE of the row, and the event only after
-- it has found a row.
pub mod Outcome
use marketplace_api.Orders.Read.{has_order_id, find_one}
use marketplace_api.Sql.{contains}
use marketplace_api.Prelude.{
  Bool, Conversions, Number, Text, false, fraction, if◌then◌else◌, ltb, nan, nat, negative, true, ℕ,
  ◌^◌,
}
use marketplace_api.Store.{OrderStatus, Order, Db}
use marketplace_api.Orders.Events.{OrderEvents, emit_status_changed}
use marketplace_api.Store.Tx.{Result, err, not_found, database_error}
use marketplace_api.Orders.Read.{OrderResponse}
use marketplace_api.Sql.{update}

abbrev pub set_status : OrderStatus → Order → Order
set_status status o = record o { status = status }

module _ (conv : Conversions) where
  abbrev pub updated :
      Text → ℕ → OrderStatus → Bool → Db × OrderEvents → Result OrderResponse × (Db × OrderEvents)
  updated order_id i status false (db, events) = (err not_found, (db, events))
  updated order_id i status true (db, events) =
      let db' = record db { orders = update (has_order_id i) (set_status status) db.orders } in
      (find_one conv order_id db', (db', (emit_status_changed i status events).1))

  abbrev pub update_numbered :
      Text → Number → OrderStatus → Db × OrderEvents → Result OrderResponse × (Db × OrderEvents)
  update_numbered order_id nan status s = (err not_found, s)
  update_numbered order_id fraction status s = (err database_error, s)
  update_numbered order_id (negative n) status s =
      if ltb n (2 ^ 31) then (err not_found, s) else (err database_error, s)
  update_numbered order_id (nat n) status s =
      if ltb n (2 ^ 31)
      then updated order_id n status (contains (has_order_id n) s.0.orders) s
      else (err database_error, s)

  -- `updateStatus`
  unfoldable pub update_status :
      Text → OrderStatus → Db × OrderEvents → Result OrderResponse × (Db × OrderEvents)
  update_status order_id status s = update_numbered order_id (conv.number order_id) status s
