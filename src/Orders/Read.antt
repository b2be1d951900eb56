-- ===== src/Orders/Read.antt =====
-- The queries of src/orders/orders.service.ts: `findOne`, `findOneFor`, `assertCanView`, `canView`,
-- `roleOf` and `findAll`.
pub mod Access
use marketplace_api.Store.{Db, Order, OrderItem, OrderStatus, User, UserRole}
use marketplace_api.Store.Tx.{Result, ok, err, not_found, database_error}
use marketplace_api.Prelude.{
  Bool, Conversions, List, Number, Option, Text, false, fraction, if◌then◌else◌, is_integer, ltb,
  map, nan, nat, negative, none, not, some, true, ℕ, ◌==◌, ◌^◌,
}
use marketplace_api.Sql.{select, find}

-- `OrderItemDto` and `Order` as they are sent (src/orders/order.ts).
pub record ItemResponse : Type 0 where
  pub product_id : Text
  pub quantity : ℕ

pub record OrderResponse : Type 0 where
  pub id : Text
  pub items : List ItemResponse
  pub total_cents : ℕ
  pub currency : Text
  pub status : OrderStatus

abbrev pub of_order : ℕ → OrderItem → Bool
of_order i r = r.order_id == i

abbrev pub has_order_id : ℕ → Order → Bool
has_order_id i o = o.id == i

module _ (conv : Conversions) where
  abbrev pub item_response : OrderItem → ItemResponse
  item_response i = record { product_id = conv.string i.product_id; quantity = i.quantity }

  -- `toResponse`, over the lines that the relation `items` loads
  abbrev pub to_response : List OrderItem → Order → OrderResponse
  to_response items o = record {
    id = conv.string o.id;
    items = map item_response items;
    total_cents = o.total_cents;
    currency = o.currency;
    status = o.status;
  }

  abbrev pub load_order : Db → Order → OrderResponse
  load_order db o = to_response (select (of_order o.id) db.order_items) o

  abbrev pub order_or_404 : Db → Option Order → Result OrderResponse
  order_or_404 db none = err not_found
  order_or_404 db (some o) = ok (load_order db o)

  -- The row of an order by a number; ids are positive int4 values, and a fraction is none.
  unfoldable pub find_order : Number → Db → Result (Option Order)
  find_order nan db = ok none
  find_order fraction db = err database_error
  find_order (negative n) db = if ltb n (2 ^ 31) then ok none else err database_error
  find_order (nat n) db =
      if ltb n (2 ^ 31) then ok (find (has_order_id n) db.orders) else err database_error

  -- `findOne`
  unfoldable pub find_one : Text → Db → Result OrderResponse
  unfolding find_order
  find_one order_id db = elim (find_order (conv.number order_id) db) [
    | err e ↦ err e
    | ok o ↦ order_or_404 db o
  ]

  abbrev pub has_user_id : ℕ → User → Bool
  has_user_id i u = u.id == i

  -- `roleOf`
  abbrev pub role_of : ℕ → Db → Option UserRole
  role_of i db = elim (find (has_user_id i) db.users) [ none ↦ none | some u ↦ some u.role ]

  abbrev pub is_admin : Option UserRole → Bool
  is_admin (some UserRole.admin) = true
  is_admin _ = false

  -- rows[0].userId === actorId
  abbrev pub owned_by : ℕ → Order → Bool
  owned_by actor o = elim o.user_id [ none ↦ false | some u ↦ u == actor ]

  -- `assertCanView`: a missing order and a foreign one give the same failure.
  unfoldable pub assert_can_view : Text → ℕ → Db → Result (Unit {0})
  unfolding find_order
  assert_can_view order_id actor db =
      if not (is_integer (conv.number order_id))
      then err not_found
      else elim (find_order (conv.number order_id) db) [
        | err e ↦ err e
        | ok none ↦ err not_found
        | ok (some o) ↦
            if owned_by actor o
            then ok tt
            else if is_admin (role_of actor db)
            then ok tt
            else err not_found
      ]

  -- try and catch of `canView`
  abbrev pub as_view : Result (Unit {0}) → Result Bool
  as_view (ok done) = ok true
  as_view (err not_found) = ok false
  as_view (err e) = err e

  -- `canView`
  unfoldable pub can_view : ℕ → ℕ → Db → Result Bool
  unfolding assert_can_view
  can_view order_id actor db = as_view (assert_can_view (conv.string order_id) actor db)

  -- `findOneFor`
  unfoldable pub find_one_for : Text → ℕ → Db → Result OrderResponse
  unfolding assert_can_view find_one
  find_one_for order_id actor db = elim (assert_can_view order_id actor db) [
    | err e ↦ err e
    | ok done ↦ find_one order_id db
  ]
