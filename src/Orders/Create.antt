-- ===== src/Orders/Create.antt =====
-- `insertOrderWithEvent`, `create` and `createIdempotent` of src/orders/orders.service.ts, with the
-- request bodies of src/orders/dto.
pub mod Priced
pub mod Changed
pub mod Total
pub mod Saved
pub mod Idempotent
use marketplace_api.Outbox.{enqueue_order_placed}
use marketplace_api.Store.{Db, Product, Order, OrderItem, created, Line, OrderPlacedData}
use marketplace_api.Store.Tx.{
  Tx, Result, ok, err, bad_request, database_error, ◌>>=◌, ◌>>◌, transaction,
}
use marketplace_api.Prelude.{
  Bool, Conversions, List, Number, Option, Text, [], fraction, if◌then◌else◌, ltb, map, nan, nat,
  negative, none, some, suc, text, true, ℕ, ◌&&◌, ◌*◌, ◌++◌, ◌+◌, ◌==◌, ◌^◌, ◌∷◌,
}
use marketplace_api.Sql.{find}

-- `OrderItemDto`; its validation asks for an integer quantity of at least 1.
pub record OrderItemDto : Type 0 where
  pub product_id : Text
  pub quantity : ℕ

-- `CreateOrderDto`
pub record CreateOrderDto : Type 0 where
  pub customer_email : Text
  pub items : List OrderItemDto

-- A line with the product row that it found.
pub record PricedItem : Type 0 where
  pub product : Product
  pub quantity : ℕ

abbrev pub has_product_id : ℕ → Product → Bool
has_product_id i r = r.id == i

-- Number(item.productId), and the row of that id. A number that is no int4 of a row finds none:
-- NaN by the code's test, a negative one because ids are positive. A fraction makes the query fail.
unfoldable pub find_product : Number → List Product → Result (Option Product)
find_product nan rows = ok none
find_product fraction rows = err database_error
find_product (negative n) rows = if ltb n (2 ^ 31) then ok none else err database_error
find_product (nat n) rows =
    if ltb n (2 ^ 31) then ok (find (has_product_id n) rows) else err database_error

module _ (conv : Conversions) where
  -- The loop over `dto.items`: it stops at the first line whose product is missing.
  unfoldable pub price_items : List OrderItemDto → List Product → Result (List PricedItem)
  unfolding find_product
  price_items [] rows = ok []
  price_items (i ∷ is) rows =
      let rest = price_items is rows in
      elim (find_product (conv.number i.product_id) rows) [
        | err e ↦ err e
        | ok none ↦ err bad_request
        | ok (some p) ↦ elim rest [
          | err e ↦ err e
          | ok ps ↦ ok ((record { product = p; quantity = i.quantity }) ∷ ps)
        ]
      ]

  -- totalCents, after the loop
  abbrev pub total_of : List PricedItem → ℕ
  total_of [] = 0
  total_of (i ∷ is) = i.product.price_cents * i.quantity + total_of is

  -- currency, after the loop: that of the last line
  abbrev pub currency_of : Text → List PricedItem → Text
  currency_of c [] = c
  currency_of c (i ∷ is) = currency_of i.product.currency is

  abbrev pub new_order : ℕ → CreateOrderDto → Option ℕ → List PricedItem → Order
  new_order order_id dto user_id items = record {
    id = order_id;
    user_id = user_id;
    customer_email = dto.customer_email;
    status = created;
    total_cents = total_of items;
    currency = currency_of (text "UAH") items;
  }

  abbrev pub new_item : ℕ → PricedItem → OrderItem
  new_item order_id i = record {
    order_id = order_id;
    product_id = i.product.id;
    quantity = i.quantity;
    price_at_purchase_cents = i.product.price_cents;
  }

  abbrev pub line_of : PricedItem → Line
  line_of i = record { product_id = i.product.id; quantity = i.quantity }

  abbrev pub order_data : Order → List PricedItem → OrderPlacedData
  order_data o items = record {
    order_id = o.id;
    customer_email = o.customer_email;
    total_cents = o.total_cents;
    currency = o.currency;
    items = map line_of items;
  }

  -- Every quantity fits in its column.
  abbrev pub quantities_fit : List PricedItem → Bool
  quantities_fit [] = true
  quantities_fit (i ∷ is) = ltb i.quantity (2 ^ 31) && quantities_fit is

  -- manager.save(OrderEntity, order), with its cascade to the lines
  unfoldable pub save_order : CreateOrderDto → Option ℕ → List PricedItem → Tx Order
  save_order dto user_id items db =
      let order = new_order db.next_order_id dto user_id items in
      if ltb order.total_cents (2 ^ 31) && quantities_fit items
      then ok (
        order,
        record db {
          orders = db.orders ++ order ∷ [];
          order_items = db.order_items ++ map (new_item order.id) items;
          next_order_id = suc db.next_order_id;
        },
      )
      else err database_error

  -- `insertOrderWithEvent`
  unfoldable pub insert_order_with_event : ℕ → CreateOrderDto → Option ℕ → Tx Order
  unfolding price_items save_order enqueue_order_placed
  insert_order_with_event now dto user_id db = elim (price_items dto.items db.products) [
    | err e ↦ err e
    | ok items ↦
        (do
          order ← save_order dto user_id items
          enqueue_order_placed conv now (order_data order items)
          (λ d. ok (order, d)))
          db
  ]

  -- `create`, up to the invalidation of cards
  unfoldable pub create : ℕ → CreateOrderDto → Option ℕ → Db → Result Order × Db
  unfolding insert_order_with_event transaction
  create now dto user_id db = transaction (insert_order_with_event now dto user_id) db
