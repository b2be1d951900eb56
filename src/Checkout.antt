-- ===== src/Checkout.antt =====
-- src/checkout.ts: one purchase as one transaction.
pub mod Race
pub mod Books
pub mod Outcome
pub mod Conserve
mod Tests
use marketplace_api.Outbox.{enqueue_order_placed}
use marketplace_api.Prelude.{
  ℕ, suc, ◌-◌, ◌*◌, Bool, ◌&&◌, [], ◌∷◌, ◌++◌, none, some, Conversions, Text, text, leb, ◌==◌,
  Number, positive?,
}
use marketplace_api.Sql.{find, update}
use marketplace_api.Store.{
  Db, Product, User, Order, OrderItem, PostProcessingJob, OrderPlacedData, paid,
}
use marketplace_api.Store.Tx.{
  Tx, Result, ok, err, ◌>>=◌, ◌>>◌, pure, int4, transaction, invalid_quantity, insufficient_stock,
  insufficient_funds,
}

abbrev pub checkout_currency : Text
checkout_currency = text "UAH"

-- WHERE "id" = :productId AND "stock" >= :qty
abbrev pub in_stock : ℕ → ℕ → Product → Bool
in_stock product_id qty r = r.id == product_id && leb qty r.stock

-- WHERE "id" = :userId AND "balanceCents" >= :amount
abbrev pub can_pay : ℕ → ℕ → User → Bool
can_pay user_id amount r = r.id == user_id && leb amount r.balance_cents

abbrev pub take_units : ℕ → Product → Product
take_units qty r = record r { stock = r.stock - qty }

abbrev pub charge_cents : ℕ → User → User
charge_cents amount r = record r { balance_cents = r.balance_cents - amount }

-- Step 1: the guarded decrement of the stock; it returns the price.
unfoldable pub take_stock : ℕ → ℕ → Tx ℕ
take_stock product_id qty db = elim (find (in_stock product_id qty) db.products) [
  | none ↦ err insufficient_stock
  | some r ↦ ok (
    r.price_cents,
    record db { products = update (in_stock product_id qty) (take_units qty) db.products },
  )
]

-- Step 2: the guarded decrement of the balance; it returns the e-mail.
unfoldable pub charge : ℕ → ℕ → Tx Text
charge user_id amount db = elim (find (can_pay user_id amount) db.users) [
  | none ↦ err insufficient_funds
  | some r ↦ ok (
    r.email,
    record db { users = update (can_pay user_id amount) (charge_cents amount) db.users },
  )
]

-- manager.create(Order, ...)
abbrev pub purchase_order : ℕ → ℕ → Text → ℕ → Order
purchase_order order_id user_id email total = record {
  id = order_id;
  user_id = some user_id;
  customer_email = email;
  status = paid;
  total_cents = total;
  currency = checkout_currency;
}

-- manager.create(OrderItem, ...)
abbrev pub purchase_item : ℕ → ℕ → ℕ → ℕ → OrderItem
purchase_item order_id product_id qty price = record {
  order_id = order_id;
  product_id = product_id;
  quantity = qty;
  price_at_purchase_cents = price;
}

-- manager.create(PostProcessingJob, ...), with the defaults of its columns
abbrev pub new_job : ℕ → PostProcessingJob
new_job order_id = record { order_id = order_id; status = text "new"; worker = none; processed = 0 }

-- What step 5 announces.
abbrev pub purchase_data : ℕ → Text → ℕ → ℕ → ℕ → OrderPlacedData
purchase_data order_id email total product_id qty = record {
  order_id = order_id;
  customer_email = email;
  total_cents = total;
  currency = checkout_currency;
  items = (record { product_id = product_id; quantity = qty }) ∷ [];
}

-- Steps 3 and 4: the order, its line and its job.
unfoldable pub save_purchase : ℕ → Text → ℕ → ℕ → ℕ → ℕ → Tx ℕ
save_purchase user_id email total product_id qty price db =
    let order_id = db.next_order_id in
    ok (
      order_id,
      record db {
        orders = db.orders ++ purchase_order order_id user_id email total ∷ [];
        order_items = db.order_items ++ purchase_item order_id product_id qty price ∷ [];
        jobs = db.jobs ++ new_job order_id ∷ [];
        next_order_id = suc order_id;
      },
    )

module _ (conv : Conversions) (now : ℕ) where
  -- The body of the transaction; step 5 puts the event into the outbox.
  unfoldable pub place : ℕ → ℕ → ℕ → Tx ℕ
  unfolding take_stock charge save_purchase enqueue_order_placed
  place user_id product_id qty = do
    int4 qty
    price ← take_stock product_id qty
    let total = price * qty
    int4 total
    email ← charge user_id total
    order_id ← save_purchase user_id email total product_id qty price
    enqueue_order_placed conv now (purchase_data order_id email total product_id qty)
    pure order_id

  -- `checkout`: a quantity that is no positive integer is refused before the transaction.
  unfoldable pub checkout : ℕ → ℕ → Number → Db → Result ℕ × Db
  unfolding place transaction
  checkout user_id product_id quantity db = elim (positive? quantity) [
    | none ↦ (err invalid_quantity, db)
    | some qty ↦ transaction (place user_id product_id qty) db
  ]
