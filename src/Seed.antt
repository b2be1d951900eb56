-- ===== src/Seed.antt =====
-- The orders that src/seed.ts inserts, once the users and the products are in their tables.
pub mod Complete
mod Tests
pub mod Accounted
use marketplace_api.Prelude.{
  List, Option, [], none, some, suc, text, ℕ, ◌%◌, ◌+◌, ◌++◌, ◌∷◌, Conversions, get_elem?,
  if◌then◌else◌, length, ltb, map, zero, ◌^◌,
}
use marketplace_api.Store.{
  OrderStatus, Product, User, pending, Order, Db, paid, shipped, delivered, cancelled,
}
use marketplace_api.Orders.Create.{PricedItem, total_of, new_item}
use marketplace_api.Store.Tx.{Result, err, ok, internal_error, database_error}

-- xs[i % xs.length]; of an empty list it is undefined, and using that throws.
abbrev pub at_cycle {ℓ} : {A : Type ℓ} → List A → ℕ → Option A
at_cycle xs i = get_elem? xs (i % length xs)

abbrev pub seed_statuses : List OrderStatus
seed_statuses = pending ∷ paid ∷ shipped ∷ delivered ∷ cancelled ∷ []

-- The number of the orders
abbrev pub seed_count : ℕ
seed_count = 10

abbrev pub items_count : ℕ → ℕ
items_count i = suc (i % 3)

abbrev pub with_spec : Option Product → ℕ → Option (List PricedItem) → Option (List PricedItem)
with_spec none quantity rest = none
with_spec (some p) quantity none = none
with_spec (some p) quantity (some ps) = some ((record { product = p; quantity = quantity }) ∷ ps)

-- `itemsSpecs` of the order i, from its line j
abbrev pub items_specs : List Product → ℕ → ℕ → ℕ → Option (List PricedItem)
items_specs products i j zero = some []
items_specs products i j (suc n) =
    let rest = items_specs products i (suc j) n in
    with_spec (at_cycle products (i + j)) (suc ((i + j) % 3)) rest

abbrev pub seeded_order : ℕ → User → OrderStatus → ℕ → Order
seeded_order order_id user status total_cents = record {
  id = order_id;
  user_id = some user.id;
  customer_email = user.email;
  status = status;
  total_cents = total_cents;
  currency = text "UAH";
}

-- An await that throws ends the function.
abbrev pub and_then :
    Result (Unit {0}) × Db → (Db → Result (Unit {0}) × Db) → Result (Unit {0}) × Db
and_then (err e, db) rest = (err e, db)
and_then (ok done, db) rest = rest db

module _ (conv : Conversions) where
  -- orderRepo.save, and then orderItemRepo.save
  abbrev pub save_seeded : User → OrderStatus → List PricedItem → Db → Result (Unit {0}) × Db
  save_seeded user status items db =
      if ltb (total_of conv items) (2 ^ 31)
      then (
        ok tt,
        record db {
          orders =
              db.orders ++ seeded_order db.next_order_id user status (total_of conv items) ∷ [];
          order_items = db.order_items ++ map (new_item conv db.next_order_id) items;
          next_order_id = suc db.next_order_id;
        },
      )
      else (err database_error, db)

  abbrev pub save_picked :
      Option User → Option OrderStatus → Option (List PricedItem) → Db → Result (Unit {0}) × Db
  save_picked (some user) (some status) (some items) db = save_seeded user status items db
  save_picked (some user) (some status) none db = (err internal_error, db)
  save_picked (some user) none items db = (err internal_error, db)
  save_picked none status items db = (err internal_error, db)

  -- The body of the loop
  abbrev pub seed_order : List User → List Product → ℕ → Db → Result (Unit {0}) × Db
  seed_order users products i db =
      save_picked (at_cycle users i) (at_cycle seed_statuses i)
        (items_specs products i 0 (items_count i)) db

  -- The passes that are left, from the order i
  abbrev pub seed_loop : List User → List Product → ℕ → ℕ → Db → Result (Unit {0}) × Db
  seed_loop users products zero i db = (ok tt, db)
  seed_loop users products (suc n) i db =
      and_then (seed_order users products i db) (seed_loop users products n (suc i))

  abbrev pub seed_into : List User → List Product → List Order → Db → Result (Unit {0}) × Db
  seed_into users products [] db = seed_loop users products seed_count 0 db
  seed_into users products (o ∷ os) db = (ok tt, db)

  -- From `existingOrdersCount`, with the users and the products as they were read before
  unfoldable pub seed_orders : List User → List Product → Db → Result (Unit {0}) × Db
  seed_orders users products db = seed_into users products db.orders db
