-- ===== src/Orders/Cards.antt =====
-- `create` and `createIdempotent` of src/orders/orders.service.ts with `invalidateCards`: a new order
-- drops the cards of its products from the cache.
mod Tests
pub mod Fresh
use marketplace_api.Prelude.{
  Bool, Conversions, List, Option, Text, [], if◌then◌else◌, map, ℕ, ◌==◌, ◌∷◌,
}
use marketplace_api.Sql.{contains, select}
use marketplace_api.Store.{Db, OrderItem, Order}
use marketplace_api.Products.Cards.{invalidate, CardWorld}
use marketplace_api.Orders.Create.{CreateOrderDto, create}
use marketplace_api.Store.Tx.{Result, err, ok, transaction}
use marketplace_api.Orders.Read.{OrderResponse, of_order, load_order}
use marketplace_api.Orders.Create.Idempotent.{
  Claim, saved, claim_or_replay, replay, scoped_key, answer,
}

-- new Set(order.items.map((item) => item.product.id))
abbrev pub distinct : List ℕ → List ℕ
distinct [] = []
distinct (i ∷ is) = if contains (λ j. j == i) is then distinct is else i ∷ distinct is

abbrev pub product_ids : ℕ → Db → List ℕ
product_ids order_id db =
    map (λ (r : OrderItem). r.product_id) (select (of_order order_id) db.order_items)

module _ (conv : Conversions) where
  abbrev pub invalidate_all : List ℕ → CardWorld → CardWorld
  invalidate_all [] w = w
  invalidate_all (i ∷ is) w = invalidate_all is (invalidate conv i w)

  -- `invalidateCards`
  unfoldable pub invalidate_cards : ℕ → CardWorld → CardWorld
  unfolding invalidate
  invalidate_cards order_id w = invalidate_all (distinct (product_ids order_id w.db)) w

  abbrev pub after_create : CardWorld → Result Order × Db → Result OrderResponse × CardWorld
  after_create w (err e, db) = (err e, record w { db = db })
  after_create w (ok order, db) =
      (ok (load_order conv db order), invalidate_cards order.id (record w { db = db }))

  -- `create`
  unfoldable pub create_order :
      CreateOrderDto → Option ℕ → CardWorld → Result OrderResponse × CardWorld
  unfolding invalidate_cards
  create_order dto user_id w = after_create w (create conv w.now dto user_id w.db)

  abbrev pub after_claim : Text → CardWorld → Result Claim × Db → CardWorld
  after_claim request_hash w (ok (saved order), db) =
      invalidate_cards order.id (record w { db = db })
  after_claim request_hash w (ok (replay row), db) = record w { db = db }
  after_claim request_hash w (err e, db) = record w { db = db }

  -- `createIdempotent`: a replay leaves the cards alone.
  unfoldable pub create_order_idempotent :
      CreateOrderDto
      → Text
      → Text
      → Option ℕ
      → CardWorld
      → Result (OrderResponse × Bool) × CardWorld
  unfolding invalidate_cards
  create_order_idempotent dto client_key request_hash user_id w =
      let outcome =
        transaction
          (claim_or_replay conv w.now dto (scoped_key conv user_id client_key) request_hash user_id)
          w.db in
      ((answer conv request_hash outcome).0, after_claim request_hash w outcome)
