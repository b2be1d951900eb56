-- ===== src/Orders/Controller.antt =====
-- `create` of src/orders/orders.controller.ts, over the service with its cards. The rate limit in
-- front of it is that of `RateLimit`.
use marketplace_api.Prelude.{Bool, Conversions, Option, Text, [], none, some, ℕ, ◌∷◌}
use marketplace_api.Store.Tx.{Result, err, bad_request}
use marketplace_api.Orders.Cards.{create_order_idempotent}
use marketplace_api.Orders.Read.{OrderResponse}
use marketplace_api.Orders.Create.{CreateOrderDto}
use marketplace_api.Products.Cards.{CardWorld}

-- An order, and whether the header `Idempotency-Replay` is set.
abbrev pub Created : Type 0
Created = Result (OrderResponse × Bool) × CardWorld

-- `create`: without a key, or with an empty one, no service is asked.
unfoldable pub post_order :
    Conversions → CreateOrderDto → Option Text → Text → Option ℕ → CardWorld → Created
unfolding create_order_idempotent
post_order conv dto none request_hash user_id w = (err bad_request, w)
post_order conv dto (some []) request_hash user_id w = (err bad_request, w)
post_order conv dto (some (c ∷ cs)) request_hash user_id w =
    create_order_idempotent conv dto (c ∷ cs) request_hash user_id w
