-- ===== src/Orders/Tests.antt =====
-- A shop with one product, one client and one order.
use marketplace_api.Orders.Create.{insert_order_with_event}
use marketplace_api.Prelude.{
  Text-discrete, [], arith, false, none, refl, some, tally, text, true, unary, ◌∷◌, ◌≡◌, Text, nat,
  List, length,
}
use marketplace_api.Store.{Product, User, Db, Order, UserRole, empty_db, OrderStatus, paid}
use marketplace_api.Orders.Create.{CreateOrderDto}
use marketplace_api.Orders.Read.{OrderResponse, find_one_for, load_order, has_order_id}
use marketplace_api.Orders.Create.Idempotent.{create_idempotent}
use marketplace_api.Store.Tx.{ok, err, unprocessable, not_found}
use marketplace_api.Orders.Create.Idempotent.Replay.{create_idempotent-replays}
use marketplace_api.Auth.Tokens.{AccessPrincipal}
use marketplace_api.Redis.{Redis}
use marketplace_api.Orders.Gateway.{handle_join, joined, room_name}
use marketplace_api.Sql.{find}
use marketplace_api.Orders.Events.{OrderStatusEvent}
use marketplace_api.Orders.Gateway.Rooms.{SocketAction, recipients, connects, run_hub, asks}

abbrev lamp : Product
lamp = record { id = 3; name = text "lamp"; price_cents = 50; stock = 9; currency = text "UAH" }

abbrev ann : User
ann = record {
  id = 1;
  email = text "a@x";
  name = text "A";
  password_hash = none;
  role = UserRole.customer;
  balance_cents = 0;
}

abbrev shop : Db
shop = record empty_db { products = lamp ∷ []; users = ann ∷ [] }

abbrev wish : CreateOrderDto
wish = record {
  customer_email = text "a@x";
  items = (record { product_id = tally 3; quantity = 2 }) ∷ [];
}

abbrev ordered : Order
ordered = record {
  id = 1;
  user_id = some 1;
  customer_email = text "a@x";
  status = OrderStatus.created;
  total_cents = 100;
  currency = text "UAH";
}

abbrev shop_after : Db
shop_after = (create_idempotent unary 5 wish (text "k") (text "h") (some 1) shop).1

abbrev shown : OrderResponse
shown = load_order unary shop_after ordered

ordered_once :
    create_idempotent unary 5 wish (text "k") (text "h") (some 1) shop
    ≡ (ok (shown, false), shop_after)
unfolding create_idempotent Text-discrete unary insert_order_with_event
ordered_once = refl

create_idempotent-replays_example :
    (create_idempotent unary 6 wish (text "k") (text "h") (some 1) shop_after
      ≡ (ok (shown, true), shop_after))
    × (create_idempotent unary 6 wish (text "k") (text "g") (some 1) shop_after
        ≡ (err unprocessable, shop_after))
create_idempotent-replays_example =
    create_idempotent-replays unary 5 6 wish wish (text "k") (text "h") (text "g") (some 1) shop
      shop_after shown (omega arith) refl ordered_once (λ e. ground (arith, e))

seen_by_owner : find_one_for unary (tally 1) 1 shop_after ≡ ok shown
unfolding find_one_for create_idempotent Text-discrete unary insert_order_with_event
seen_by_owner = refl

hidden_from_others : find_one_for unary (tally 1) 2 shop_after ≡ err not_found
unfolding find_one_for create_idempotent Text-discrete unary insert_order_with_event
hidden_from_others = refl

abbrev ann_socket : AccessPrincipal
ann_socket = record {
  user_id = 1;
  role = UserRole.customer;
  jti = text "j";
  family_id = text "f";
  expires_at = 9;
}

abbrev nothing_denied : Redis Text
nothing_denied k = none

ann_joins :
    handle_join unary 5 (some nothing_denied) (some ann_socket) (nat 1) shop_after
    ≡ joined (room_name unary 1)
unfolding handle_join create_idempotent Text-discrete unary insert_order_with_event
ann_joins = refl

abbrev session : List SocketAction
session =
    connects 4 (some ann_socket)
    ∷ connects 8 none
    ∷ asks 5 4 (some nothing_denied) (nat 1) shop_after
    ∷ []

abbrev change : OrderStatusEvent
change = record { id = 1; order_id = 1; status = paid }

one_recipient : length (recipients unary 6 change (run_hub unary session [])) ≡ 1
unfolding handle_join create_idempotent Text-discrete unary insert_order_with_event
one_recipient = refl

one_named : unary.number (tally 1) ≡ nat 1
unfolding unary
one_named = refl

one_stored : find (has_order_id 1) shop_after.orders ≡ some ordered
unfolding create_idempotent Text-discrete unary insert_order_with_event
one_stored = refl
