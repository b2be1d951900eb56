-- ===== src/Orders/Cards/Tests.antt =====
-- An order of a lamp, whose card is in no cache yet.
use marketplace_api.Prelude.{
  Text-discrete, [], arith, none, refl, some, tally, text, unary, ◌∷◌, ◌≡◌, true,
}
use marketplace_api.Store.{Product, Db, Order, empty_db, OrderStatus}
use marketplace_api.Orders.Create.{CreateOrderDto, insert_order_with_event, create}
use marketplace_api.Products.Cards.{CardWorld}
use marketplace_api.Cache.Values.{cache_kept}
use marketplace_api.Products.Cards.Fresh.{IsFresh}
use marketplace_api.Orders.Create.Total.{lines_total, insert_order_with_event-total}
use marketplace_api.Orders.Cards.{create_order_idempotent}
use marketplace_api.Sql.{select}
use marketplace_api.Orders.Cards.Fresh.{create_order_idempotent-AreUpdated, AreUpdated}
use marketplace_api.Store.Tx.{transaction, ok}
use marketplace_api.Orders.Read.{of_order}
use marketplace_api.Outbox.Announced.{IsAnnounced}
use marketplace_api.Orders.Create.Priced.{AreOrdered}

abbrev lamp : Product
lamp = record { id = 3; name = text "lamp"; price_cents = 50; stock = 9; currency = text "UAH" }

abbrev shop : Db
shop = record empty_db { products = lamp ∷ [] }

abbrev wish : CreateOrderDto
wish = record {
  customer_email = text "a@x";
  items = (record { product_id = tally 3; quantity = 2 }) ∷ [];
}

abbrev ordered : Order
ordered = record {
  id = 1;
  user_id = some 1;
  customer_email = text "a@x";
  status = OrderStatus.created;
  total_cents = 100;
  currency = text "UAH";
}

abbrev world : CardWorld
world = record {
  now = 7;
  db = shop;
  cache = record { answers = true; keys = λ k. none };
  locks = some (λ k. none);
}

world-IsFresh : IsFresh unary world
unfolding cache_kept
world-IsFresh later i v le h = absurd (ground (arith, h))

create_order_idempotent-AreUpdated_example :
    AreUpdated unary world
      (create_order_idempotent unary wish (text "k") (text "h") (some 1) world).1
create_order_idempotent-AreUpdated_example =
    create_order_idempotent-AreUpdated unary wish (text "k") (text "h") (some 1) world refl refl
      world-IsFresh

abbrev shop_after : Db
shop_after = (create unary 5 wish (some 1) shop).1

inserted : insert_order_with_event unary 5 wish (some 1) shop ≡ ok (ordered, shop_after)
unfolding insert_order_with_event create unary Text-discrete transaction
inserted = refl

insert_order_with_event-total_example :
    AreOrdered unary wish.items shop.products (select (of_order 1) shop_after.order_items)
    × (100 ≡ lines_total unary (select (of_order 1) shop_after.order_items))
    × IsAnnounced shop_after
insert_order_with_event-total_example =
    insert_order_with_event-total unary 5 wish (some 1) shop shop_after ordered refl refl inserted
