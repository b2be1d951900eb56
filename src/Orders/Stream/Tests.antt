-- ===== src/Orders/Stream/Tests.antt =====
-- A client of the order 1 that missed a change, and sees one more.
use marketplace_api.Prelude.{
  List, [], arith, nat, refl, some, tally, text, unary, ℕ, ◌++◌, ◌∷◌, ◌≡◌,
}
use marketplace_api.Store.{Order, Db, OrderStatus, empty_db}
use marketplace_api.Orders.Read.{assert_can_view, find_order}
use marketplace_api.Orders.Events.Replay.{emit_all, numbered}
use marketplace_api.Orders.Events.{no_events}
use marketplace_api.Store.Tx.{ok}
use marketplace_api.Orders.Stream.{stream_events, of_this}
use marketplace_api.Orders.Stream.Complete.{emitted, stream_events_complete}
use marketplace_api.Sql.{select}

abbrev ordered : Order
ordered = record {
  id = 1;
  user_id = some 1;
  customer_email = text "a@x";
  status = OrderStatus.created;
  total_cents = 100;
  currency = text "UAH";
}

abbrev shop : Db
shop = record empty_db { orders = ordered ∷ [] }

abbrev earlier : List (ℕ × OrderStatus)
earlier = (1, OrderStatus.paid) ∷ (7, OrderStatus.paid) ∷ []

abbrev missed : List (ℕ × OrderStatus)
missed = (1, OrderStatus.shipped) ∷ (7, OrderStatus.shipped) ∷ []

abbrev later : List (ℕ × OrderStatus)
later = (1, OrderStatus.paid) ∷ []

seen : assert_can_view unary (tally 1) 1 shop ≡ ok tt
unfolding assert_can_view find_order unary
seen = refl

one_named : unary.number (tally 1) ≡ nat 1
unfolding unary
one_named = refl

stream_events_complete_example :
    let now = emit_all missed (emit_all earlier no_events) in
    stream_events unary (tally 1) 1 0 (some (unary.string 2)) shop now (emitted later now)
    ≡ ok (select (of_this 1) (numbered 3 (missed ++ later)))
stream_events_complete_example =
    stream_events_complete unary (tally 1) 1 1 0 shop earlier missed later one_named seen
      (omega arith)
