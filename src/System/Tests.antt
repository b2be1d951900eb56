-- ===== src/System/Tests.antt =====
-- One order from its creation to its effect.
use marketplace_api.Prelude.{
  List, Text-discrete, [], false, get_elem?, length, none, refl, some, tally, text, true, unary,
  ◌∷◌, ◌≡◌, ◌≤◌, arith, ℕ, ◌⊎◌,
}
use marketplace_api.Store.{
  order_placed_event_id, Product, OrderPlacedEvent, build_order_placed_event,
}
use marketplace_api.Orders.Create.{CreateOrderDto, create, insert_order_with_event}
use marketplace_api.Outbox.Relay.{
  World, default_options, relay_once, take_batch, sent_rows, failed_row,
}
use marketplace_api.Messaging.Consumer.{
  Hooks, handle_message, apply_order_placed_effect, mark_and_insert, insert_mark, insert_event,
  acknowledge,
}
use marketplace_api.System.{
  Action, System, create_order, step, body_of, relay_pass, delivery, carried, run,
}
use marketplace_api.System.Stage.{Advance, effects_of, stage, effected, placed}
use marketplace_api.System.Refine.{reached, step-Advance, effects_of-once, handle_message-effected}
use marketplace_api.Store.Tx.{transaction}
use marketplace_api.Sql.{contains}
use marketplace_api.Orders.Read.{has_order_id}
use marketplace_api.System.Progress.{whole_batch, clear_world, willing, run-effected}
use marketplace_api.System.Dead.{IsDead}

abbrev lamp : Product
lamp = record { id = 3; name = text "lamp"; price_cents = 50; stock = 9; currency = text "UAH" }

abbrev wish : CreateOrderDto
wish = record {
  customer_email = text "a@x";
  items = (record { product_id = tally 3; quantity = 2 }) ∷ [];
}

abbrev fine : World
fine = record { now = 6; busy = λ r. false; confirms = λ r. true; hook_returns = true }

abbrev hooks : Hooks
hooks = record { wants_requeue = λ b. false; hooks_return = true }

abbrev until_sent : List Action
until_sent = create_order 5 wish none ∷ relay_pass default_options fine false ∷ []

abbrev after : System
after = reached unary (lamp ∷ []) [] until_sent

sent_one : length after.messages ≡ 1
unfolding create transaction insert_order_with_event unary Text-discrete relay_once carried
    take_batch sent_rows failed_row
sent_one = refl

placed_only : stage 1 after.db ≡ placed
unfolding create transaction insert_order_with_event unary Text-discrete relay_once
placed_only = refl

abbrev message : OrderPlacedEvent
message =
    build_order_placed_event unary
      (record {
        order_id = 1;
        customer_email = text "a@x";
        total_cents = 100;
        currency = text "UAH";
        items = (record { product_id = 3; quantity = 2 }) ∷ [];
      })
      5

sent_message : get_elem? after.messages 0 ≡ some message
unfolding create transaction insert_order_with_event unary Text-discrete relay_once carried
    take_batch sent_rows failed_row build_order_placed_event order_placed_event_id
sent_message = refl

acked_message : (handle_message true hooks (some (body_of message)) after.db).0.0 ≡ acknowledge
unfolding handle_message create transaction insert_order_with_event unary Text-discrete relay_once
    apply_order_placed_effect mark_and_insert insert_mark insert_event build_order_placed_event
    order_placed_event_id
acked_message = refl

step-Advance_example :
    Advance (stage 1 after.db) (stage 1 (step unary (delivery true hooks 0) after).db)
step-Advance_example = step-Advance unary (lamp ∷ []) [] until_sent (delivery true hooks 0) 1

effects_of-once_example :
    (effects_of 1 after.db ≤ 1)
    × (contains (has_order_id 1) after.db.orders ≡ false → effects_of 1 after.db ≡ 0)
effects_of-once_example = effects_of-once unary (lamp ∷ []) [] until_sent 1

handle_message-effected_example :
    stage 1 (handle_message true hooks (some (body_of message)) after.db).1 ≡ effected
unfolding build_order_placed_event
handle_message-effected_example =
    handle_message-effected unary (lamp ∷ []) [] until_sent true hooks 0 message sent_message
      acked_message

there_after : contains (has_order_id 1) after.db.orders ≡ true
unfolding create transaction insert_order_with_event unary Text-discrete relay_once
there_after = refl

short_id : length (order_placed_event_id unary 1) ≤ 200
unfolding order_placed_event_id unary
short_id = omega arith

run-effected_example :
    ((n : ℕ) × (stage 1
          (run unary
            (relay_pass (whole_batch after.db) (clear_world 9) false ∷ delivery true willing n ∷ [])
            after).db
        ≡ effected))
    ⊎ IsDead 1 after
run-effected_example =
    run-effected unary (lamp ∷ []) [] until_sent 9 1 there_after (omega arith) short_id
