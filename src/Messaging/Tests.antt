-- ===== src/Messaging/Tests.antt =====
-- Deliveries of one message to an empty inbox.
use marketplace_api.Prelude.{Text-discrete, arith, false, nat, refl, some, text, true, ◌≡◌}
use marketplace_api.Messaging.Consumer.{
  Body, PlacedEvent, Hooks, parse_order_placed, handle_message, apply_order_placed_effect,
  acknowledge, acked, has_event_id,
}
use marketplace_api.Messaging.Once.{handle_message-once}
use marketplace_api.Store.{routing_key_order_placed, empty_db}
use marketplace_api.Store.Tx.{ok}
use marketplace_api.Sql.{affected}
use marketplace_api.Messaging.Inbox.{IsInbox}

abbrev content : Body
content = record {
  event_id = some (text "e");
  kind = some routing_key_order_placed;
  order_id = nat 4;
}

abbrev placed : PlacedEvent
placed = record { event_id = text "e"; order_id = nat 4 }

abbrev quiet : Hooks
quiet = record { wants_requeue = λ b. false; hooks_return = true }

parsed : parse_order_placed (some content) ≡ some placed
unfolding Text-discrete
parsed = refl

first_acked : (handle_message true quiet (some content) empty_db).0 ≡ (acknowledge, acked)
unfolding handle_message Text-discrete
first_acked = refl

empty-IsInbox : IsInbox empty_db
empty-IsInbox = record { once = λ i. omega arith; marked = λ i h. absurd (cc) }

handle_message-once_example :
    IsInbox (handle_message true quiet (some content) empty_db).1
    × ((handle_message true quiet (some content) empty_db).0.0 ≡ acknowledge
        → affected
            (has_event_id (text "e"))
            (handle_message true quiet (some content) empty_db).1.processed_order_events
          ≡ 1)
handle_message-once_example =
    handle_message-once true quiet (some content) placed empty_db empty-IsInbox parsed

committed : (apply_order_placed_effect true placed empty_db).0 ≡ ok true
unfolding apply_order_placed_effect Text-discrete
committed = refl
