-- ===== src/Messaging/Receipts/Tests.antt =====
-- One delivery and its repetition, with a queue in memory.
use marketplace_api.Prelude.{
  Option, Text, Text-discrete, [], if◌then◌else◌, nat, none, refl, some, text, text_eq, true, unary,
  ◌≡◌,
}
use marketplace_api.Queue.{ReceiptJobData}
use marketplace_api.Messaging.Receipts.{Tasks, Delivery, consume_delivery}
use marketplace_api.Messaging.Consumer.{PlacedEvent, acknowledge}
use marketplace_api.Store.{routing_key_order_placed, empty_db}

abbrev Held : Type 0
Held = Text → Option ReceiptJobData

abbrev put : Text → ReceiptJobData → Option ReceiptJobData → Held → Held
put i d none q = λ j. if text_eq j i then some d else q j
put i d (some old) q = q

abbrev memory : Tasks Held
memory = record { add = λ name d i q. some (put i d (q i) q); job = λ i q. q i }

abbrev delivery : Delivery
delivery = record {
  reachable = true;
  body = some (record {
    event_id = some (text "e");
    kind = some routing_key_order_placed;
    order_id = nat 4;
  });
  customer_email = text "a@x";
}

abbrev placed_four : PlacedEvent
placed_four = record { event_id = text "e"; order_id = nat 4 }

abbrev nothing : Held
nothing i = none

-- Without a queue for tasks the delivery is acknowledged and no receipt is put.
no_queue :
    (consume_delivery {Q = Held} unary [] none delivery (empty_db, nothing)).0.0 ≡ acknowledge
unfolding consume_delivery Text-discrete unary
no_queue = refl
