-- ===== src/System.antt =====
-- An order on its way through the parts: src/orders and src/checkout.ts write it with its message, the relay of
-- src/outbox carries the message to the broker, and src/messaging/consumer.ts applies it. The
-- broker may deliver what it has been sent at any time, and again, until it has come back too often
-- and is in the queue of dead letters. Each action
-- is one transaction or one pass.
pub mod Dead
pub mod Lossless
pub mod Progress
pub mod Courier
pub mod Waiting
pub mod Placed
mod Tests
pub mod Refine
pub mod Deliver
pub mod Carry
pub mod Steps
pub mod Sound
pub mod Stage
use marketplace_api.Messaging.Consumer.{Body, Hooks, handle_message, Settlement, reject_requeue}
use marketplace_api.Prelude.{
  Bool, Conversions, List, Option, Text, [], false, map, nat, none, some, true, ℕ, ◌++◌, ◌∷◌,
  get_elem?, Number, if◌then◌else◌, leb, suc, ◌==◌,
}
use marketplace_api.Store.{Db, OrderPlacedEvent, OutboxRow, Product, OrderStatus, User, empty_db}
use marketplace_api.Orders.Create.{CreateOrderDto, create}
use marketplace_api.Outbox.Relay.{
  RelayOptions, World, take_batch, sent_rows, failed_row, relay_once,
}
use marketplace_api.Orders.Create.Idempotent.{create_idempotent}
use marketplace_api.Orders.Status.{update_status}
use marketplace_api.Orders.Events.{no_events}
use marketplace_api.Checkout.{checkout}
use marketplace_api.Queue.{cleanup_outbox}

pub record System : Type 0 where
  pub db : Db
  -- what the broker has been sent
  pub messages : List OrderPlacedEvent
  -- how often the message at a place has come back
  pub returned : ℕ → ℕ

pub data Action : Type 0 where
  create_order : ℕ → CreateOrderDto → Option ℕ → Action
  create_order_once : ℕ → CreateOrderDto → Text → Text → Option ℕ → Action
  -- the time, the buyer, the product and the quantity
  purchase : ℕ → ℕ → ℕ → Number → Action
  change_status : Text → OrderStatus → Action
  -- whether the broker has got the row that it did not confirm
  relay_pass : RelayOptions → World → Bool → Action
  clean_up : ℕ → Action
  -- whether the database answers, the hooks, and which message
  delivery : Bool → Hooks → ℕ → Action

-- JSON.parse of the message, as far as it is read
abbrev pub body_of : OrderPlacedEvent → Body
body_of e = record {
  event_id = some e.event_id;
  kind = some e.type;
  order_id = nat e.body.order_id;
}

abbrev pub unconfirmed : Bool → Option OutboxRow → List OutboxRow
unconfirmed false f = []
unconfirmed true none = []
unconfirmed true (some f) = f ∷ []

-- The rows whose messages reach the broker in a pass, also in one that is not committed.
unfoldable pub carried : RelayOptions → World → Bool → Db → List OutboxRow
carried o w reached db =
    let batch = take_batch o w db.outbox in
    sent_rows w batch ++ unconfirmed reached (failed_row w batch)

abbrev pub payload_of : OutboxRow → OrderPlacedEvent
payload_of r = r.payload

-- DELIVERY_LIMIT
abbrev pub delivery_limit : ℕ
delivery_limit = 3

-- A message that has come back more often than the limit is in the queue of dead letters.
abbrev pub deliverable : System → ℕ → Option OrderPlacedEvent
deliverable s n = if leb (s.returned n) delivery_limit then get_elem? s.messages n else none

abbrev pub count_return : ℕ → Settlement → (ℕ → ℕ) → ℕ → ℕ
count_return n reject_requeue returned = λ k. if k == n then suc (returned k) else returned k
count_return n _ returned = returned

-- `reject` with a requeue counts.
abbrev pub returned_after : Bool → Hooks → Option OrderPlacedEvent → ℕ → Db → (ℕ → ℕ) → ℕ → ℕ
returned_after reachable h none n db returned = returned
returned_after reachable h (some e) n db returned =
    count_return n (handle_message reachable h (some (body_of e)) db).0.0 returned

abbrev pub delivered : Bool → Hooks → Option OrderPlacedEvent → Db → Db
delivered reachable h none db = db
delivered reachable h (some e) db = (handle_message reachable h (some (body_of e)) db).1

module _ (conv : Conversions) where
  abbrev pub step : Action → System → System
  step (create_order now dto user_id) s = record s { db = (create conv now dto user_id s.db).1 }
  step (create_order_once now dto client_key request_hash user_id) s = record s {
    db = (create_idempotent conv now dto client_key request_hash user_id s.db).1;
  }
  step (purchase now user product quantity) s = record s {
    db = (checkout conv now user product quantity s.db).1;
  }
  step (clean_up now) s = record s { db = (cleanup_outbox now s.db).1 }
  step (change_status order_id status) s = record s {
    db = (update_status conv order_id status (s.db, no_events)).1.0;
  }
  step (relay_pass o w reached) s = record s {
    db = (relay_once o w s.db).1;
    messages = s.messages ++ map payload_of (carried o w reached s.db);
  }
  step (delivery reachable h n) s = record s {
    db = delivered reachable h (deliverable s n) s.db;
    returned = returned_after reachable h (deliverable s n) n s.db s.returned;
  }

  abbrev pub run : List Action → System → System
  run [] s = s
  run (a ∷ rest) s = run rest (step a s)

-- A service with products and users that has no orders yet.
abbrev pub new_system : List Product → List User → System
new_system products users = record {
  db = record empty_db { products = products; users = users };
  messages = [];
  returned = λ n. 0;
}
