-- ===== src/Messaging/Consumer.antt =====
-- src/messaging/consumer.ts: the effect of an order.placed message and the settling of a delivery.
-- What JSON.parse makes of a message is the argument `body`; calls of the channel do not throw.
use marketplace_api.Prelude.{
  Bool, Number, Option, Text, [], false, fraction, if◌then◌else◌, is_integer, leb, length, ltb, nan,
  nat, negative, none, some, text, text_eq, true, ◌&&◌, ◌++◌, ◌^◌, ◌∷◌,
}
use marketplace_api.Store.{routing_key_order_placed, ProcessedMessage, ProcessedOrderEvent, Db}
use marketplace_api.Store.Tx.{Tx, transaction, Result, err, ok, database_error}
use marketplace_api.Sql.{contains}

abbrev pub consumer_order_placed : Text
consumer_order_placed = text "orders.order-placed"

-- The fields of a parsed message that are read: `eventId` and `type` if they are texts, and
-- `data.orderId` as a number, NaN where it is none.
pub record Body : Type 0 where
  pub event_id : Option Text
  pub kind : Option Text
  pub order_id : Number

-- A message that passed the check.
pub record PlacedEvent : Type 0 where
  pub event_id : Text
  pub order_id : Number

-- `parseOrderPlaced`; no body where JSON.parse throws
abbrev pub parse_order_placed : Option Body → Option PlacedEvent
parse_order_placed none = none
parse_order_placed (some b) = elim b.event_id [
  | none ↦ none
  | some i ↦ elim b.kind [
    | none ↦ none
    | some k ↦
        if text_eq k routing_key_order_placed && is_integer b.order_id
        then some (record { event_id = i; order_id = b.order_id })
        else none
  ]
]

abbrev pub is_mark : Text → ProcessedMessage → Bool
is_mark i m = text_eq m.message_id i && text_eq m.consumer consumer_order_placed

abbrev pub has_event_id : Text → ProcessedOrderEvent → Bool
has_event_id i r = text_eq r.event_id i

abbrev pub mark_of : Text → ProcessedMessage
mark_of i = record { message_id = i; consumer = consumer_order_placed }

-- The value fits in an `integer` column.
abbrev pub fits_int4 : Number → Bool
fits_int4 nan = false
fits_int4 fraction = false
fits_int4 (nat n) = ltb n (2 ^ 31)
fits_int4 (negative n) = ltb n (2 ^ 31)

-- INSERT INTO processed_messages ... ON CONFLICT DO NOTHING: whether a row was inserted
unfoldable pub insert_mark : Text → Tx Bool
insert_mark i db =
    if contains (is_mark i) db.processed_messages
    then ok (false, db)
    else ok (true, record db { processed_messages = db.processed_messages ++ mark_of i ∷ [] })

-- INSERT INTO processed_order_events ... ON CONFLICT DO NOTHING, into varchar(200) and integer
unfoldable pub insert_event : PlacedEvent → Tx Bool
insert_event e db =
    if fits_int4 e.order_id && leb (length e.event_id) 200
    then (if contains (has_event_id e.event_id) db.processed_order_events
        then ok (false, db)
        else ok (
          true,
          record db {
            processed_order_events =
                db.processed_order_events
                ++ (record { event_id = e.event_id; order_id = e.order_id }) ∷ [];
          },
        ))
    else err database_error

-- return true, after the insertion of the effect
abbrev pub applied_now : Result (Bool × Db) → Result (Bool × Db)
applied_now (err f) = err f
applied_now (ok (inserted, db)) = ok (true, db)

-- After the mark: the effect, or nothing for a duplicate.
abbrev pub insert_if_fresh : PlacedEvent → Result (Bool × Db) → Result (Bool × Db)
insert_if_fresh e (err f) = err f
insert_if_fresh e (ok (false, db)) = ok (false, db)
insert_if_fresh e (ok (true, db)) = applied_now (insert_event e db)

-- The body of the transaction.
unfoldable pub mark_and_insert : PlacedEvent → Tx Bool
unfolding insert_mark insert_event
mark_and_insert e db = insert_if_fresh e (insert_mark e.event_id db)

-- `applyOrderPlacedEffect`; the database may also be out of reach.
unfoldable pub apply_order_placed_effect : Bool → PlacedEvent → Db → Result Bool × Db
unfolding mark_and_insert transaction
apply_order_placed_effect reachable e db =
    if reachable then transaction (mark_and_insert e) db else (err database_error, db)

-- What the channel is told about the message.
pub data Settlement : Type 0 where
  acknowledge reject_dead reject_requeue : Settlement

-- `SettledOutcome`
pub data Outcome : Type 0 where
  acked skipped dead requeued failed : Outcome

-- The hooks of `ConsumerOptions` that decide: whether `afterEffect` asks for a requeue, given
-- whether the effect was applied now, and whether both return. A hook that throws, whichever of
-- the two, ends in the catch clause.
pub record Hooks : Type 0 where
  pub wants_requeue : Bool → Bool
  pub hooks_return : Bool

abbrev pub settle : Hooks → Result Bool → Settlement × Outcome
settle h (err e) = (reject_requeue, failed)
settle h (ok applied) =
    if h.wants_requeue applied
    then (reject_requeue, requeued)
    else if h.hooks_return
    then (acknowledge, (if applied then acked else skipped))
    else (reject_requeue, failed)

abbrev pub settle_applied : Hooks → Result Bool × Db → (Settlement × Outcome) × Db
settle_applied h (r, db) = (settle h r, db)

abbrev pub handle_parsed : Bool → Hooks → Option PlacedEvent → Db → (Settlement × Outcome) × Db
handle_parsed reachable h none db = ((reject_dead, dead), db)
handle_parsed reachable h (some e) db = settle_applied h (apply_order_placed_effect reachable e db)

-- `handleMessage`
unfoldable pub handle_message : Bool → Hooks → Option Body → Db → (Settlement × Outcome) × Db
unfolding apply_order_placed_effect
handle_message reachable h body db = handle_parsed reachable h (parse_order_placed body) db
