-- ===== src/Orders/Stream.antt =====
-- `streamEvents` of src/orders/orders.controller.ts: what a client of the event stream of an order is
-- sent, first from the history and then from what is emitted while it is connected.
mod Tests
pub mod Complete
use marketplace_api.Prelude.{
  Bool, Conversions, List, Number, Option, Text, [], fraction, nan, nat, negative, none, some, ℕ,
  ◌++◌, ◌==◌,
}
use marketplace_api.Orders.Events.{OrderStatusEvent, OrderEvents, get_events_after}
use marketplace_api.Store.Tx.{Result, err, ok}
use marketplace_api.Orders.Read.{assert_can_view}
use marketplace_api.Sql.{select}
use marketplace_api.Store.{Db}

abbrev pub of_this : ℕ → OrderStatusEvent → Bool
of_this i e = e.order_id == i

-- The history after the id that a client knows, as a number: none of it is after NaN, all of it is
-- after a negative number, and for a fraction `whole` is its whole part.
abbrev pub history_after : ℕ → Number → OrderEvents → List OrderStatusEvent
history_after whole nan s = []
history_after whole fraction s = get_events_after whole s
history_after whole (nat n) s = get_events_after n s
history_after whole (negative n) s = s.history

module _ (conv : Conversions) where
  -- Number(lastEventIdHeader ?? 0)
  abbrev pub last_event_id : Option Text → Number
  last_event_id none = nat 0
  last_event_id (some h) = conv.number h

  abbrev pub events_for : Number → List OrderStatusEvent → List OrderStatusEvent
  events_for (nat i) es = select (of_this i) es
  events_for nan es = []
  events_for fraction es = []
  events_for (negative n) es = []

  -- The events that a client is sent: those of the history, and those of `later`, which are emitted
  -- until it disconnects.
  abbrev pub stream_if :
      Result (Unit {0})
      → Text
      → ℕ
      → Option Text
      → OrderEvents
      → List OrderStatusEvent
      → Result (List OrderStatusEvent)
  stream_if (err e) order_id whole header s later = err e
  stream_if (ok seen) order_id whole header s later = ok (
      events_for (conv.number order_id) (history_after whole (last_event_id header) s)
      ++ events_for (conv.number order_id) later)

  -- `streamEvents`
  unfoldable pub stream_events :
      Text
      → ℕ
      → ℕ
      → Option Text
      → Db
      → OrderEvents
      → List OrderStatusEvent
      → Result (List OrderStatusEvent)
  unfolding assert_can_view
  stream_events order_id actor whole header db s later =
      stream_if (assert_can_view conv order_id actor db) order_id whole header s later
