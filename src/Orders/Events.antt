-- ===== src/Orders/Events.antt =====
-- src/orders/order-events.service.ts: the bounded history of status changes, from which a
-- reconnecting client catches up.
pub mod Replay
use marketplace_api.Prelude.{List, [], if◌then◌else◌, length, ltb, suc, ℕ, ◌++◌, ◌∷◌}
use marketplace_api.Store.{OrderStatus}
use marketplace_api.Sql.{select}

-- `OrderStatusEvent`
pub record OrderStatusEvent : Type 0 where
  pub id : ℕ
  pub order_id : ℕ
  pub status : OrderStatus

abbrev pub history_limit : ℕ
history_limit = 200

-- `OrderEventsService`: the history and the next id; what is sent on the stream is the event.
pub record OrderEvents : Type 0 where
  pub history : List OrderStatusEvent
  pub next_event_id : ℕ

abbrev pub no_events : OrderEvents
no_events = record { history = []; next_event_id = 1 }

-- history.shift()
abbrev pub shift : List OrderStatusEvent → List OrderStatusEvent
shift [] = []
shift (e ∷ es) = es

-- history.push(event), and the shift beyond the limit
abbrev pub remember : List OrderStatusEvent → List OrderStatusEvent
remember es = if ltb history_limit (length es) then shift es else es

-- `emitStatusChanged`
unfoldable pub emit_status_changed : ℕ → OrderStatus → OrderEvents → OrderStatusEvent × OrderEvents
emit_status_changed order_id status s =
    let event : OrderStatusEvent = record {
      id = s.next_event_id;
      order_id = order_id;
      status = status;
    } in
    (
      event,
      record { history = remember (s.history ++ event ∷ []); next_event_id = suc s.next_event_id },
    )

-- `getEventsAfter`
unfoldable pub get_events_after : ℕ → OrderEvents → List OrderStatusEvent
get_events_after last_event_id s = select (λ e. ltb last_event_id e.id) s.history
