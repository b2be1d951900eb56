-- ===== src/Orders/Gateway/Rooms.antt =====
-- The rooms of src/orders/orders.gateway.ts: who is connected, which rooms a socket is in, and to whom
-- the status of an order is sent. A timer fires when it is due.
use marketplace_api.Prelude.{
  Bool, Conversions, List, Number, Option, Text, [], if◌then◌else◌, ltb, none, not, some, text_eq,
  ℕ, ◌*◌, ◌++◌, ◌==◌, ◌∷◌,
}
use marketplace_api.Auth.Tokens.{AccessPrincipal}
use marketplace_api.Sql.{select, contains}
use marketplace_api.Orders.Gateway.{
  JoinAck, joined, room_name, join_unauthorized, handle_join, order_id_required, join_unavailable,
  join_not_found, join_failed,
}
use marketplace_api.Auth.Guards.{Denylist}
use marketplace_api.Orders.Events.{OrderStatusEvent}
use marketplace_api.Store.{Db}

-- A socket that `handleConnection` left connected, with the rooms that it joined.
pub record Member : Type 0 where
  pub socket : ℕ
  pub principal : AccessPrincipal
  pub rooms : List Text

-- `handleConnection`: a socket without a principal is disconnected.
abbrev pub handle_connection : ℕ → Option AccessPrincipal → List Member → List Member
handle_connection socket none members = members
handle_connection socket (some p) members =
    members ++ (record { socket = socket; principal = p; rooms = [] }) ∷ []

-- setTimeout(() => client.disconnect(true), max(expiresAt * 1000 - now, 0))
abbrev pub not_due : ℕ → Member → Bool
not_due now m = ltb now (m.principal.expires_at * 1000)

abbrev pub fire_timers : ℕ → List Member → List Member
fire_timers now members = select (not_due now) members

abbrev pub enter : Text → Member → Member
enter room m = record m { rooms = room ∷ m.rooms }

-- What an answer to a join does to the socket.
abbrev pub settle_join : JoinAck → Member → List Member
settle_join (joined room) m = enter room m ∷ []
settle_join join_unauthorized m = []
settle_join order_id_required m = m ∷ []
settle_join join_unavailable m = m ∷ []
settle_join join_not_found m = m ∷ []
settle_join join_failed m = m ∷ []

abbrev pub in_room : Text → Member → Bool
in_room room m = contains (λ r. text_eq r room) m.rooms

pub data SocketAction : Type 0 where
  connects : ℕ → Option AccessPrincipal → SocketAction
  -- the time, the socket, the denylist, the order and the tables
  asks : ℕ → ℕ → Denylist → Number → Db → SocketAction
  timers : ℕ → SocketAction
  disconnects : ℕ → SocketAction

module _ (conv : Conversions) where
  abbrev pub handle_ask : ℕ → ℕ → Denylist → Number → Db → List Member → List Member
  handle_ask now socket d order_id db [] = []
  handle_ask now socket d order_id db (m ∷ ms) =
      let rest = handle_ask now socket d order_id db ms in
      if m.socket == socket
      then settle_join (handle_join conv now d (some m.principal) order_id db) m ++ rest
      else m ∷ rest

  abbrev pub hub_step : SocketAction → List Member → List Member
  hub_step (connects socket p) members = handle_connection socket p members
  hub_step (asks now socket d order_id db) members = handle_ask now socket d order_id db members
  hub_step (timers now) members = fire_timers now members
  hub_step (disconnects socket) members = select (λ m. not (m.socket == socket)) members

  abbrev pub run_hub : List SocketAction → List Member → List Member
  run_hub [] members = members
  run_hub (a ∷ rest) members = run_hub rest (hub_step a members)

  -- The sockets to which the subscription of `afterInit` sends a status, after the timers that are
  -- due.
  abbrev pub recipients : ℕ → OrderStatusEvent → List Member → List Member
  recipients now event members =
      select (in_room (room_name conv event.order_id)) (fire_timers now members)
