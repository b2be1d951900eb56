-- ===== src/Orders/Gateway/Granted.antt =====
-- Why a socket is sent the status of an order.
use marketplace_api.Prelude.{All, Conversions, In, List, Number, Text, ℕ, ◌*◌, ◌<◌}
use marketplace_api.Orders.Gateway.Rooms.{SocketAction, Member, asks}
use marketplace_api.Auth.Tokens.{AccessPrincipal}
use marketplace_api.Auth.Guards.{Denylist}
use marketplace_api.Store.{Db}
use marketplace_api.Orders.Gateway.Join.{Follows}

module _ (conv : Conversions) where
  -- A request to join, among the actions, that was allowed.
  pub record Granted (actions : List SocketAction) (p : AccessPrincipal) (room : Text)
      : Type 0 where
    pub now : ℕ
    pub socket : ℕ
    pub denylist : Denylist
    pub order_id : Number
    pub db : Db
    pub asked : In (asks now socket denylist order_id db) actions
    pub follows : Follows conv now denylist p order_id db room

  abbrev AllGranted : List SocketAction → Member → Type 0
  AllGranted actions m = All (Granted actions m.principal) m.rooms

  -- Why a socket gets an event.
  abbrev pub Entitled : List SocketAction → ℕ → Text → Member → Type 0
  Entitled actions now room m =
      (now < m.principal.expires_at * 1000) × Granted actions m.principal room
