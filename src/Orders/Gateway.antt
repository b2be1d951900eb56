-- ===== src/Orders/Gateway.antt =====
-- src/orders/orders.gateway.ts: the handshake of a socket and the request to follow an order. The
-- rooms are those of socket.io; what is modelled is who gets into which.
pub mod Granted
pub mod Rooms
pub mod Join
use marketplace_api.Prelude.{
  Bool, Conversions, Number, Option, Text, [], false, fraction, if◌then◌else◌, is_integer, ltb, nan,
  nat, negative, none, some, text, true, ℕ, ◌*◌, ◌++◌, ◌^◌, ◌∷◌,
}
use marketplace_api.Auth.Tokens.{Jwt, KeyStore, verify_access, AccessPrincipal}
use marketplace_api.Auth.Bearer.{bearer_token}
use marketplace_api.Auth.Guards.{Denylist}
use marketplace_api.Store.Tx.{Result, ok, err, service_unavailable, unauthorized}
use marketplace_api.Store.{Db}
use marketplace_api.Auth.Denylist.{is_denied}
use marketplace_api.Orders.Read.{can_view}

-- What a handshake gives: the text `auth.token`, empty where there is none, and the header.
pub record Handshake : Type 0 where
  pub auth_token : Text
  pub authorization : Text

-- `JoinAck`; a socket that is unauthorized is disconnected as well, and a failed join throws.
pub data JoinAck : Type 0 where
  joined : Text → JoinAck
  join_unauthorized order_id_required join_unavailable join_not_found join_failed : JoinAck

-- `roomName`
abbrev pub room_name : Conversions → ℕ → Text
room_name conv order_id = text "orders:" ++ conv.string order_id

module _ {Key : Type 0} (jwt : Jwt Key) (ks : KeyStore Key) where
  -- `extractToken`
  abbrev pub extract_token : Handshake → Option Text
  extract_token h = elim h.auth_token [ [] ↦ bearer_token h.authorization | c ∷ cs ↦ some (c ∷ cs) ]

  abbrev pub unless_denied : ℕ → Denylist → AccessPrincipal → Result AccessPrincipal
  unless_denied now none p = err service_unavailable
  unless_denied now (some s) p =
      if is_denied p.jti p.family_id now s then err unauthorized else ok p

  abbrev pub with_principal : ℕ → Denylist → Option AccessPrincipal → Result AccessPrincipal
  with_principal now d none = err unauthorized
  with_principal now d (some p) = unless_denied now d p

  abbrev pub with_token : ℕ → Denylist → Option Text → Result AccessPrincipal
  with_token now d none = err unauthorized
  with_token now d (some token) = with_principal now d (verify_access jwt ks now token)

  -- `authenticate`: what becomes `socket.data.principal`
  unfoldable pub authenticate_socket : ℕ → Denylist → Handshake → Result AccessPrincipal
  unfolding verify_access is_denied bearer_token
  authenticate_socket now d h = with_token now d (extract_token h)

module _ (conv : Conversions) where
  -- The answer of `canView`, for an order id that is an integer.
  abbrev pub view_ack : Text → Result Bool → JoinAck
  view_ack room (ok true) = joined room
  view_ack room (ok false) = join_not_found
  view_ack room (err e) = join_failed

  -- A negative integer names no order: `canView` finds none, or the query fails.
  abbrev pub join_order : Number → ℕ → Db → JoinAck
  join_order nan actor db = order_id_required
  join_order fraction actor db = order_id_required
  join_order (negative n) actor db = if ltb n (2 ^ 31) then join_not_found else join_failed
  join_order (nat n) actor db = view_ack (room_name conv n) (can_view conv n actor db)

  abbrev pub join_undenied : ℕ → Denylist → AccessPrincipal → Number → Db → JoinAck
  join_undenied now none p order_id db = join_unavailable
  join_undenied now (some s) p order_id db =
      if is_denied p.jti p.family_id now s
      then join_unauthorized
      else join_order order_id p.user_id db

  -- `handleJoin` of a socket with its principal
  unfoldable pub handle_join : ℕ → Denylist → Option AccessPrincipal → Number → Db → JoinAck
  unfolding is_denied can_view
  handle_join now d none order_id db = join_unauthorized
  handle_join now d (some p) order_id db =
      if ltb now (p.expires_at * 1000)
      then (if is_integer order_id then join_undenied now d p order_id db else order_id_required)
      else join_unauthorized
