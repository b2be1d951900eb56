-- ===== src/Orders/Gateway/Join.antt =====
-- Who follows an order.
use marketplace_api.Prelude.{
  Bool, Conversions, Number, Text, arith, false, nat, some, true, ℕ, ◌*◌, ◌<◌, ◌≡◌, Option-cases,
  fraction, inl, inr, nan, negative, refl,
}
use marketplace_api.Auth.Guards.{Denylist}
use marketplace_api.Store.Tx.{Result, ok}
use marketplace_api.Orders.Gateway.{handle_join, view_ack, joined, room_name, join_order}
use marketplace_api.Auth.Tokens.{AccessPrincipal}
use marketplace_api.Store.{Db}
use marketplace_api.Redis.{Redis}
use marketplace_api.Auth.Denylist.{is_denied}
use marketplace_api.Orders.Read.Access.{Visible, can-Visible}
use marketplace_api.Orders.Read.{can_view}

module _ (conv : Conversions) where
  pub record Follows (now : ℕ) (d : Denylist) (p : AccessPrincipal) (order_id : Number) (db : Db)
      (room : Text) : Type 0 where
    pub alive : now < p.expires_at * 1000
    pub redis : Redis Text
    pub reached : d ≡ some redis
    pub allowed : is_denied p.jti p.family_id now redis ≡ false
    pub number : ℕ
    pub named : order_id ≡ nat number
    pub own_room : room ≡ room_name conv number
    pub visible : Visible conv (nat number) p.user_id db

  view-joined :
      (room room' : Text) (r : Result Bool) → view_ack conv room r ≡ joined room' → r ≡ ok true
  view-joined room room' r h = ground (arith, h)

  join_order-Visible :
      (order_id : Number) (actor : ℕ) (db : Db) (room : Text)
      → join_order conv order_id actor db ≡ joined room
      → (n : ℕ) × (order_id ≡ nat n) × (room ≡ room_name conv n) × Visible conv (nat n) actor db
  join_order-Visible nan actor db room h = absurd (cc)
  join_order-Visible fraction actor db room h = absurd (cc)
  join_order-Visible (negative n) actor db room h = absurd (ground (arith, h))
  join_order-Visible (nat n) actor db room h =
      let seen = view-joined (room_name conv n) room (can_view conv n actor db) h in
      (n, refl, ground (arith, h, seen), can-Visible conv n actor db seen)

  -- A socket joins a room only before its token expires, with a denylist that can be reached and
  -- denies neither the token nor its family, and only the room of an order that its user may see.
  pub handle_join-Follows :
      (now : ℕ) (d : Denylist) (p : AccessPrincipal) (order_id : Number) (db : Db) (room : Text)
      → handle_join conv now d (some p) order_id db ≡ joined room
      → Follows now d p order_id db room
  unfolding handle_join
  handle_join-Follows now d p order_id db room h = elim (Option-cases d) [
    | inl e ↦ absurd (ground (arith, e, h))
    | inr (s, e) ↦
        let (n, named, own, visible) =
          join_order-Visible order_id p.user_id db room (ground (arith, e, h)) in
        record {
          alive = ground (arith, h);
          redis = s;
          reached = e;
          allowed = ground (arith, e, h);
          number = n;
          named = named;
          own_room = own;
          visible = visible;
        }
  ]
