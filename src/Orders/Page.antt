-- ===== src/Orders/Page.antt =====
-- `findAll` of src/orders/orders.service.ts: one page of the orders that the actor may see. The page
-- size is a natural number; what `parseInt` makes of the query is left to the caller.
mod Tests
pub mod Walk
pub mod Visible
use marketplace_api.Prelude.{Conversions, List, Option, Text, if◌then◌else◌, map, ℕ}
use marketplace_api.Pagination.{Cursors, PaginatedResult}
use marketplace_api.Store.{Order, Db}
use marketplace_api.Pagination.Keyset.{keyset_page}
use marketplace_api.Orders.Read.{is_admin, role_of, OrderResponse, owned_by, load_order}
use marketplace_api.Store.Tx.{Result, err, ok}
use marketplace_api.Sql.{select}

module _ (conv : Conversions) (cursors : Cursors) where
  abbrev pub order_key : Order → ℕ
  order_key o = o.id

  -- WHERE user = actorId, but for an admin
  abbrev pub visible_to : ℕ → Db → List Order
  visible_to actor db =
      if is_admin conv (role_of conv actor db)
      then db.orders
      else select (owned_by conv actor) db.orders

  abbrev pub shown_page :
      Db → Result (PaginatedResult Order) → Result (PaginatedResult OrderResponse)
  shown_page db (err e) = err e
  shown_page db (ok p) =
      ok (record { items = map (load_order conv db) p.items; next_cursor = p.next_cursor })

  -- `findAll`
  unfoldable pub find_all : ℕ → Option Text → ℕ → Db → Result (PaginatedResult OrderResponse)
  unfolding keyset_page
  find_all limit cursor actor db =
      shown_page db (keyset_page conv cursors order_key limit cursor (visible_to actor db))
