-- ===== src/Api.antt =====
-- The routes of src/orders/orders.controller.ts and src/products/products.controller.ts that read and
-- write the tables, behind the global guards. The creation of an order and the card of a product are
-- in `Orders.Controller` and `Products.Controller`; parseInt of a page size is left to the caller.
mod Tests
pub mod Entitled
use marketplace_api.Prelude.{
  Bool, Conversions, List, Option, Text, [], false, none, some, true, ℕ, ◌∷◌,
}
use marketplace_api.Store.{OrderStatus, UserRole, Db, seller, admin}
use marketplace_api.Auth.Guards.{Request, Verdict, admit, Denylist}
use marketplace_api.Pagination.{PaginatedResult, Cursors}
use marketplace_api.Store.Tx.{Result, ok, err, internal_error}
use marketplace_api.Products.Service.{
  CreateProductDto, ProductResponse, find_all_products, find_product_one, create_product,
}
use marketplace_api.Orders.Events.{OrderEvents}
use marketplace_api.Orders.Read.{OrderResponse, find_one_for}
use marketplace_api.Orders.Status.{update_status}
use marketplace_api.Auth.Tokens.{AccessPrincipal, Jwt, KeyStore}
use marketplace_api.Orders.Page.{find_all}

-- A route with what it takes of the request
pub data Route : Type 0 where
  list_orders : Option ℕ → Option Text → Route
  get_order : Text → Route
  patch_status : Text → OrderStatus → Route
  list_products : Option ℕ → Option Text → Route
  get_product : Text → Route
  post_product : CreateProductDto → Route

-- `@Public()`
abbrev pub is_public_route : Route → Bool
is_public_route (list_products limit cursor) = true
is_public_route (get_product id) = true
is_public_route (list_orders limit cursor) = false
is_public_route (get_order id) = false
is_public_route (patch_status id status) = false
is_public_route (post_product dto) = false

-- `@Roles('seller', 'admin')`
abbrev pub roles_of_route : Route → List UserRole
roles_of_route (patch_status id status) = seller ∷ admin ∷ []
roles_of_route (post_product dto) = seller ∷ admin ∷ []
roles_of_route (list_orders limit cursor) = []
roles_of_route (get_order id) = []
roles_of_route (list_products limit cursor) = []
roles_of_route (get_product id) = []

abbrev pub request_to : Route → Text → Request
request_to route authorization = record {
  is_http = true;
  is_public = is_public_route route;
  required_roles = roles_of_route route;
  authorization = authorization;
}

pub record Server : Type 0 where
  pub db : Db
  pub events : OrderEvents
  pub denylist : Denylist

pub data HttpReply : Type 0 where
  order_list : PaginatedResult OrderResponse → HttpReply
  one_order : OrderResponse → HttpReply
  product_list : PaginatedResult ProductResponse → HttpReply
  one_product : ProductResponse → HttpReply

abbrev pub reply : {A : Type 0} → (A → HttpReply) → Result A → Result HttpReply
reply f (ok a) = ok (f a)
reply f (err e) = err e

-- limit ? parseInt(limit, 10) : 20
abbrev pub page_limit : Option ℕ → ℕ
page_limit none = 20
page_limit (some n) = n

module _ (conv : Conversions) (cursors : Cursors) (next_id : ℕ) where
  -- `findAll`, `findOne` and `updateStatus` of the orders
  abbrev pub orders_find_all :
      Option ℕ → Option Text → AccessPrincipal → Server → Result HttpReply × Server
  orders_find_all limit cursor user s =
      (reply order_list (find_all conv cursors (page_limit limit) cursor user.user_id s.db), s)

  abbrev pub orders_find_one : Text → AccessPrincipal → Server → Result HttpReply × Server
  orders_find_one id user s = (reply one_order (find_one_for conv id user.user_id s.db), s)

  abbrev pub orders_update_status : Text → OrderStatus → Server → Result HttpReply × Server
  orders_update_status id status s =
      let (r, (db', events')) = update_status conv id status (s.db, s.events) in
      (reply one_order r, record s { db = db'; events = events' })

  -- `findAll`, `findOne` and `create` of the products
  abbrev pub products_find_all : Option ℕ → Option Text → Server → Result HttpReply × Server
  products_find_all limit cursor s =
      (reply product_list (find_all_products conv cursors (page_limit limit) cursor s.db), s)

  abbrev pub products_find_one : Text → Server → Result HttpReply × Server
  products_find_one id s = (reply one_product (find_product_one conv id s.db), s)

  abbrev pub products_create : CreateProductDto → Server → Result HttpReply × Server
  products_create dto s =
      let (r, db') = create_product conv next_id dto s.db in
      (reply one_product r, record s { db = db' })

  -- The handlers that take no user; the others fail without one.
  abbrev pub handle_open : Route → Server → Result HttpReply × Server
  handle_open (patch_status id status) s = orders_update_status id status s
  handle_open (list_products limit cursor) s = products_find_all limit cursor s
  handle_open (get_product id) s = products_find_one id s
  handle_open (post_product dto) s = products_create dto s
  handle_open (list_orders limit cursor) s = (err internal_error, s)
  handle_open (get_order id) s = (err internal_error, s)

  -- The handler of a route, with the principal that the guards attached
  abbrev pub handle_route : Option AccessPrincipal → Route → Server → Result HttpReply × Server
  handle_route (some p) (list_orders limit cursor) s = orders_find_all limit cursor p s
  handle_route (some p) (get_order id) s = orders_find_one id p s
  handle_route p route s = handle_open route s

  abbrev pub after_guards : Verdict → Route → Server → Result HttpReply × Server
  after_guards (err e) route s = (err e, s)
  after_guards (ok p) route s = handle_route p route s

  -- A request to a route
  unfoldable pub serve_request :
      {Key : Type 0}
      → Jwt Key
      → KeyStore Key
      → ℕ
      → Route
      → Text
      → Server
      → Result HttpReply × Server
  unfolding admit
  serve_request jwt ks now_ms route authorization s =
      after_guards (admit jwt ks now_ms s.denylist s.db (request_to route authorization)) route s
