-- ===== src/Api/Tests.antt =====
-- A seller who changes the status of an order, and its owner who reads it.
use marketplace_api.Prelude.{
  Option, Text, Text-discrete, [], none, refl, some, tally, text, unary, ℕ, ℕ_discrete, ◌++◌, ◌∷◌,
  ◌≡◌, ◌≢◌, ◌⊎◌,
}
use marketplace_api.Store.{UserRole, Order, seller, customer, User, paid, empty_db, packed}
use marketplace_api.Api.{
  Server, Route, serve_request, patch_status, HttpReply, get_order, request_to, one_order,
}
use marketplace_api.Pagination.{Cursors}
use marketplace_api.Auth.Tokens.{AccessPrincipal, sign_access}
use marketplace_api.Store.Tx.{Result, err, forbidden, ok}
use marketplace_api.Orders.Status.{update_status}
use marketplace_api.Orders.Read.{find_one_for, load_order}
use marketplace_api.Auth.Guards.Laws.{Admitted}
use marketplace_api.Auth.Service.Spelled.{spell, spelled, spelled_keys}
use marketplace_api.Orders.Events.{no_events}
use marketplace_api.Api.Entitled.{IsMerchant, serve_request-IsMerchant, serve_request-Visible}
use marketplace_api.Orders.Read.Access.{Visible}

abbrev crypto_sign : ℕ → UserRole → Text → Text
crypto_sign user_id role jti = sign_access spell 100 user_id role (text "f") jti

abbrev user_of : ℕ → UserRole → User
user_of id role = record {
  id = id;
  email = text "a@x";
  name = text "A";
  password_hash = none;
  role = role;
  balance_cents = 0;
}

abbrev the_order : Order
the_order = record {
  id = 1;
  user_id = some 2;
  customer_email = text "a@x";
  status = paid;
  total_cents = 100;
  currency = text "UAH";
}

abbrev server : Server
server = record {
  db = record empty_db {
    users = user_of 1 seller ∷ user_of 2 customer ∷ [];
    orders = the_order ∷ [];
  };
  events = no_events;
  denylist = some (λ k. none);
}

abbrev strip : Text → Option Text
strip [] = none
strip (c ∷ cs) = some cs

mark-full : (t : Text) → b'c' ∷ t ≢ []
mark-full t e = absurd (cc)

abbrev no_cursors : Cursors
no_cursors = record {
  encode = λ t. b'c' ∷ t;
  decode = strip;
  decode-encode = λ t. refl;
  encode-ne-nil = mark-full;
}

abbrev seller_bearer : Text
seller_bearer = text "Bearer " ++ crypto_sign 1 seller (text "j")

abbrev customer_bearer : Text
customer_bearer = text "Bearer " ++ crypto_sign 2 customer (text "k")

abbrev answer_to : Route → Text → Result HttpReply × Server
answer_to route authorization =
    serve_request unary no_cursors 7 spelled spelled_keys 200000 route authorization server

patched :
    (answer_to (patch_status (tally 1) packed) seller_bearer).1.db.orders
    ≡ record the_order { status = packed } ∷ []
unfolding serve_request update_status Text-discrete ℕ_discrete unary spell spelled
patched = refl

customer_refused : (answer_to (patch_status (tally 1) packed) customer_bearer).0 ≡ err forbidden
unfolding serve_request update_status Text-discrete ℕ_discrete unary spell spelled
customer_refused = refl

serve_request-IsMerchant_example :
    ((answer_to (patch_status (tally 1) packed) seller_bearer).1 ≡ server)
    ⊎ IsMerchant unary no_cursors 7 spelled spelled_keys 200000
        (patch_status (tally 1) packed)
        seller_bearer
        server
serve_request-IsMerchant_example =
    serve_request-IsMerchant unary no_cursors 7 spelled spelled_keys 200000
      (patch_status (tally 1) packed) seller_bearer server

shown :
    (answer_to (get_order (tally 1)) customer_bearer).0
    ≡ ok (one_order (load_order unary server.db the_order))
unfolding serve_request find_one_for Text-discrete ℕ_discrete unary spell spelled
shown = refl

serve_request-Visible_example :
    (q : AccessPrincipal) × Admitted spelled spelled_keys 200000 server.denylist server.db
      (request_to (get_order (tally 1)) customer_bearer)
      q
    × (v : Visible unary (unary.number (tally 1)) q.user_id server.db) × (◌≡◌ {A = HttpReply}
        (one_order (load_order unary server.db the_order))
        (one_order (load_order unary server.db v.order)))
serve_request-Visible_example =
    serve_request-Visible unary no_cursors 7 spelled spelled_keys 200000 (tally 1) customer_bearer
      server (one_order (load_order unary server.db the_order)) shown
