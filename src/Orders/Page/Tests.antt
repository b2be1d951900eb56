-- ===== src/Orders/Page/Tests.antt =====
-- Three orders of two clients, and the client of two of them.
use marketplace_api.Prelude.{
  All, Option, Text, [], arith, none, refl, some, text, unary, ℕ, ◌∷◌, ◌≡◌, ◌≢◌,
}
use marketplace_api.Store.{Order, Db, OrderStatus, empty_db}
use marketplace_api.Pagination.{Cursors, PaginatedResult}
use marketplace_api.Orders.Page.{find_all}
use marketplace_api.Orders.Page.Visible.{Listed, find_all-Listed}
use marketplace_api.Orders.Page.Walk.{walk_orders, walk_orders_complete}
use marketplace_api.Orders.Read.{OrderResponse, load_order}
use marketplace_api.Pagination.Keyset.{keyset_page, page_of}
use marketplace_api.Store.Tx.{ok}

abbrev order_of : ℕ → ℕ → Order
order_of i u = record {
  id = i;
  user_id = some u;
  customer_email = text "a@x";
  status = OrderStatus.created;
  total_cents = 100;
  currency = text "UAH";
}

abbrev shop : Db
shop = record empty_db { orders = order_of 3 1 ∷ order_of 2 7 ∷ order_of 1 1 ∷ [] }

-- A cursor is the id after one more letter.
abbrev without_mark : Text → Option Text
without_mark [] = none
without_mark (c ∷ cs) = some cs

letter-ne_nil : (t : Text) → b'c' ∷ t ≢ []
letter-ne_nil t e = absurd (cc)

abbrev letter_cursors : Cursors
letter_cursors = record {
  encode = λ t. b'c' ∷ t;
  decode = without_mark;
  decode-encode = λ t. refl;
  encode-ne-nil = letter-ne_nil;
}

abbrev first_page : PaginatedResult OrderResponse
first_page = record {
  items = load_order unary shop (order_of 1 1) ∷ load_order unary shop (order_of 3 1) ∷ [];
  next_cursor = none;
}

listed : find_all unary letter_cursors 2 none 1 shop ≡ ok first_page
unfolding find_all keyset_page page_of unary
listed = refl

find_all-Listed_example : All (Listed unary letter_cursors 1 shop) first_page.items
find_all-Listed_example = find_all-Listed unary letter_cursors 2 none 1 shop first_page listed

walk_orders_complete_example :
    walk_orders unary letter_cursors 3 1 none 1 shop ≡ some first_page.items
walk_orders_complete_example =
    walk_orders_complete unary letter_cursors 3 0 1 shop
      (omega arith, (omega arith, tt), (omega arith, tt, tt)) (omega arith, (omega arith, tt))
      (omega arith)
