-- ===== src/Products/Report/Tests.antt =====
-- Two products with sales, and one without.
use marketplace_api.Prelude.{
  All, In, [], arith, map, refl, some, text, unary, ℕ, ◌∷◌, ◌≡◌, List, sum_of, ◌<◌, ◌^◌, ◌≤◌, ◌⊎◌,
}
use marketplace_api.Store.{Product, OrderItem, Db, empty_db}
use marketplace_api.Products.Report.{sales_report, SalesRow, IsDescending, sort_rows, sales_row}
use marketplace_api.Products.Card.{ProductCard, load_card}
use marketplace_api.Store.Tx.{ok, err, database_error}
use marketplace_api.Products.Card.Sums.{cents_of}
use marketplace_api.Products.Report.Sales.{IsSold, sales_report-load_card, lines_of}

abbrev product_named : ℕ → Product
product_named i = record {
  id = i;
  name = text "p";
  price_cents = 10;
  stock = 3;
  currency = text "UAH";
}

abbrev item : ℕ → ℕ → ℕ → OrderItem
item i quantity price = record {
  order_id = 1;
  product_id = i;
  quantity = quantity;
  price_at_purchase_cents = price;
}

abbrev sold_two : Db
sold_two = record empty_db {
  products = product_named 1 ∷ product_named 2 ∷ product_named 3 ∷ [];
  order_items = item 1 1 10 ∷ item 3 2 10 ∷ item 1 1 5 ∷ [];
}

abbrev best_first : List SalesRow
best_first = sort_rows (map (sales_row sold_two) (product_named 1 ∷ product_named 3 ∷ []))

by_revenue : map (λ r. r.product_id) best_first ≡ 3 ∷ 1 ∷ []
by_revenue = refl

two_rows : sales_report sold_two ≡ ok best_first
unfolding sales_report
two_rows = refl

sales_report-load_card_example :
    (card : ProductCard) × (load_card unary 1 sold_two ≡ ok (some card))
    × (card.units_sold ≡ sum_of (λ r. r.quantity) (lines_of sold_two (product_named 1)))
    × (card.revenue_cents ≡ sum_of cents_of (lines_of sold_two (product_named 1)))
    × (((db_line : OrderItem) × In db_line sold_two.order_items
          × (2 ^ 31 ≤ cents_of db_line)
          × (sales_report sold_two ≡ err database_error))
        ⊎ (All (λ r. cents_of r < 2 ^ 31) sold_two.order_items
            × (rows : List SalesRow) × (sales_report sold_two ≡ ok rows)
            × IsDescending rows
            × All (IsSold sold_two) rows
            × (row : SalesRow) × In row rows
            × (row.product_id ≡ 1)
            × (row.total_quantity ≡ card.units_sold)
            × (row.total_revenue_cents ≡ card.revenue_cents)))
sales_report-load_card_example =
    sales_report-load_card unary sold_two (product_named 1) refl refl (omega arith) (omega arith)
