-- ===== src/Products/Report.antt =====
-- src/report.ts: the products by their sales, as one query with GROUP BY reads them. Rows of equal
-- revenue may come in either order; here they stay in the order of the table.
mod Tests
pub mod Sales
use marketplace_api.Prelude.{
  All, All-mono, Bool, Bool-cases, In, List, Text, [], arith, if◌then◌else◌, inl, inr, leb, map, ℕ,
  ◌∷◌, ◌≤◌, ◌*◌, ◌^◌,
}
use marketplace_api.Store.{Db, Product, OrderItem}
use marketplace_api.Sql.{select, contains}
use marketplace_api.Products.Card.{units_of, of_product, revenue_of}
use marketplace_api.Store.Tx.{Result, err, database_error, ok}

pub record SalesRow : Type 0 where
  pub product_id : ℕ
  pub product_name : Text
  pub total_quantity : ℕ
  pub total_revenue_cents : ℕ

-- The items that the join gives to a product
abbrev pub items_of : Db → Product → List OrderItem
items_of db p = select (of_product p.id) db.order_items

-- SELECT, over a group
abbrev pub sales_row : Db → Product → SalesRow
sales_row db p = record {
  product_id = p.id;
  product_name = p.name;
  total_quantity = units_of (items_of db p);
  total_revenue_cents = revenue_of (items_of db p);
}

-- The inner join has a row for the product.
abbrev pub has_sales : Db → Product → Bool
has_sales db p = contains (of_product p.id) db.order_items

-- ORDER BY "totalRevenueCents" DESC
abbrev pub insert_sales_row : SalesRow → List SalesRow → List SalesRow
insert_sales_row r [] = r ∷ []
insert_sales_row r (s ∷ ss) =
    let rest = insert_sales_row r ss in
    if leb s.total_revenue_cents r.total_revenue_cents then r ∷ s ∷ ss else s ∷ rest

abbrev pub sort_rows : List SalesRow → List SalesRow
sort_rows [] = []
sort_rows (r ∷ rs) = insert_sales_row r (sort_rows rs)

-- The factors are int4 columns, and so is their product.
abbrev pub overflows : OrderItem → Bool
overflows r = leb (2 ^ 31) (r.quantity * r.price_at_purchase_cents)

-- The query of `main`; every line has its product by a foreign key, so one line that overflows
-- fails the query.
unfoldable pub sales_report : Db → Result (List SalesRow)
sales_report db =
    if contains overflows db.order_items
    then err database_error
    else ok (sort_rows (map (sales_row db) (select (has_sales db) db.products)))

-- Each row is at least as high as those behind it.
abbrev pub IsDescending : List SalesRow → Type 0
IsDescending [] = Unit
IsDescending (r ∷ rs) =
    All (λ s. s.total_revenue_cents ≤ r.total_revenue_cents) rs × IsDescending rs
