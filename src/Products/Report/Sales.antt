-- ===== src/Products/Report/Sales.antt =====
-- The report against the cards of the products.
use marketplace_api.Sql.{select, contains}
use marketplace_api.Sql.{In-select_intro, In-select}
use marketplace_api.Prelude.{
  All, All-mono, Bool, Bool-cases, Conversions, In, List, [], ap, arith, inl, inr, leb, map, refl,
  some, true, ◌<◌, ◌^◌, ◌∷◌, ◌≡◌, ◌≤◌, false, sum_of, ◌==◌, ◌⊎◌,
}
use marketplace_api.Products.Report.{
  SalesRow, sales_report, insert_sales_row, sort_rows, IsDescending, has_sales, sales_row, items_of,
  overflows,
}
use marketplace_api.Store.{Db, Product, OrderItem}
use marketplace_api.Sql.{find}
use marketplace_api.Products.Card.{load_card, has_product, ProductCard, card_of}
use marketplace_api.Store.Tx.{ok, err, database_error}
use marketplace_api.Products.Card.Sums.{cents_of, units_of-sum, revenue_of-sum}

module _ (P : SalesRow → Type 0) where
  insert_sales_row-All :
      (r : SalesRow) (ss : List SalesRow) → P r → All P ss → All P (insert_sales_row r ss)
  insert_sales_row-All r [] p h = (p, tt)
  insert_sales_row-All r (s ∷ ss) p h =
      elim (Bool-cases (leb s.total_revenue_cents r.total_revenue_cents)) [
        | inl y ↦ rw y (p, h)
        | inr n ↦ rw n (h.0, insert_sales_row-All r ss p h.1)
      ]

  sort_rows-All : (rs : List SalesRow) → All P rs → All P (sort_rows rs)
  sort_rows-All [] h = tt
  sort_rows-All (r ∷ rs) h = insert_sales_row-All r (sort_rows rs) h.0 (sort_rows-All rs h.1)

insert_sales_row-IsDescending :
    (r : SalesRow) (ss : List SalesRow) → IsDescending ss → IsDescending (insert_sales_row r ss)
insert_sales_row-IsDescending r [] h = (tt, tt)
insert_sales_row-IsDescending r (s ∷ ss) h =
    elim (Bool-cases (leb s.total_revenue_cents r.total_revenue_cents)) [
      | inl y ↦ rw y (
        (
          ground (arith, y),
          All-mono (λ t. t.total_revenue_cents ≤ s.total_revenue_cents)
              (λ t. t.total_revenue_cents ≤ r.total_revenue_cents) (λ t k. ground (arith, y, k)) ss
              h.0,
        ),
        h,
      )
      | inr n ↦ rw n (
        insert_sales_row-All (λ t. t.total_revenue_cents ≤ s.total_revenue_cents) r ss
            (ground (arith, n)) h.0,
        insert_sales_row-IsDescending r ss h.1,
      )
    ]

sort_rows-IsDescending : (rs : List SalesRow) → IsDescending (sort_rows rs)
sort_rows-IsDescending [] = tt
sort_rows-IsDescending (r ∷ rs) =
    insert_sales_row-IsDescending r (sort_rows rs) (sort_rows-IsDescending rs)

In-behind :
    (r a s : SalesRow) (ss rest : List SalesRow)
    → (In a (r ∷ ss) → In a rest)
    → In a (r ∷ s ∷ ss)
    → In a (s ∷ rest)
In-behind r a s ss rest f (inl e) = inr (f (inl e))
In-behind r a s ss rest f (inr (inl e)) = inl e
In-behind r a s ss rest f (inr (inr i)) = inr (f (inr i))

In-insert_sales_row :
    (r a : SalesRow) (ss : List SalesRow) → In a (r ∷ ss) → In a (insert_sales_row r ss)
In-insert_sales_row r a [] h = h
In-insert_sales_row r a (s ∷ ss) h =
    let deeper = In-behind r a s ss (insert_sales_row r ss) (In-insert_sales_row r a ss) h in
    elim (Bool-cases (leb s.total_revenue_cents r.total_revenue_cents)) [
      | inl y ↦ rw y h
      | inr n ↦ rw n deeper
    ]

In-sort_rows : (a : SalesRow) (rs : List SalesRow) → In a rs → In a (sort_rows rs)
In-sort_rows a [] h = absurd h
In-sort_rows a (r ∷ rs) (inl e) = In-insert_sales_row r a (sort_rows rs) (inl e)
In-sort_rows a (r ∷ rs) (inr h) = In-insert_sales_row r a (sort_rows rs) (inr (In-sort_rows a rs h))

In-map : {A B : Type 0} (f : A → B) (a : A) (xs : List A) → In a xs → In (f a) (map f xs)
In-map f a [] h = absurd h
In-map f a (x ∷ xs) (inl e) = inl (ap f e)
In-map f a (x ∷ xs) (inr h) = inr (In-map f a xs h)

-- The lines of a product.
abbrev pub lines_of : Db → Product → List OrderItem
lines_of db p = select (λ r. r.product_id == p.id) db.order_items

contains-In :
    (p : OrderItem → Bool) (xs : List OrderItem)
    → contains p xs ≡ true
    → (a : OrderItem) × In a xs × (p a ≡ true)
contains-In p [] h = absurd (cc)
contains-In p (x ∷ xs) h = elim (Bool-cases (p x)) [
  | inl y ↦ (x, inl refl, y)
  | inr n ↦ let (a, i, y) = contains-In p xs (ground (arith, n, h)) in (a, inr i, y)
]

cheap-All :
    (xs : List OrderItem) → contains overflows xs ≡ false → All (λ r. cents_of r < 2 ^ 31) xs
cheap-All [] h = tt
cheap-All (x ∷ xs) h = elim (Bool-cases (overflows x)) [
  | inl y ↦ absurd (ground (arith, y, h))
  | inr n ↦ (ground (arith, n), cheap-All xs (ground (arith, n, h)))
]

-- A row of the report is that of a product with sales.
abbrev pub IsSold : Db → SalesRow → Type 0
IsSold db r = (q : Product) × In q db.products × (has_sales db q ≡ true) × (r ≡ sales_row db q)

sales_row-IsSold :
    (db : Db) (ps : List Product)
    → ((q : Product) → In q ps → In q db.products × (has_sales db q ≡ true))
    → All (IsSold db) (map (sales_row db) ps)
sales_row-IsSold db [] h = tt
sales_row-IsSold db (p ∷ ps) h =
    let (here, sold) = h p (inl refl) in
    ((p, here, sold, refl), sales_row-IsSold db ps (λ q i. h q (inr i)))

find-In : (p : Product → Bool) (xs : List Product) (a : Product) → find p xs ≡ some a → In a xs
find-In p [] a h = absurd (cc)
find-In p (x ∷ xs) a h = elim (Bool-cases (p x)) [
  | inl y ↦ inl (ground (arith, y, h))
  | inr n ↦ inr (find-In p xs a (ground (arith, n, h)))
]

-- The report is made where no line of an order is too dear for an int4. Then a product with sales,
-- under its own id in the table, and with fewer units than an int4 can hold, has a row: its units are
-- the sum over its lines, its revenue that of each line at its price, and the card of the product
-- shows the same. The rows are those of products with sales, by descending revenue. Where a line is
-- too dear, the report fails, while the card still has its revenue.
pub sales_report-load_card :
    (conv : Conversions) (db : Db) (p : Product)
    → find (has_product p.id) db.products ≡ some p
    → has_sales db p ≡ true
    → p.id < 2 ^ 31
    → sum_of (λ r. r.quantity) (lines_of db p) < 2 ^ 31
    → (card : ProductCard) × (load_card conv p.id db ≡ ok (some card))
      × (card.units_sold ≡ sum_of (λ r. r.quantity) (lines_of db p))
      × (card.revenue_cents ≡ sum_of cents_of (lines_of db p))
      × (((db_line : OrderItem) × In db_line db.order_items
            × (2 ^ 31 ≤ cents_of db_line)
            × (sales_report db ≡ err database_error))
          ⊎ (All (λ r. cents_of r < 2 ^ 31) db.order_items
              × (rows : List SalesRow) × (sales_report db ≡ ok rows)
              × IsDescending rows
              × All (IsSold db) rows
              × (row : SalesRow) × In row rows
              × (row.product_id ≡ p.id)
              × (row.total_quantity ≡ card.units_sold)
              × (row.total_revenue_cents ≡ card.revenue_cents)))
unfolding sales_report load_card
sales_report-load_card conv db p listed sold small few =
    let rows = items_of db p in
    let units = units_of-sum rows in
    (
      card_of conv p rows,
      ground (arith, listed, small, few, units),
      units,
      revenue_of-sum rows,
      elim (Bool-cases (contains overflows db.order_items)) [
        | inl y ↦
            let (r, there, dear) = contains-In overflows db.order_items y in
            inl (r, there, ground (arith, dear), rw y refl)
        | inr n ↦ inr (
          cheap-All db.order_items n,
          _,
          rw n refl,
          sort_rows-IsDescending (map (sales_row db) (select (has_sales db) db.products)),
          sort_rows-All (IsSold db) _
              (sales_row-IsSold db _ (λ q i. In-select (has_sales db) q db.products i)),
          sales_row db p,
          In-sort_rows (sales_row db p) _ (
              In-map (sales_row db) p _ (
                In-select_intro (has_sales db) p db.products (find-In _ db.products p listed)
                  sold)),
          refl,
          refl,
          refl,
        )
      ],
    )
