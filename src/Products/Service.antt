-- ===== src/Products/Service.antt =====
-- `create`, `findOne` and `findAll` of src/products/products.service.ts. The sequence of ids is an
-- argument; validation keeps a price and a stock within an int4.
pub mod Created
mod Tests
use marketplace_api.Prelude.{
  Bool, Conversions, Option, Text, [], if◌then◌else◌, ltb, none, some, text, text_eq, ℕ, ◌&&◌, ◌++◌,
  ◌^◌, ◌∷◌, map,
}
use marketplace_api.Store.{Product, Db}
use marketplace_api.Store.Tx.{Result, err, ok, conflict, not_found, database_error}
use marketplace_api.Orders.Create.{find_product}
use marketplace_api.Sql.{contains}
use marketplace_api.Pagination.{PaginatedResult, Cursors}
use marketplace_api.Pagination.Keyset.{keyset_page}

-- `CreateProductDto`
pub record CreateProductDto : Type 0 where
  pub name : Text
  pub price_cents : ℕ
  pub stock : ℕ
  pub currency : Option Text

-- `Product` as it is sent
pub record ProductResponse : Type 0 where
  pub id : Text
  pub name : Text
  pub price_cents : ℕ
  pub currency : Text

abbrev pub has_name : Text → Product → Bool
has_name n p = text_eq p.name n

abbrev pub or_uah : Option Text → Text
or_uah none = text "UAH"
or_uah (some c) = c

abbrev pub new_product : ℕ → CreateProductDto → Product
new_product i dto = record {
  id = i;
  name = dto.name;
  price_cents = dto.price_cents;
  stock = dto.stock;
  currency = or_uah dto.currency;
}

module _ (conv : Conversions) where
  -- `toResponse`
  abbrev pub product_response : Product → ProductResponse
  product_response p = record {
    id = conv.string p.id;
    name = p.name;
    price_cents = p.price_cents;
    currency = p.currency;
  }

  abbrev pub product_or_404 : Result (Option Product) → Result ProductResponse
  product_or_404 (err e) = err e
  product_or_404 (ok none) = err not_found
  product_or_404 (ok (some p)) = ok (product_response p)

  -- `findOne`
  unfoldable pub find_product_one : Text → Db → Result ProductResponse
  unfolding find_product
  find_product_one product_id db =
      product_or_404 (find_product (conv.number product_id) db.products)

  -- `create`: a name that is taken is a conflict.
  unfoldable pub create_product : ℕ → CreateProductDto → Db → Result ProductResponse × Db
  create_product next_id dto db =
      if ltb dto.price_cents (2 ^ 31) && ltb dto.stock (2 ^ 31)
      then (if contains (has_name dto.name) db.products then (err conflict, db) else (
        ok (product_response (new_product next_id dto)),
        record db { products = db.products ++ new_product next_id dto ∷ [] },
      ))
      else (err database_error, db)

  abbrev pub product_key : Product → ℕ
  product_key p = p.id

  abbrev pub product_page :
      Result (PaginatedResult Product) → Result (PaginatedResult ProductResponse)
  product_page (err e) = err e
  product_page (ok p) =
      ok (record { items = map product_response p.items; next_cursor = p.next_cursor })

  -- `findAll`
  unfoldable pub find_all_products :
      Cursors → ℕ → Option Text → Db → Result (PaginatedResult ProductResponse)
  unfolding keyset_page
  find_all_products cursors limit cursor db =
      product_page (keyset_page conv cursors product_key limit cursor db.products)
