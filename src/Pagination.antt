-- ===== src/Pagination.antt =====
-- src/common/pagination.ts, and the keyset pages that both `findAll` methods build with it
-- (src/products/products.service.ts, src/orders/orders.service.ts).
mod Tests
pub mod Order
pub mod Keyset
pub mod Walk
use marketplace_api.Store.Tx.{Result, ok, err, database_error}
use marketplace_api.Prelude.{
  List, Option, Text, [], drop, if◌then◌else◌, last?, length, ltb, none, some, suc, take, text_eq,
  ℕ, ◌+◌, ◌∷◌, ◌≡◌, ◌≢◌,
}

-- `encodeCursor` and `decodeCursor`, base64url of a JSON object with the id: what is decoded is
-- what was encoded, and a cursor is never the empty text.
pub record Cursors : Type 0 where
  pub encode : Text → Text
  pub decode : Text → Option Text
  pub decode-encode : (id : Text) → decode (encode id) ≡ some id
  pub encode-ne-nil : (id : Text) → encode id ≢ []

-- `PaginatedResult`
pub record PaginatedResult (A : Type 0) : Type 0 where
  pub items : List A
  pub next_cursor : Option Text

module _ {A : Type 0} (id : A → Text) (cursors : Cursors) where
  -- list.findIndex((item) => item.id === id) + 1, or 0 where there is none
  abbrev pub index_after : Text → List A → Option ℕ
  index_after i [] = none
  index_after i (x ∷ xs) =
      if text_eq (id x) i
      then some 1
      else elim (index_after i xs) [ none ↦ none | some n ↦ some (suc n) ]

  abbrev pub start_index : Option Text → List A → ℕ
  start_index none list = 0
  start_index (some []) list = 0
  start_index (some (c ∷ cs)) list = elim (cursors.decode (c ∷ cs)) [
    | none ↦ 0
    | some i ↦ elim (index_after i list) [ none ↦ 0 | some n ↦ n ]
  ]

  abbrev pub cursor_of_last : Option A → Option Text
  cursor_of_last none = none
  cursor_of_last (some x) = some (cursors.encode (id x))

  -- `paginate`
  unfoldable pub paginate : List A → ℕ → Option Text → PaginatedResult A
  paginate list limit cursor =
      let start = start_index cursor list in
      let page = take limit (drop start list) in
      record {
        items = page;
        next_cursor =
            if ltb (start + limit) (length list) then cursor_of_last (last? page) else none;
      }
