-- ===== src/Pagination/Keyset.antt =====
-- One keyset page: the rows after an id, in the order of their ids, and the cursor to the next.
use marketplace_api.Pagination.{Cursors, PaginatedResult}
use marketplace_api.Sql.{select}
use marketplace_api.Store.Tx.{Result, ok, err, database_error}
use marketplace_api.Prelude.{
  Bool, Conversions, List, Number, Option, Text, [], fraction, if◌then◌else◌, last?, leb, length,
  ltb, nan, nat, negative, none, some, take, ℕ, ◌+◌, ◌==◌, ◌||◌, ◌∷◌, ◌^◌,
}

-- `afterId`: 0, which is no filter, without a cursor, for a cursor that does not decode, and for
-- an id that is NaN. A negative number filters nothing either. A fraction, and a number that is no
-- int4, fail in the query.
abbrev pub after_number : Number → Result ℕ
after_number nan = ok 0
after_number fraction = err database_error
after_number (negative n) = if ltb n (2 ^ 31) then ok 0 else err database_error
after_number (nat n) = if ltb n (2 ^ 31) then ok n else err database_error

module _ (conv : Conversions) (cursors : Cursors) where
  abbrev pub after_id : Option Text → Result ℕ
  after_id none = ok 0
  after_id (some []) = ok 0
  after_id (some (c ∷ cs)) = elim (cursors.decode (c ∷ cs)) [
    | none ↦ ok 0
    | some i ↦ after_number (conv.number i)
  ]

  module _ {A : Type 0} (key : A → ℕ) where
    -- ORDER BY id ASC
    abbrev pub insert_by_key : A → List A → List A
    insert_by_key a [] = a ∷ []
    insert_by_key a (x ∷ xs) = if leb (key a) (key x) then a ∷ x ∷ xs else x ∷ insert_by_key a xs

    abbrev pub sort_by_key : List A → List A
    sort_by_key [] = []
    sort_by_key (x ∷ xs) = insert_by_key x (sort_by_key xs)

    -- WHERE id > afterId, if afterId
    abbrev pub comes_after : ℕ → A → Bool
    comes_after k a = k == 0 || ltb k (key a)

    abbrev pub cursor_at : Option A → Option Text
    cursor_at none = none
    cursor_at (some a) = some (cursors.encode (conv.string (key a)))

    -- `rows` is what the query returns for LIMIT limit + 1.
    unfoldable pub page_of : ℕ → List A → PaginatedResult A
    page_of limit rows = record {
      items = take limit rows;
      next_cursor = if ltb limit (length rows) then cursor_at (last? (take limit rows)) else none;
    }

    abbrev pub page_after : ℕ → List A → Result ℕ → Result (PaginatedResult A)
    page_after limit visible (err e) = err e
    page_after limit visible (ok k) =
        ok (page_of limit (take (limit + 1) (sort_by_key (select (comes_after k) visible))))

    -- The page of one request over the rows that the requester may see.
    unfoldable pub keyset_page : ℕ → Option Text → List A → Result (PaginatedResult A)
    unfolding page_of
    keyset_page limit cursor visible = page_after limit visible (after_id cursor)
