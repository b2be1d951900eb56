-- ===== src/Orders/Page/Walk.antt =====
-- A client of `findAll` that follows the cursors.
use mathlib.Core.Option
use mathlib.Core.List.{map-append}
use marketplace_api.Prelude.{
  Conversions, List, Option, Text, ap, length, map, none, refl, some, suc, sym, zero, ℕ, ◌++◌, ◌<◌,
  ◌∙◌, ◌≡◌,
}
use marketplace_api.Pagination.{Cursors, PaginatedResult}
use marketplace_api.Orders.Read.{OrderResponse, load_order}
use marketplace_api.Store.{Db, Order}
use marketplace_api.Pagination.Walk.{walk, follow, walk_complete, AllInt4}
use marketplace_api.Store.Tx.{Result, err, ok}
use marketplace_api.Orders.Page.{find_all, order_key, visible_to, shown_page}
use marketplace_api.Pagination.Order.{Keyed}
use marketplace_api.Pagination.Keyset.{keyset_page, sort_by_key}

module _ (conv : Conversions) (cursors : Cursors) where
  abbrev pub follow_orders :
      (Text → Option (List OrderResponse))
      → Result (PaginatedResult OrderResponse)
      → Option (List OrderResponse)
  follow_orders next (err e) = none
  follow_orders next (ok p) = elim p.next_cursor [
    | none ↦ some p.items
    | some c ↦ Option.map (λ rest. p.items ++ rest) (next c)
  ]

  -- A client that asks for page after page.
  unfoldable pub walk_orders : ℕ → ℕ → Option Text → ℕ → Db → Option (List OrderResponse)
  walk_orders zero limit cursor actor db = none
  walk_orders (suc fuel) limit cursor actor db =
      follow_orders (λ c. walk_orders fuel limit (some c) actor db)
        (find_all conv cursors limit cursor actor db)

  follow-shown :
      (db : Db) (r : Result (PaginatedResult Order)) (next : Text → Option (List OrderResponse))
      (rows : Text → Option (List Order))
      → ((c : Text) → next c ≡ Option.map (map (load_order conv db)) (rows c))
      → follow_orders next (shown_page conv cursors db r)
        ≡ Option.map
            (map (load_order conv db))
            (follow conv cursors (order_key conv cursors) rows r)
  follow-shown db (err e) next rows h = refl
  follow-shown db (ok p) next rows h = followed p.next_cursor
    where
      again :
          (o : Option (List Order))
          → Option.map
              (λ rest. map (load_order conv db) p.items ++ rest)
              (Option.map (map (load_order conv db)) o)
            ≡ Option.map (map (load_order conv db)) (Option.map (λ rest. p.items ++ rest) o)
      again none = refl
      again (some xs) = ap some (sym (map-append (load_order conv db) p.items xs))

      followed :
          (c : Option Text)
          → follow_orders next
              (ok (record { items = map (load_order conv db) p.items; next_cursor = c }))
            ≡ Option.map (map (load_order conv db)) (
                follow conv cursors
                  (order_key conv cursors)
                  rows
                  (ok (record { items = p.items; next_cursor = c })))
      followed none = refl
      followed (some c) =
          ap (Option.map (λ rest. map (load_order conv db) p.items ++ rest)) (h c) ∙ again (rows c)

  walk_orders-walk :
      (fuel limit : ℕ) (cursor : Option Text) (actor : ℕ) (db : Db)
      → walk_orders fuel limit cursor actor db
        ≡ Option.map (map (load_order conv db)) (
            walk conv cursors
              (order_key conv cursors)
              fuel
              limit
              cursor
              (visible_to conv cursors actor db))
  unfolding walk_orders walk find_all
  walk_orders-walk zero limit cursor actor db = refl
  walk_orders-walk (suc fuel) limit cursor actor db =
      follow-shown db
        (keyset_page conv cursors (order_key conv cursors) limit cursor
          (visible_to conv cursors actor db))
        _ _ (λ c. walk_orders-walk fuel limit (some c) actor db)

  -- With positive, pairwise different ids within an int4 in the orders that an actor may see, and a
  -- page size of at least 1, an actor who follows the cursors from the first page, and may ask more often than there
  -- are orders, is shown all of these orders, each once, in the order of their ids.
  pub walk_orders_complete :
      (fuel n actor : ℕ) (db : Db)
      → Keyed conv cursors (order_key conv cursors) (visible_to conv cursors actor db)
      → AllInt4 conv cursors (order_key conv cursors) (visible_to conv cursors actor db)
      → length (visible_to conv cursors actor db) < fuel
      → walk_orders fuel (suc n) none actor db
        ≡ some (
            map (load_order conv db) (
              sort_by_key conv cursors (order_key conv cursors) (visible_to conv cursors actor db)))
  walk_orders_complete fuel n actor db d int4 h =
      walk_orders-walk fuel (suc n) none actor db
      ∙ ap (Option.map (map (load_order conv db))) (
          walk_complete conv cursors (order_key conv cursors) fuel n
            (visible_to conv cursors actor db) d int4 h)
