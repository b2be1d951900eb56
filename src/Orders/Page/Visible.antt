-- ===== src/Orders/Page/Visible.antt =====
-- Whose orders a list shows, and that following its cursors misses none.
use marketplace_api.Prelude.{
  All, All-intro, Bool-cases, Conversions, In, List, Option, Text, [], arith, inl, inr, map, refl,
  true, ℕ, ◌+◌, ◌||◌, ◌∷◌, ◌≡◌,
}
use marketplace_api.Pagination.{Cursors, PaginatedResult}
use marketplace_api.Pagination.Keyset.{
  insert_by_key, sort_by_key, page_of, keyset_page, page_after, comes_after, after_id,
}
use marketplace_api.Store.{Db, Order}
use marketplace_api.Orders.Read.{OrderResponse, owned_by, load_order, is_admin, role_of}
use marketplace_api.Orders.Page.{find_all, visible_to, order_key, shown_page}
use marketplace_api.Store.Tx.{Result, ok, err}
use marketplace_api.Sql.{In-select, select}
use marketplace_api.Pagination.Order.{All-take, All-select}
use mathlib.Core.Path.{subst}

module _ (conv : Conversions) (cursors : Cursors) where
  module _ {A : Type 0} (key : A → ℕ) (P : A → Type 0) where
    All-insert_by_key :
        (a : A) (xs : List A) → P a → All P xs → All P (insert_by_key conv cursors key a xs)
    All-insert_by_key a [] h k = (h, tt)
    All-insert_by_key a (x ∷ xs) h k = ground (arith, All-insert_by_key a xs h k.1)

    All-sort_by_key : (xs : List A) → All P xs → All P (sort_by_key conv cursors key xs)
    All-sort_by_key [] h = tt
    All-sort_by_key (x ∷ xs) h =
        All-insert_by_key x (sort_by_key conv cursors key xs) h.0 (All-sort_by_key xs h.1)

    page_after-All :
        (limit : ℕ) (v : List A) (k : Result ℕ) (p : PaginatedResult A)
        → All P v
        → page_after conv cursors key limit v k ≡ ok p
        → All P p.items
    unfolding page_of
    page_after-All limit v (err e) p h eq = absurd (cc)
    page_after-All limit v (ok k) p h eq =
        let rows = sort_by_key conv cursors key (select (comes_after conv cursors key k) v) in
        let all = All-sort_by_key _ (All-select P (comes_after conv cursors key k) v h) in
        subst (All P) (ok-items eq) (All-take P limit _ (All-take P (limit + 1) rows all))
      where
        ok-items : {q : PaginatedResult A} → ok q ≡ ok p → q.items ≡ p.items
        ok-items e = cc

  -- Why an order is on a list.
  pub record Listed (actor : ℕ) (db : Db) (r : OrderResponse) : Type 0 where
    pub order : Order
    pub stored : In order db.orders
    pub entitled : owned_by conv actor order || is_admin conv (role_of conv actor db) ≡ true
    pub shown : r ≡ load_order conv db order

  visible_to-All :
      (actor : ℕ) (db : Db)
      → All (λ o. Listed actor db (load_order conv db o)) (visible_to conv cursors actor db)
  visible_to-All actor db = elim (Bool-cases (is_admin conv (role_of conv actor db))) [
    | inl e ↦ rw e (
        All-intro _ db.orders
          (λ o i. record { order = o; stored = i; entitled = ground (arith, e); shown = refl }))
    | inr e ↦ rw e (
        All-intro _ (select (owned_by conv actor) db.orders) (λ o i.
          let (there, own) = In-select (owned_by conv actor) o db.orders i in
          record { order = o; stored = there; entitled = ground (arith, own); shown = refl }))
  ]

  All-map :
      (Q : OrderResponse → Type 0) (f : Order → OrderResponse) (xs : List Order)
      → All (λ o. Q (f o)) xs
      → All Q (map f xs)
  All-map Q f [] h = tt
  All-map Q f (x ∷ xs) h = (h.0, All-map Q f xs h.1)

  -- A list of orders shows stored orders only, and each of them is the actor's own, or the actor is
  -- an admin, as the table of users has the role now.
  pub find_all-Listed :
      (limit : ℕ) (cursor : Option Text) (actor : ℕ) (db : Db) (p : PaginatedResult OrderResponse)
      → find_all conv cursors limit cursor actor db ≡ ok p
      → All (Listed actor db) p.items
  unfolding find_all keyset_page
  find_all-Listed limit cursor actor db p =
      shown
        (page_after conv cursors (order_key conv cursors) limit (visible_to conv cursors actor db)
          (after_id conv cursors cursor))
        refl
    where
      shown :
          (r : Result (PaginatedResult Order))
          → page_after conv cursors
              (order_key conv cursors)
              limit
              (visible_to conv cursors actor db)
              (after_id conv cursors cursor)
            ≡ r
          → shown_page conv cursors db r ≡ ok p
          → All (Listed actor db) p.items
      shown (err e) eq h = absurd (cc)
      shown (ok q) eq h =
          let items : map (load_order conv db) q.items ≡ p.items = cc in
          subst (All (Listed actor db)) items (
            All-map (Listed actor db) (load_order conv db) q.items (
              page_after-All (order_key conv cursors) (λ o. Listed actor db (load_order conv db o))
                limit _ _ q (visible_to-All actor db) eq))
