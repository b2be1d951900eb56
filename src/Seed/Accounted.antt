-- ===== src/Seed/Accounted.antt =====
-- The books after the seed: each order costs what its lines say.
use marketplace_api.Prelude.{
  List, [], arith, refl, ℕ, ◌∷◌, ◌≡◌, All, All-append, All-mono, Bool-cases, Conversions, Option,
  ap, false, inl, inr, ltb, map, none, some, suc, sym, ◌++◌, ◌<◌, ◌^◌, ◌∙◌, zero,
}
use marketplace_api.Store.{OrderItem, Db, Order, User, OrderStatus, Product}
use marketplace_api.Orders.Create.{PricedItem, new_item, total_of}
use marketplace_api.Orders.Create.Total.{lines_total, total-new_item, select-new_item}
use marketplace_api.Sql.{contains, select, select-append, select-none}
use marketplace_api.Orders.Read.{of_order}
use marketplace_api.Seed.{
  save_seeded, save_picked, seed_loop, seed_into, at_cycle, seed_count, seed_statuses, items_specs,
  items_count, seed_order, and_then,
}
use marketplace_api.Store.Tx.{Result, err, ok}

module _ (conv : Conversions) where
  abbrev pub IsBalanced : List OrderItem → Order → Type 0
  IsBalanced rows o = o.total_cents ≡ lines_total conv (select (of_order o.id) rows)

  -- The ids of the orders and of their lines are below the next one, and each order's total is that
  -- of its stored lines.
  pub record IsAccounted (db : Db) : Type 0 where
    pub ids : All (λ o. o.id < db.next_order_id) db.orders
    pub lines : All (λ r. r.order_id < db.next_order_id) db.order_items
    pub totals : All (IsBalanced db.order_items) db.orders

  fresh_lines :
      (i : ℕ) (rows : List OrderItem)
      → All (λ r. r.order_id < i) rows
      → contains (of_order i) rows ≡ false
  fresh_lines i [] h = refl
  fresh_lines i (r ∷ rs) h = ground (arith, h.0, fresh_lines i rs h.1)

  new_item-select :
      (n i : ℕ) (ps : List PricedItem) → i < n → select (of_order i) (map (new_item conv n) ps) ≡ []
  new_item-select n i [] lt = refl
  new_item-select n i (p ∷ ps) lt = ground (arith, new_item-select n i ps lt)

  new_item-below :
      (n : ℕ) (ps : List PricedItem) → All (λ r. r.order_id < suc n) (map (new_item conv n) ps)
  new_item-below n [] = tt
  new_item-below n (p ∷ ps) = (omega arith, new_item-below n ps)

  append_nil : (rows : List OrderItem) → rows ++ [] ≡ rows
  append_nil [] = refl
  append_nil (r ∷ rs) = ap (λ xs. r ∷ xs) (append_nil rs)

  kept-IsBalanced :
      (n : ℕ) (rows : List OrderItem) (ps : List PricedItem) (o : Order)
      → (o.id < n) × IsBalanced rows o
      → IsBalanced (rows ++ map (new_item conv n) ps) o
  kept-IsBalanced n rows ps o (lt, h) =
      h
      ∙ ap (lines_total conv) (
          sym (
            select-append (of_order o.id) rows (map (new_item conv n) ps)
            ∙ ap (λ xs. select (of_order o.id) rows ++ xs) (new_item-select n o.id ps lt)
            ∙ append_nil (select (of_order o.id) rows)))

  added-IsBalanced :
      (n : ℕ) (rows : List OrderItem) (ps : List PricedItem)
      → All (λ r. r.order_id < n) rows
      → total_of conv ps ≡ lines_total conv (select (of_order n) (rows ++ map (new_item conv n) ps))
  added-IsBalanced n rows ps h =
      sym (total-new_item conv n ps)
      ∙ ap (lines_total conv) (
          sym (
            select-append (of_order n) rows (map (new_item conv n) ps)
            ∙ ap (λ xs. xs ++ select (of_order n) (map (new_item conv n) ps))
                (select-none (of_order n) rows (fresh_lines n rows h))
            ∙ select-new_item conv n ps))

  All-both :
      (P Q : Order → Type 0) (xs : List Order) → All P xs → All Q xs → All (λ o. P o × Q o) xs
  All-both P Q [] h k = tt
  All-both P Q (x ∷ xs) h k = ((h.0, k.0), All-both P Q xs h.1 k.1)

  save_seeded-IsAccounted :
      (user : User) (status : OrderStatus) (items : List PricedItem) (db : Db)
      → IsAccounted db
      → IsAccounted (save_seeded conv user status items db).1
  save_seeded-IsAccounted user status items db inv =
      elim (Bool-cases (ltb (total_of conv items) (2 ^ 31))) [
        | inr n ↦ rw n inv
        | inl y ↦ rw y (record {
          ids =
              All-append _ db.orders _ (All-mono _ _ (λ o h. omega (arith, h)) db.orders inv.ids)
                (omega arith, tt);
          lines =
              All-append _ db.order_items _
                (All-mono _ _ (λ o h. omega (arith, h)) db.order_items inv.lines)
                (new_item-below db.next_order_id items);
          totals =
              All-append _ db.orders _
                (All-mono _ _ (kept-IsBalanced db.next_order_id db.order_items items) db.orders
                  (All-both _ _ db.orders inv.ids inv.totals))
                (added-IsBalanced db.next_order_id db.order_items items inv.lines, tt);
        })
      ]

  save_picked-IsAccounted :
      (user : Option User) (status : Option OrderStatus) (items : Option (List PricedItem))
      (db : Db)
      → IsAccounted db
      → IsAccounted (save_picked conv user status items db).1
  save_picked-IsAccounted (some user) (some status) (some items) db inv =
      save_seeded-IsAccounted user status items db inv
  save_picked-IsAccounted (some user) (some status) none db inv = inv
  save_picked-IsAccounted (some user) none items db inv = inv
  save_picked-IsAccounted none status items db inv = inv

  and_then-IsAccounted :
      (r : Result (Unit {0}) × Db) (rest : Db → Result (Unit {0}) × Db)
      → IsAccounted r.1
      → ((db : Db) → IsAccounted db → IsAccounted (rest db).1)
      → IsAccounted (and_then r rest).1
  and_then-IsAccounted (err e, db) rest inv keeps = inv
  and_then-IsAccounted (ok done, db) rest inv keeps = keeps db inv

  seed_loop-IsAccounted :
      (users : List User) (products : List Product) (n i : ℕ) (db : Db)
      → IsAccounted db
      → IsAccounted (seed_loop conv users products n i db).1
  seed_loop-IsAccounted users products zero i db inv = inv
  seed_loop-IsAccounted users products (suc n) i db inv =
      and_then-IsAccounted (seed_order conv users products i db)
        (seed_loop conv users products n (suc i))
        (save_picked-IsAccounted (at_cycle users i) (at_cycle seed_statuses i)
          (items_specs products i 0 (items_count i)) db inv)
        (seed_loop-IsAccounted users products n (suc i))

  pub seed_into-IsAccounted :
      (users : List User) (products : List Product) (os : List Order) (db : Db)
      → IsAccounted db
      → IsAccounted (seed_into conv users products os db).1
  seed_into-IsAccounted users products [] db inv =
      seed_loop-IsAccounted users products seed_count 0 db inv
  seed_into-IsAccounted users products (o ∷ os) db inv = inv
