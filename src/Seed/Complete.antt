-- ===== src/Seed/Complete.antt =====
-- The seed goes through where there are users and products whose prices are not too high.
use native.Mathlib.Nat.{mod-lt, zero-lt-suc}
use marketplace_api.Prelude.{
  List, [], arith, refl, ℕ, ◌∷◌, ◌≡◌, get_elem?, length, some, suc, zero, ◌%◌, ◌*◌, ◌<◌, ◌≤◌, All,
  All-In, Conversions, In-get_elem?, ◌+◌, ap, length-append, ltb, true, ◌^◌, ◌∙◌, sym,
}
use marketplace_api.Seed.{
  at_cycle, items_specs, items_count, seed_order, seed_loop, and_then, seed_orders, seed_count,
  seed_into,
}
use marketplace_api.Store.{Product, User, Db, pending, paid, shipped, delivered, cancelled, Order}
use marketplace_api.Orders.Create.{PricedItem, total_of}
use marketplace_api.Store.Tx.{Result, ok, err}
use marketplace_api.Seed.Accounted.{IsAccounted, IsBalanced, seed_into-IsAccounted}
use mathlib.Core.Path.{subst}

module _ {A : Type 0} where
  get_elem?-within : (xs : List A) (n : ℕ) → n < length xs → (a : A) × (get_elem? xs n ≡ some a)
  get_elem?-within [] n h = absurd (omega (arith, h))
  get_elem?-within (x ∷ xs) zero h = (x, refl)
  get_elem?-within (x ∷ xs) (suc n) h = get_elem?-within xs n (omega (arith, h))

  at_cycle-some : (x : A) (xs : List A) (i : ℕ) → (a : A) × (at_cycle (x ∷ xs) i ≡ some a)
  at_cycle-some x xs i =
      get_elem?-within (x ∷ xs) (i % suc (length xs)) (mod-lt i (zero-lt-suc (length xs)))

times_quantity : (price q most : ℕ) → price ≤ most → q < 3 → price * suc q ≤ 3 * most
times_quantity price zero most h lt = omega (arith, h)
times_quantity price (suc zero) most h lt = omega (arith, h)
times_quantity price (suc (suc zero)) most h lt = omega (arith, h)
times_quantity price (suc (suc (suc q))) most h lt = absurd (omega (arith, lt))

times_count : (k m : ℕ) → k < 3 → suc k * m ≤ 3 * m
times_count zero m lt = omega arith
times_count (suc zero) m lt = omega arith
times_count (suc (suc zero)) m lt = omega arith
times_count (suc (suc (suc k))) m lt = absurd (omega (arith, lt))

abbrev pub AtMost : ℕ → List Product → Type 0
AtMost most products = All (λ p. p.price_cents ≤ most) products

module _ (conv : Conversions) (x : Product) (xs : List Product) (most : ℕ)
    (cheap : AtMost most (x ∷ xs)) where
  picked-AtMost : (i : ℕ) → (p : Product) × (at_cycle (x ∷ xs) i ≡ some p) × (p.price_cents ≤ most)
  picked-AtMost i =
      let (p, y) = at_cycle-some x xs i in
      (p, y, All-In (λ p. p.price_cents ≤ most) p (x ∷ xs) cheap (In-get_elem? _ p (x ∷ xs) y))

  -- The lines of an order cost at most three of the dearest product each.
  pub items_specs-bounded :
      (i j n : ℕ)
      → (ps : List PricedItem) × (items_specs (x ∷ xs) i j n ≡ some ps)
        × (total_of conv ps ≤ n * (3 * most))
  items_specs-bounded i j zero = ([], refl, omega arith)
  items_specs-bounded i j (suc n) =
      let (p, y, le) = picked-AtMost (i + j) in
      let (ps, z, rest) = items_specs-bounded i (suc j) n in
      (
        record { product = p; quantity = suc ((i + j) % 3) } ∷ ps,
        rw (y, z) refl,
        omega (
          arith,
          times_quantity p.price_cents ((i + j) % 3) most le (mod-lt (i + j) (zero-lt-suc 2)),
          rest,
        ),
      )

  module _ (affordable : 9 * most < 2 ^ 31) where
    fits_total : (i total : ℕ) → total ≤ items_count i * (3 * most) → ltb total (2 ^ 31) ≡ true
    fits_total i total h =
        ground (arith, affordable, h, times_count (i % 3) (3 * most) (mod-lt i (zero-lt-suc 2)))

    module _ (u : User) (us : List User) where
      -- An order goes through and adds a row.
      seed_order-ok :
          (i : ℕ) (db : Db)
          → ((seed_order conv (u ∷ us) (x ∷ xs) i db).0 ≡ ok tt)
            × (length (seed_order conv (u ∷ us) (x ∷ xs) i db).1.orders ≡ suc (length db.orders))
      seed_order-ok i db =
          let (user, y) = at_cycle-some u us i in
          let (status, z) = at_cycle-some pending (paid ∷ shipped ∷ delivered ∷ cancelled ∷ []) i in
          let (ps, w, le) = items_specs-bounded i 0 (items_count i) in
          let fits = fits_total i (total_of conv ps) le in
          rw (y, z, w, fits) (refl, length-append db.orders _ ∙ omega arith)

      and_then-ok :
          (r : Result (Unit {0}) × Db) (rest : Db → Result (Unit {0}) × Db)
          → r.0 ≡ ok tt
          → and_then r rest ≡ rest r.1
      and_then-ok (err e, db) rest h = absurd (cc)
      and_then-ok (ok done, db) rest h = refl

      pub seed_loop-ok :
          (n i : ℕ) (db : Db)
          → ((seed_loop conv (u ∷ us) (x ∷ xs) n i db).0 ≡ ok tt)
            × (length (seed_loop conv (u ∷ us) (x ∷ xs) n i db).1.orders ≡ n + length db.orders)
      seed_loop-ok zero i db = (refl, omega arith)
      seed_loop-ok (suc n) i db =
          let (done, grown) = seed_order-ok i db in
          let (all, total) = seed_loop-ok n (suc i) (seed_order conv (u ∷ us) (x ∷ xs) i db).1 in
          let same =
            and_then-ok (seed_order conv (u ∷ us) (x ∷ xs) i db)
              (seed_loop conv (u ∷ us) (x ∷ xs) n (suc i)) done in
          (
            ap (λ r. r.0) same ∙ all,
            ap (λ r. length r.1.orders) same ∙ total ∙ omega (arith, grown),
          )

no_orders-IsAccounted :
    (conv : Conversions) (db : Db)
    → db.orders ≡ []
    → All (λ r. r.order_id < db.next_order_id) db.order_items
    → IsAccounted conv db
no_orders-IsAccounted conv db empty lines = record {
  ids = subst (All (λ o. o.id < db.next_order_id)) (sym empty) tt;
  lines = lines;
  totals = subst (All (IsBalanced conv db.order_items)) (sym empty) tt;
}

module _ (conv : Conversions) (users : List User) (products : List Product) where
  seed_into_again :
      (os : List Order) (db : Db)
      → 0 < length os
      → seed_into conv users products os db ≡ (ok tt, db)
  seed_into_again [] db h = absurd (omega (arith, h))
  seed_into_again (o ∷ os) db h = refl

  -- The orders are there, and this run adds none.
  abbrev pub IsSeeded : Result (Unit {0}) × Db → Type 0
  IsSeeded r =
      (r.0 ≡ ok tt)
      × (length r.1.orders ≡ seed_count)
      × IsAccounted conv r.1
      × (seed_into conv users products r.1.orders r.1 ≡ (ok tt, r.1))

-- The first run of the seed inserts its ten orders, where there are users and products, and nine
-- times each price fits in an int4. Each order costs what its stored lines say, and any later run of
-- the orders' part leaves the tables as they are. At the start there are no orders, and no line has
-- an id that is still to come.
pub seed_orders-IsAccounted :
    (conv : Conversions) (u : User) (us : List User) (x : Product) (xs : List Product) (most : ℕ)
    (db : Db) (later_users : List User) (later_products : List Product)
    → AtMost most (x ∷ xs)
    → 9 * most < 2 ^ 31
    → db.orders ≡ []
    → All (λ r. r.order_id < db.next_order_id) db.order_items
    → let d = (seed_orders conv (u ∷ us) (x ∷ xs) db).1 in
      ((seed_orders conv (u ∷ us) (x ∷ xs) db).0 ≡ ok tt)
      × (length d.orders ≡ 10)
      × IsAccounted conv d
      × (seed_orders conv later_users later_products d ≡ (ok tt, d))
unfolding seed_orders
seed_orders-IsAccounted conv u us x xs most db us' xs' cheap affordable empty lines =
    let (done, total) = seed_loop-ok conv x xs most cheap affordable u us seed_count 0 db in
    let grown = total ∙ ap (λ os. seed_count + length os) empty in
    subst (IsSeeded conv us' xs') (ap (λ os. seed_into conv (u ∷ us) (x ∷ xs) os db) (sym empty)) (
      done,
      grown,
      seed_into-IsAccounted conv (u ∷ us) (x ∷ xs) [] db
          (no_orders-IsAccounted conv db empty lines),
      seed_into_again conv us' xs' _ _ (omega (arith, grown)),
    )
