-- ===== src/Checkout/Race.antt =====
-- src/demo-race.ts: many purchases of one unit at the same time. The first statement of each locks
-- the product's row until its transaction ends, so they run one after another, in an order that does
-- not matter, since all are alike.
use marketplace_api.Prelude.{
  Bool, Conversions, arith, false, if◌then◌else◌, nat, some, suc, true, zero, ℕ, ◌<◌, ◌==◌, ◌^◌,
  ◌≡◌, ◌≤◌, Bool-cases, inl, inr, leb, min, refl, ◌*◌, ◌-◌, Option, ap, sym, ◌∙◌,
}
use marketplace_api.Store.{Db, Product, User}
use marketplace_api.Store.Tx.{Result, ok, err, insufficient_stock, insufficient_funds}
use marketplace_api.Checkout.{checkout, take_units, charge_cents, in_stock, can_pay}
use marketplace_api.Checkout.Books.{IsKeyed, find-in_stock, find-can_pay}
use marketplace_api.Sql.{find, update, find-update, find-holds}
use marketplace_api.Checkout.Conserve.{checkout-Conserves}
use mathlib.Core.Path.{subst}

-- What the script counts at the end: purchases that went through, failures that it does not expect,
-- and the stock.
pub record RaceResult : Type 0 where
  pub successful : ℕ
  pub unexpected : ℕ
  pub final : Db

abbrev pub is_success : Result ℕ → Bool
is_success (ok i) = true
is_success (err e) = false

-- err instanceof InsufficientStockError || err instanceof InsufficientFundsError
abbrev pub is_expected : Result ℕ → Bool
is_expected (ok i) = true
is_expected (err insufficient_stock) = true
is_expected (err insufficient_funds) = true
is_expected (err _) = false

abbrev pub count_result : Result ℕ → RaceResult → RaceResult
count_result r out = record {
  successful = if is_success r then suc out.successful else out.successful;
  unexpected = if is_expected r then out.unexpected else suc out.unexpected;
  final = out.final;
}

success-expected : (r : Result ℕ) → is_success r ≡ true → is_expected r ≡ true
success-expected (ok i) h = refl
success-expected (err e) h = absurd (cc)

same_stock :
    (p : Product) (a b : ℕ)
    → b ≡ a
    → ◌≡◌ {A = Option Product} (some (record p { stock = b })) (some (record p { stock = a }))
same_stock p a b e = ap (λ s. some (record p { stock = s })) e

module _ (conv : Conversions) (now buyer product : ℕ) where
  -- The attempts of `main`
  unfoldable pub race : ℕ → Db → RaceResult
  unfolding checkout
  race zero db = record { successful = 0; unexpected = 0; final = db }
  race (suc n) db =
      let (r, db') = checkout conv now buyer product (nat 1) db in count_result r (race n db')

  abbrev has_number : Product → Bool
  has_number r = r.id == product

  abbrev is_buyer : User → Bool
  is_buyer r = r.id == buyer

  -- One attempt while there is stock.
  one-bought :
      (db : Db) (p : Product) (u : User)
      → IsKeyed db
      → find has_number db.products ≡ some p
      → find is_buyer db.users ≡ some u
      → p.price_cents < 2 ^ 31
      → 1 ≤ p.stock
      → p.price_cents ≤ u.balance_cents
      → let (r, db') = checkout conv now buyer product (nat 1) db in
        (is_success r ≡ true)
        × (find has_number db'.products ≡ some (take_units 1 p))
        × (find is_buyer db'.users ≡ some (charge_cents (p.price_cents * 1) u))
  unfolding checkout
  one-bought db p u k listed known cheap stocked_up rich =
      let a : find (in_stock product 1) db.products ≡ some p =
        ground (arith, find-in_stock product 1 db.products k.products_distinct) in
      let b : find (can_pay buyer (p.price_cents * 1)) db.users ≡ some u =
        ground (arith, find-can_pay buyer (p.price_cents * 1) db.users k.users_distinct) in
      let c : find has_number (update (in_stock product 1) (take_units 1) db.products)
          ≡ some (take_units 1 p) =
        ground (
          arith,
          find-update has_number (in_stock product 1) (take_units 1) (λ r. refl) db.products,
          find-holds has_number db.products p listed,
        ) in
      let d : find is_buyer
            (update (can_pay buyer (p.price_cents * 1)) (charge_cents (p.price_cents * 1)) db.users)
          ≡ some (charge_cents (p.price_cents * 1) u) =
        ground (
          arith,
          find-update is_buyer (can_pay buyer (p.price_cents * 1))
              (charge_cents (p.price_cents * 1)) (λ r. refl) db.users,
          find-holds is_buyer db.users u known,
        ) in
      ground (arith, a, b, c, d)

  -- One attempt without stock.
  one-refused :
      (db : Db) (p : Product)
      → IsKeyed db
      → find has_number db.products ≡ some p
      → p.stock ≡ 0
      → checkout conv now buyer product (nat 1) db ≡ (err insufficient_stock, db)
  unfolding checkout
  one-refused db p k listed gone =
      ground (arith, find-in_stock product 1 db.products k.products_distinct)

  -- Any number of attempts at one unit of a product in the table, by a buyer whose balance covers all
  -- of them: as many go through as the stock allows, each other one is refused as expected, and the
  -- stock is lowered by as many. Ids are keys and the price fits in an int4.
  pub race-settled :
      (n : ℕ) (db : Db) (p : Product) (u : User)
      → IsKeyed db
      → find has_number db.products ≡ some p
      → find is_buyer db.users ≡ some u
      → p.price_cents < 2 ^ 31
      → p.price_cents * n ≤ u.balance_cents
      → let out = race n db in
        (out.successful ≡ min n p.stock)
        × ((out.unexpected ≡ 0)
            × (find has_number out.final.products ≡ some (record p { stock = p.stock - n })))
  unfolding race
  race-settled zero db p u k listed known cheap rich =
      (omega arith, (refl, listed ∙ same_stock p (p.stock - 0) p.stock (omega arith)))
  race-settled (suc n) db p u k listed known cheap rich = elim (Bool-cases (leb 1 p.stock)) [
    | inl y ↦
        let (sold, c, d) =
          one-bought db p u k listed known cheap (ground (arith, y)) (omega (arith, rich)) in
        let out = checkout conv now buyer product (nat 1) db in
        let (succeeded, (clean, stock)) =
          race-settled n out.1 (take_units 1 p) (charge_cents (p.price_cents * 1) u)
            (checkout-Conserves conv now buyer product (nat 1) db k).keyed c d cheap
            (omega (arith, rich)) in
        (
          ground (arith, sold, succeeded, y),
          (
            ground (arith, success-expected out.0 sold, clean),
            stock ∙ same_stock p (p.stock - suc n) (p.stock - 1 - n) (omega arith),
          ),
        )
    | inr f ↦
        let gone : p.stock ≡ 0 = ground (arith, f) in
        let (succeeded, (clean, stock)) =
          race-settled n db p u k listed known cheap (omega (arith, rich)) in
        subst
          (λ out.
            ((count_result out.0 (race n out.1)).successful ≡ min (suc n) p.stock)
            × (((count_result out.0 (race n out.1)).unexpected ≡ 0)
                × (find has_number (count_result out.0 (race n out.1)).final.products
                    ≡ some (record p { stock = p.stock - suc n }))))
          (sym (one-refused db p k listed gone))
          (
            omega (arith, succeeded, gone),
            (clean, stock ∙ same_stock p (p.stock - suc n) (p.stock - n) (omega (arith, gone))),
          )
  ]
