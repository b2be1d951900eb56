-- ===== src/Checkout/Outcome.antt =====
-- Which purchases go through, and what a purchase leaves behind.
use marketplace_api.Checkout.{checkout}
use marketplace_api.Checkout.Books.{IsKeyed, find-in_stock, find-can_pay}
use marketplace_api.Prelude.{
  ℕ, suc, ◌*◌, ◌<◌, ◌^◌, Option, none, some, Conversions, ◌≡◌, arith, leb, ◌==◌, nat, if◌then◌else◌,
}
use marketplace_api.Sql.{find}
use marketplace_api.Store.{Db, Product, User}
use marketplace_api.Store.Tx.{Result, ok, err, insufficient_stock, insufficient_funds}

-- The outcome of a purchase of a positive quantity, the amounts within an int4 column.
abbrev outcome : ℕ → ℕ → Option Product → Option User → Result ℕ
outcome id qty none u = err insufficient_stock
outcome id qty (some p) none =
    if leb qty p.stock then err insufficient_funds else err insufficient_stock
outcome id qty (some p) (some u) =
    if leb qty p.stock
    then (if leb (p.price_cents * qty) u.balance_cents then ok id else err insufficient_funds)
    else err insufficient_stock

-- A purchase of a positive quantity of a product in the table succeeds exactly when the stock covers
-- the quantity and then the buyer's balance covers price times quantity, and each shortage has its
-- own error; a buyer who is not in the table has no funds. Amounts fit in an int4, ids are keys.
pub checkout-outcome :
    (conv : Conversions) (now user product n : ℕ) (db : Db) (p : Product)
    → IsKeyed db
    → suc n < 2 ^ 31
    → find (λ (r : Product). r.id == product) db.products ≡ some p
    → p.price_cents * suc n < 2 ^ 31
    → (checkout conv now user product (nat (suc n)) db).0
      ≡ outcome db.next_order_id (suc n) (some p) (find (λ (r : User). r.id == user) db.users)
unfolding checkout
checkout-outcome conv now user product n db p k small found total = ground (
  arith,
  find-in_stock product (suc n) db.products k.products_distinct,
  find-can_pay user (p.price_cents * suc n) db.users k.users_distinct,
)
