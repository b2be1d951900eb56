-- ===== src/Checkout/Books.antt =====
-- What a product and a customer hold, over the tables: the quantities that a purchase moves.
use marketplace_api.Checkout.{take_units, charge_cents, in_stock, can_pay}
use marketplace_api.Prelude.{
  ℕ, ◌+◌, ◌≤◌, List, [], ◌∷◌, ◌++◌, Option, none, some, ◌≡◌, refl, arith, ◌==◌, if◌then◌else◌, Bool,
  false, leb,
}
use marketplace_api.Sql.{find, update}
use marketplace_api.Sql.Guarded
use marketplace_api.Store.{Db, Product, User, Order, OrderItem}

abbrev product_id_of : Product → ℕ
product_id_of r = r.id

abbrev stock_of : Product → ℕ
stock_of r = r.stock

abbrev user_id_of : User → ℕ
user_id_of r = r.id

abbrev balance_of : User → ℕ
balance_of r = r.balance_cents

-- The primary keys of the two tables that a purchase updates are keys.
pub record IsKeyed (db : Db) : Type 0 where
  pub products_distinct : Guarded.Distinct product_id_of stock_of take_units db.products
  pub users_distinct : Guarded.Distinct user_id_of balance_of charge_cents db.users

abbrev pub stocked : ℕ → List Product → ℕ
stocked = Guarded.held product_id_of stock_of take_units

abbrev pub funds : ℕ → List User → ℕ
funds = Guarded.held user_id_of balance_of charge_cents

-- Units of a product in all order lines.
abbrev pub ordered : ℕ → List OrderItem → ℕ
ordered p [] = 0
ordered p (i ∷ is) = (if i.product_id == p then i.quantity else 0) + ordered p is

abbrev belongs : ℕ → Option ℕ → Bool
belongs u none = false
belongs u (some v) = v == u

-- The totals of all orders of a user.
abbrev pub billed : ℕ → List Order → ℕ
billed u [] = 0
billed u (o ∷ os) = (if belongs u o.user_id then o.total_cents else 0) + billed u os

pub ordered-append :
    (p : ℕ) (i : OrderItem) (is : List OrderItem)
    → ordered p (is ++ i ∷ []) ≡ ordered p is + (if i.product_id == p then i.quantity else 0)
ordered-append p i [] = ground arith
ordered-append p i (x ∷ is) = omega (arith, ordered-append p i is)

pub billed-append :
    (u : ℕ) (o : Order) (os : List Order)
    → billed u (os ++ o ∷ []) ≡ billed u os + (if belongs u o.user_id then o.total_cents else 0)
billed-append u o [] = ground arith
billed-append u o (x ∷ os) = omega (arith, billed-append u o os)

keeps_product : (q : ℕ) (r : Product) → (take_units q r).id ≡ r.id
keeps_product q r = refl

lowers_stock : (q : ℕ) (r : Product) → q ≤ r.stock → (take_units q r).stock + q ≡ r.stock
lowers_stock q r h = omega arith

keeps_user : (q : ℕ) (r : User) → (charge_cents q r).id ≡ r.id
keeps_user q r = refl

lowers_balance :
    (q : ℕ) (r : User)
    → q ≤ r.balance_cents
    → (charge_cents q r).balance_cents + q ≡ r.balance_cents
lowers_balance q r h = omega arith

pub stocked-update :
    (p j q : ℕ) (r : Product) (rs : List Product)
    → Guarded.Distinct product_id_of stock_of take_units rs
    → find (in_stock p q) rs ≡ some r
    → stocked j (update (in_stock p q) (take_units q) rs) + (if p == j then q else 0) ≡ stocked j rs
stocked-update p j q r rs d h = ground (
  arith,
  Guarded.held-update_self product_id_of stock_of take_units keeps_product lowers_stock p q r rs d
      h,
  Guarded.held-update_other product_id_of stock_of take_units keeps_product lowers_stock p j q rs,
)

pub funds-update :
    (u j q : ℕ) (r : User) (rs : List User)
    → Guarded.Distinct user_id_of balance_of charge_cents rs
    → find (can_pay u q) rs ≡ some r
    → funds j (update (can_pay u q) (charge_cents q) rs) + (if u == j then q else 0) ≡ funds j rs
funds-update u j q r rs d h = ground (
  arith,
  Guarded.held-update_self user_id_of balance_of charge_cents keeps_user lowers_balance u q r rs d
      h,
  Guarded.held-update_other user_id_of balance_of charge_cents keeps_user lowers_balance u j q rs,
)

pub products-Distinct :
    (p q : ℕ) (rs : List Product)
    → Guarded.Distinct product_id_of stock_of take_units rs
    → Guarded.Distinct product_id_of stock_of take_units (update (in_stock p q) (take_units q) rs)
products-Distinct =
    Guarded.update-Distinct product_id_of stock_of take_units keeps_product lowers_stock

pub users-Distinct :
    (u q : ℕ) (rs : List User)
    → Guarded.Distinct user_id_of balance_of charge_cents rs
    → Guarded.Distinct user_id_of balance_of charge_cents (update (can_pay u q) (charge_cents q) rs)
users-Distinct =
    Guarded.update-Distinct user_id_of balance_of charge_cents keeps_user lowers_balance

pub find-in_stock :
    (p q : ℕ) (rs : List Product)
    → Guarded.Distinct product_id_of stock_of take_units rs
    → find (in_stock p q) rs ≡ elim (find (λ (r : Product). r.id == p) rs) [
      | none ↦ none
      | some r ↦ (if leb q r.stock then some r else none)
    ]
find-in_stock = Guarded.find-has product_id_of stock_of take_units keeps_product lowers_stock

pub find-can_pay :
    (u q : ℕ) (rs : List User)
    → Guarded.Distinct user_id_of balance_of charge_cents rs
    → find (can_pay u q) rs ≡ elim (find (λ (r : User). r.id == u) rs) [
      | none ↦ none
      | some r ↦ (if leb q r.balance_cents then some r else none)
    ]
find-can_pay = Guarded.find-has user_id_of balance_of charge_cents keeps_user lowers_balance
