-- ===== src/Products/Card/Sums.antt =====
-- What the query of src/products/product-card.repository.ts counts, in plain sums.
use marketplace_api.Prelude.{
  List, [], arith, refl, ℕ, ◌∷◌, ◌≡◌, All, All-mono, Bool, Bool-cases, ap, false, inl, inr, length,
  suc, sum_of, true, ◌*◌, ◌+◌, ◌==◌,
}
use marketplace_api.Store.{OrderItem}
use marketplace_api.Sql.{contains, affected, free-affected}
use marketplace_api.Products.Card.{units_of, revenue_of, in_order, orders_of}
use mathlib.Core.Path.{subst}

-- What a line costs.
abbrev pub cents_of : OrderItem → ℕ
cents_of r = r.quantity * r.price_at_purchase_cents

pub units_of-sum : (rs : List OrderItem) → units_of rs ≡ sum_of (λ r. r.quantity) rs
units_of-sum [] = refl
units_of-sum (r ∷ rs) = ap (λ n. r.quantity + n) (units_of-sum rs)

pub revenue_of-sum : (rs : List OrderItem) → revenue_of rs ≡ sum_of cents_of rs
revenue_of-sum [] = refl
revenue_of-sum (r ∷ rs) = ap (λ n. cents_of r + n) (revenue_of-sum rs)

-- The ids of the orders that have a line among some: each of them, and each once.
pub record OrderIds (rows : List OrderItem) (ids : List ℕ) : Type 0 where
  pub all : All (λ r. contains (λ i. i == r.order_id) ids ≡ true) rows
  pub none_else : All (λ i. contains (λ r. r.order_id == i) rows ≡ true) ids
  pub once : All (λ i. affected (λ j. j == i) ids ≡ 1) ids

known_eq : (m n : ℕ) → (m == n) ≡ true → m ≡ n
known_eq m n h = ground (arith, h)

differs : {b : Bool} → b ≡ true → b ≡ false → ⊥
differs h k = absurd (cc)

known_id :
    (k : ℕ) (rs : List OrderItem) (ids : List ℕ)
    → All (λ r. contains (λ i. i == r.order_id) ids ≡ true) rs
    → contains (in_order k) rs ≡ true
    → contains (λ i. i == k) ids ≡ true
known_id k [] ids h c = absurd (cc)
known_id k (r ∷ rs) ids h c = elim (Bool-cases (in_order k r)) [
  | inl y ↦ subst (λ m. contains (λ j. j == m) ids ≡ true) (known_eq r.order_id k y) h.0
  | inr n ↦ known_id k rs ids h.1 (ground (arith, n, c))
]

unknown_id :
    (k : ℕ) (rs : List OrderItem) (ids : List ℕ)
    → All (λ i. contains (λ r. r.order_id == i) rs ≡ true) ids
    → contains (in_order k) rs ≡ false
    → contains (λ j. j == k) ids ≡ false
unknown_id k rs [] h c = refl
unknown_id k rs (i ∷ is) h c = elim (Bool-cases (i == k)) [
  | inl y ↦ absurd (
      differs
        (subst (λ m. contains (λ (r : OrderItem). r.order_id == m) rs ≡ true) (known_eq i k y) h.0)
        c)
  | inr n ↦ ground (arith, n, unknown_id k rs is h.1 c)
]

once_behind :
    (k : ℕ) (all ids : List ℕ)
    → contains (λ j. j == k) ids ≡ false
    → All (λ i. affected (λ j. j == i) all ≡ 1) ids
    → All (λ i. affected (λ j. j == i) (k ∷ all) ≡ 1) ids
once_behind k all [] c h = tt
once_behind k all (i ∷ is) c h =
    (ground (arith, h.0, c), once_behind k all is (ground (arith, c)) h.1)

pub orders_of-OrderIds :
    (rows : List OrderItem) → (ids : List ℕ) × OrderIds rows ids × (orders_of rows ≡ length ids)
orders_of-OrderIds [] = ([], record { all = tt; none_else = tt; once = tt }, refl)
orders_of-OrderIds (r ∷ rs) =
    let (ids, h, e) = orders_of-OrderIds rs in
    elim (Bool-cases (contains (in_order r.order_id) rs)) [
      | inl again ↦ (
        ids,
        record {
          all = (known_id r.order_id rs ids h.all again, h.all);
          none_else = All-mono _ _ (λ i y. ground (arith, y)) ids h.none_else;
          once = h.once;
        },
        rw again e,
      )
      | inr fresh ↦
          let away : contains (λ j. j == r.order_id) ids ≡ false =
            unknown_id r.order_id rs ids h.none_else fresh in
          (
            r.order_id ∷ ids,
            record {
              all = (ground arith, All-mono _ _ (λ q y. ground (arith, y)) rs h.all);
              none_else = (ground arith, All-mono _ _ (λ i y. ground (arith, y)) ids h.none_else);
              once = (
                ground (arith, free-affected (λ j. j == r.order_id) ids away),
                once_behind r.order_id ids ids away h.once,
              );
            },
            rw fresh (ap suc e),
          )
    ]
