-- ===== src/System/Stage.antt =====
-- How far an order has come, as its number says it, and how an action may move it.
use marketplace_api.Prelude.{
  Bool, ap, false, fraction, nan, nat, negative, suc, sym, true, zero, ℕ, ◌==◌, ◌∙◌, ◌≡◌,
}
use marketplace_api.Store.{ProcessedOrderEvent, Db}
use marketplace_api.Sql.{affected, contains}
use marketplace_api.Orders.Read.{has_order_id}
use mathlib.Core.Path.{subst}

pub data Stage : Type 0 where
  absent placed effected : Stage

-- What may become of one order in one action.
pub data Advance : Stage → Stage → Type 0 where
  stays : {x : Stage} → Advance x x
  places : Advance absent placed
  effects : Advance placed effected

abbrev pub is_for : ℕ → ProcessedOrderEvent → Bool
is_for i r = elim r.order_id [
  | nat n ↦ n == i
  | nan ↦ false
  | fraction ↦ false
  | negative n ↦ false
]

abbrev pub stage_of : Bool → ℕ → Stage
stage_of false n = absent
stage_of true zero = placed
stage_of true (suc n) = effected

abbrev pub effects_of : ℕ → Db → ℕ
effects_of i db = affected (is_for i) db.processed_order_events

abbrev pub stage : ℕ → Db → Stage
stage i db = stage_of (contains (has_order_id i) db.orders) (effects_of i db)

pub stage-Advance :
    (i : ℕ) (db d : Db)
    → contains (has_order_id i) d.orders ≡ contains (has_order_id i) db.orders
    → effects_of i d ≡ effects_of i db
    → Advance (stage i db) (stage i d)
stage-Advance i db d os es =
    subst (Advance (stage i db))
      (ap (λ b. stage_of b (effects_of i db)) (sym os)
        ∙ ap (stage_of (contains (has_order_id i) d.orders)) (sym es))
      stays
