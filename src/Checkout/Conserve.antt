-- ===== src/Checkout/Conserve.antt =====
-- Purchases move units and money between tables, and lose none.
use marketplace_api.Checkout.{
  checkout, place, in_stock, can_pay, purchase_order, purchase_item, purchase_data,
}
use marketplace_api.Checkout.Books.{
  IsKeyed, stocked, funds, ordered, billed, ordered-append, billed-append, stocked-update,
  funds-update, products-Distinct, users-Distinct,
}
use marketplace_api.Outbox.{outbox_row}
use marketplace_api.Outbox.Announced.{IsAnnounced, Announced-append}
use marketplace_api.Prelude.{
  ℕ, ◌+◌, ◌*◌, Conversions, ◌≡◌, refl, arith, Option-cases, inl, inr, Number, ◌∙◌, List, ◌∷◌, [],
  fraction, nan, nat, negative, suc, zero,
}
use marketplace_api.Sql.{find}
use marketplace_api.Store.{Db, build_order_placed_event}
use marketplace_api.Store.Tx.{transaction}

-- What a purchase keeps.
pub record Conserves (db db' : Db) : Type 0 where
  pub keyed : IsKeyed db'
  pub units :
      (p : ℕ)
      → stocked p db'.products + ordered p db'.order_items
        ≡ stocked p db.products + ordered p db.order_items
  pub cents :
      (u : ℕ) → funds u db'.users + billed u db'.orders ≡ funds u db.users + billed u db.orders
  pub announces : IsAnnounced db → IsAnnounced db'

Conserves-refl : (db : Db) → IsKeyed db → Conserves db db
Conserves-refl db k = record { keyed = k; units = λ p. refl; cents = λ u. refl; announces = λ a. a }

module _ (conv : Conversions) (now user product : ℕ) where
  place-Conserves :
      (q : ℕ) (db : Db)
      → IsKeyed db
      → Conserves db (transaction (place conv now user product q) db).1
  unfolding checkout
  place-Conserves q db k = elim (Option-cases (find (in_stock product q) db.products)) [
    | inl e ↦ record {
      keyed = ground arith;
      units = λ p. ground arith;
      cents = λ u. ground arith;
      announces = λ a. ground arith;
    }
    | inr (r, e) ↦ elim (Option-cases (find (can_pay user (r.price_cents * q)) db.users)) [
      | inl f ↦ record {
        keyed = ground arith;
        units = λ p. ground arith;
        cents = λ u. ground arith;
        announces = λ a. ground arith;
      }
      | inr (v, f) ↦ record {
        keyed = ground (
          arith,
          products-Distinct product q db.products k.products_distinct,
          users-Distinct user (r.price_cents * q) db.users k.users_distinct,
        );
        units = λ p. ground (
          arith,
          stocked-update product p q r db.products k.products_distinct e,
          ordered-append p (purchase_item db.next_order_id product q r.price_cents) db.order_items,
        );
        cents = λ u. ground (
          arith,
          funds-update user u (r.price_cents * q) v db.users k.users_distinct f,
          billed-append u (purchase_order db.next_order_id user v.email (r.price_cents * q))
              db.orders,
        );
        announces = λ a. ground (
          arith,
          Announced-append db.orders db.outbox
              (purchase_order db.next_order_id user v.email (r.price_cents * q))
              (outbox_row conv db.next_uuid now (
                build_order_placed_event conv
                  (purchase_data db.next_order_id v.email (r.price_cents * q) product q) now)),
        );
      }
    ]
  ]

  pub checkout-Conserves :
      (quantity : Number) (db : Db)
      → IsKeyed db
      → Conserves db (checkout conv now user product quantity db).1
  unfolding checkout
  checkout-Conserves nan db k = Conserves-refl db k
  checkout-Conserves fraction db k = Conserves-refl db k
  checkout-Conserves (negative n) db k = Conserves-refl db k
  checkout-Conserves (nat zero) db k = Conserves-refl db k
  checkout-Conserves (nat (suc n)) db k = place-Conserves (suc n) db k

Conserves-trans : (a b c : Db) → Conserves a b → Conserves b c → Conserves a c
Conserves-trans a b c h k = record {
  keyed = k.keyed;
  units = λ p. k.units p ∙ h.units p;
  cents = λ u. k.cents u ∙ h.cents u;
  announces = λ e. k.announces (h.announces e);
}

-- A request for a purchase and the time at which it runs.
pub record Purchase : Type 0 where
  pub now : ℕ
  pub user : ℕ
  pub product : ℕ
  pub quantity : Number

unfoldable pub run : Conversions → List Purchase → Db → Db
unfolding checkout
run conv [] db = db
run conv (c ∷ cs) db = run conv cs (checkout conv c.now c.user c.product c.quantity db).1

-- Over any sequence of purchases, failed ones included, ids stay keys; the stock and the ordered
-- units of each product keep their sum, as do the balance and the billed cents of each user; and
-- if the outbox announces each order exactly once before, it does so after.
pub run-Conserves :
    (conv : Conversions) (cs : List Purchase) (db : Db) → IsKeyed db → Conserves db (run conv cs db)
unfolding run
run-Conserves conv [] db k = Conserves-refl db k
run-Conserves conv (c ∷ cs) db k =
    let step = checkout-Conserves conv c.now c.user c.product c.quantity db k in
    Conserves-trans _ _ _ step (run-Conserves conv cs _ step.keyed)
