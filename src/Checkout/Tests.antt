-- ===== src/Checkout/Tests.antt =====
-- Runs of the checkout on a small shop.
use marketplace_api.Checkout.{checkout, purchase_item}
use marketplace_api.Checkout.Books.{IsKeyed}
use marketplace_api.Checkout.Conserve.{Conserves, run, run-Conserves}
use marketplace_api.Checkout.Outcome.{checkout-outcome}
use marketplace_api.Prelude.{
  ◌≡◌, refl, [], ◌∷◌, none, unary, nat, text, fraction, arith, some, ◌==◌,
}
use marketplace_api.Store.{Db, Product, User, customer, empty_db}
use marketplace_api.Store.Tx.{
  ok, err, insufficient_stock, insufficient_funds, invalid_quantity, database_error,
}
use marketplace_api.Checkout.Race.{race, race-settled}
use marketplace_api.Sql.{find}

abbrev keyboard : Product
keyboard = record { id = 7; name = text "kb"; price_cents = 450; stock = 3; currency = text "UAH" }

abbrev buyer : User
buyer = record {
  id = 1;
  email = text "o@x";
  name = text "O";
  password_hash = none;
  role = customer;
  balance_cents = 1000;
}

abbrev shop : Db
shop = record empty_db { products = keyboard ∷ []; users = buyer ∷ [] }

shop-IsKeyed : IsKeyed shop
shop-IsKeyed = record { products_distinct = (tt, tt); users_distinct = (tt, tt) }

two_bought : (checkout unary 5 1 7 (nat 2) shop).0 ≡ ok 1
unfolding checkout
two_bought = refl

too_many : (checkout unary 5 1 7 (nat 4) shop).0 ≡ err insufficient_stock
unfolding checkout
too_many = refl

too_dear : (checkout unary 5 1 7 (nat 3) shop).0 ≡ err insufficient_funds
unfolding checkout
too_dear = refl

half_a_unit : (checkout unary 5 1 7 fraction shop).0 ≡ err invalid_quantity
unfolding checkout
half_a_unit = refl

out_of_range : (checkout unary 5 1 7 (nat 3000000000) shop).0 ≡ err database_error
unfolding checkout
out_of_range = refl

item_saved : (checkout unary 5 1 7 (nat 2) shop).1.order_items ≡ purchase_item 1 7 2 450 ∷ []
unfolding checkout
item_saved = refl

checkout-outcome_example : (checkout unary 5 1 7 (nat 3) shop).0 ≡ err insufficient_funds
checkout-outcome_example =
    checkout-outcome unary 5 1 7 2 shop keyboard shop-IsKeyed (omega arith) refl (omega arith)

run-Conserves_example : Conserves shop (
    run unary
      ((record { now = 5; user = 1; product = 7; quantity = nat 2 })
        ∷ (record { now = 6; user = 1; product = 7; quantity = nat 2 })
        ∷ [])
      shop)
run-Conserves_example = run-Conserves unary _ shop shop-IsKeyed

-- One unit, and two who want it.
abbrev last_unit : Product
last_unit = record keyboard { stock = 1 }

abbrev short_shop : Db
short_shop = record shop { products = last_unit ∷ [] }

short_shop-IsKeyed : IsKeyed short_shop
short_shop-IsKeyed = record { products_distinct = (tt, tt); users_distinct = (tt, tt) }

race-settled_example :
    let out = race unary 5 1 7 2 short_shop in
    (out.successful ≡ 1)
    × ((out.unexpected ≡ 0)
        × (find (λ (r : Product). r.id == 7) out.final.products
            ≡ some (record last_unit { stock = 0 })))
race-settled_example =
    race-settled unary 5 1 7 2 short_shop last_unit buyer short_shop-IsKeyed refl refl (omega arith)
      (omega arith)
