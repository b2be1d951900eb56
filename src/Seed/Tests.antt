-- ===== src/Seed/Tests.antt =====
-- The seed of a small shop.
use marketplace_api.Prelude.{unary, text, none, [], ◌∷◌, ◌≡◌, refl, arith, length}
use marketplace_api.Store.{Product, User, admin, empty_db}
use marketplace_api.Seed.{seed_orders}
use marketplace_api.Store.Tx.{ok, err, internal_error}
use marketplace_api.Seed.Accounted.{IsAccounted}
use marketplace_api.Seed.Complete.{seed_orders-IsAccounted}

abbrev hub : Product
hub = record { id = 1; name = text "hub"; price_cents = 64900; stock = 50; currency = text "UAH" }

abbrev screen : Product
screen = record {
  id = 2;
  name = text "screen";
  price_cents = 899900;
  stock = 50;
  currency = text "UAH";
}

abbrev olena : User
olena = record {
  id = 1;
  email = text "o@x";
  name = text "Olena";
  password_hash = none;
  role = admin;
  balance_cents = 500000;
}

seed_orders-IsAccounted_example :
    let d = (seed_orders unary (olena ∷ []) (hub ∷ screen ∷ []) empty_db).1 in
    ((seed_orders unary (olena ∷ []) (hub ∷ screen ∷ []) empty_db).0 ≡ ok tt)
    × (length d.orders ≡ 10)
    × IsAccounted unary d
    × (seed_orders unary (olena ∷ []) (hub ∷ []) d ≡ (ok tt, d))
seed_orders-IsAccounted_example =
    seed_orders-IsAccounted unary olena [] hub (screen ∷ []) 899900 empty_db (olena ∷ []) (hub ∷ [])
      (omega arith, (omega arith, tt)) (omega arith) refl tt

-- Without products the first order fails.
nothing_sold : (seed_orders unary (olena ∷ []) [] empty_db).0 ≡ err internal_error
unfolding seed_orders
nothing_sold = refl
