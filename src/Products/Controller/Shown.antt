-- ===== src/Products/Controller/Shown.antt =====
-- What a card says.
use marketplace_api.Prelude.{
  Bool, Bool-cases, Conversions, List, Number, Option, Text, ap, arith, fraction, if◌then◌else◌,
  inl, inr, ltb, nan, nat, negative, none, positive?, refl, some, suc, sym, zero, ℕ, ◌^◌, ◌∙◌, ◌≡◌,
  length, sum_of, ◌==◌,
}
use marketplace_api.Store.{Db, OrderItem, Product}
use marketplace_api.Products.Card.{
  load_card, ProductCard, card_row, has_product, card_of, units_of, of_product,
}
use marketplace_api.Products.Cards.{Others, Answered, get_card_uncached, CardWorld, get_card}
use marketplace_api.Products.Cards.Fresh.{Considerate, IsFresh, get_card-get_card_uncached}
use marketplace_api.Sql.{find, select}
use marketplace_api.Store.Tx.{ok, Result, err, database_error}
use marketplace_api.Products.Controller.{get_product_card, answered_card, card_numbered}
use mathlib.Core.Path.{subst}
use marketplace_api.Products.Card.Sums.{cents_of, units_of-sum, revenue_of-sum}
use marketplace_api.Products.Card.Sums.{OrderIds, orders_of-OrderIds}

module _ (conv : Conversions) where
  -- The lines of a product.
  abbrev lines_of : ℕ → Db → List OrderItem
  lines_of number db = select (λ r. r.product_id == number) db.order_items

  -- The row behind a card and its number, and what the card says of it and of its lines: the units
  -- that were sold, the cents that each line cost at its own price, and the number of orders.
  pub record Card (product_id : Text) (db : Db) (c : ProductCard) : Type 0 where
    pub number : ℕ
    pub product : Product
    pub named : conv.number product_id ≡ nat number
    pub stored : find (has_product number) db.products ≡ some product
    pub id : c.id ≡ conv.string product.id
    pub name : c.name ≡ product.name
    pub price : c.price_cents ≡ product.price_cents
    pub currency : c.currency ≡ product.currency
    pub stock : c.stock ≡ product.stock
    pub units : c.units_sold ≡ sum_of (λ r. r.quantity) (lines_of number db)
    pub revenue : c.revenue_cents ≡ sum_of cents_of (lines_of number db)
    pub order_ids : List ℕ
    pub orders : OrderIds (lines_of number db) order_ids
    pub count : c.orders_count ≡ length order_ids

  shown-Card :
      (product_id : Text) (i : ℕ) (db : Db) (p : Product) (c : ProductCard)
      → conv.number product_id ≡ nat i
      → find (has_product i) db.products ≡ some p
      → c ≡ card_of conv p (lines_of i db)
      → Card product_id db c
  shown-Card product_id i db p c named stored e =
      let (ids, h, n) = orders_of-OrderIds (lines_of i db) in
      record {
        number = i;
        product = p;
        named = named;
        stored = stored;
        id = ap (λ (x : ProductCard). x.id) e;
        name = ap (λ (x : ProductCard). x.name) e;
        price = ap (λ (x : ProductCard). x.price_cents) e;
        currency = ap (λ (x : ProductCard). x.currency) e;
        stock = ap (λ (x : ProductCard). x.stock) e;
        units = ap (λ (x : ProductCard). x.units_sold) e ∙ units_of-sum (lines_of i db);
        revenue = ap (λ (x : ProductCard). x.revenue_cents) e ∙ revenue_of-sum (lines_of i db);
        order_ids = ids;
        orders = h;
        count = ap (λ (x : ProductCard). x.orders_count) e ∙ n;
      }

  card_row-some :
      (rs : List OrderItem) (p : Option Product) (c : ProductCard)
      → card_row conv rs p ≡ ok (some c)
      → (q : Product) × (p ≡ some q) × (c ≡ card_of conv q rs)
  card_row-some rs none c h = absurd (cc)
  card_row-some rs (some p) c h = elim (Bool-cases (ltb (units_of rs) (2 ^ 31))) [
    | inr e ↦ absurd (ground (arith, e, h))
    | inl e ↦
        let same : ok (some (card_of conv p rs)) ≡ ok (some c) =
          subst
            (λ b. (if b then ok (some (card_of conv p rs)) else err database_error) ≡ ok (some c)) e
            h in
        (p, refl, sym (cc))
  ]

  load_card-some :
      (i : ℕ) (db : Db) (c : ProductCard)
      → load_card conv i db ≡ ok (some c)
      → (q : Product) × (find (has_product i) db.products ≡ some q)
        × (c ≡ card_of conv q (select (of_product i) db.order_items))
  unfolding load_card
  load_card-some i db c h = elim (Bool-cases (ltb i (2 ^ 31))) [
    | inr e ↦ absurd (ground (arith, e, h))
    | inl e ↦
        card_row-some (select (of_product i) db.order_items) (find (has_product i) db.products) c (
          subst
            (λ b.
              (if b
                then card_row conv (select (of_product i) db.order_items)
                    (find (has_product i) db.products)
                else err database_error)
              ≡ ok (some c))
            e h)
  ]

  module _ (o : Others) (considerate : Considerate conv o) (draw : ℕ) (token : Text) where
    answered-Card :
        (product_id : Text) (i : ℕ) (a : Option Answered) (w' : CardWorld) (c : ProductCard)
        → conv.number product_id ≡ nat i
        → ((r : Result (Option ProductCard)) → a ≡ some (r, w') → r ≡ load_card conv i w'.db)
        → answered_card a ≡ some (ok c, w')
        → Card product_id w'.db c
    answered-Card product_id i none w' c e fresh h = absurd (cc)
    answered-Card product_id i (some (err f, w)) w' c e fresh h = absurd (cc)
    answered-Card product_id i (some (ok none, w)) w' c e fresh h = absurd (cc)
    answered-Card product_id i (some (ok (some d), w)) w' c e fresh h =
        let same : w ≡ w' = cc in
        let card : d ≡ c = cc in
        let loaded = sym (fresh (ok (some d)) (ap (λ x. some (ok (some d), x)) same)) in
        let (p, there, shown) = load_card-some i w'.db d loaded in
        shown-Card product_id i w'.db p c e there (sym card ∙ shown)

    numbered-Card :
        (product_id : Text) (x : Number) (single_flight : Bool) (polls : ℕ) (w w' : CardWorld)
        (c : ProductCard)
        → conv.number product_id ≡ x
        → IsFresh conv w
        → card_numbered conv o draw token (positive? x) single_flight polls w ≡ some (ok c, w')
        → Card product_id w'.db c
    unfolding get_card_uncached
    numbered-Card product_id nan single_flight polls w w' c e f h = absurd (cc)
    numbered-Card product_id fraction single_flight polls w w' c e f h = absurd (cc)
    numbered-Card product_id (negative n) single_flight polls w w' c e f h = absurd (cc)
    numbered-Card product_id (nat zero) single_flight polls w w' c e f h = absurd (cc)
    numbered-Card product_id (nat (suc n)) single_flight polls w w' c e f h =
        answered-Card product_id (suc n) (get_card conv o draw token (suc n) single_flight polls w)
          w' c e
          (λ r eq.
            (get_card-get_card_uncached conv o considerate draw token (suc n) single_flight polls w
              w' r f eq).1)
          h

    -- With a fresh cache, which the others keep fresh, and no write while a card is loaded: a card
    -- that is shown is that of the product of this number in the tables as they are when the request
    -- ends, with the units, the revenue and the number of orders of all its lines.
    pub get_product_card-Card :
        (product_id : Text) (single_flight : Bool) (polls : ℕ) (w w' : CardWorld) (c : ProductCard)
        → IsFresh conv w
        → get_product_card conv o draw token product_id single_flight polls w ≡ some (ok c, w')
        → Card product_id w'.db c
    unfolding get_product_card
    get_product_card-Card product_id single_flight polls w w' c f h =
        numbered-Card product_id (conv.number product_id) single_flight polls w w' c refl f h
