-- ===== src/Products/Card.antt =====
-- src/products/product-card.ts, src/products/product-card.repository.ts and src/cache/ttl.ts: a card
-- with the sales of a product, as one query reads it.
pub mod Sums
use marketplace_api.Prelude.{
  Bool, Conversions, List, Option, Text, [], if◌then◌else◌, ltb, none, some, suc, text, ℕ, ◌*◌,
  ◌++◌, ◌+◌, ◌==◌, ◌^◌, ◌∷◌, ◌≡◌,
}
use marketplace_api.Store.{OrderItem, Product, Db, string-injective}
use marketplace_api.Sql.{contains, select, find}
use marketplace_api.Store.Tx.{Result, ok, err, database_error}

-- `ProductCard`
pub record ProductCard : Type 0 where
  pub id : Text
  pub name : Text
  pub price_cents : ℕ
  pub currency : Text
  pub stock : ℕ
  pub units_sold : ℕ
  pub revenue_cents : ℕ
  pub orders_count : ℕ

abbrev pub card_ttl_base_sec : ℕ
card_ttl_base_sec = 300

abbrev pub negative_ttl_sec : ℕ
negative_ttl_sec = 30

abbrev pub lock_ttl_ms : ℕ
lock_ttl_ms = 5000

abbrev pub lock_wait_budget_ms : ℕ
lock_wait_budget_ms = 2000

abbrev pub lock_poll_ms : ℕ
lock_poll_ms = 25

-- `jitteredTtl`: `draw` is the random part, a whole number of seconds up to CARD_TTL_SPREAD_SEC.
abbrev pub jittered_ttl : ℕ → ℕ
jittered_ttl draw = card_ttl_base_sec + draw

abbrev pub of_product : ℕ → OrderItem → Bool
of_product i r = r.product_id == i

-- sum(oi.quantity)
abbrev pub units_of : List OrderItem → ℕ
units_of [] = 0
units_of (r ∷ rs) = r.quantity + units_of rs

-- sum(oi.quantity * oi."priceAtPurchaseCents")
abbrev pub revenue_of : List OrderItem → ℕ
revenue_of [] = 0
revenue_of (r ∷ rs) = r.quantity * r.price_at_purchase_cents + revenue_of rs

abbrev pub in_order : ℕ → OrderItem → Bool
in_order i r = r.order_id == i

-- count(DISTINCT oi."orderId")
abbrev pub orders_of : List OrderItem → ℕ
orders_of [] = 0
orders_of (r ∷ rs) =
    let rest = orders_of rs in if contains (in_order r.order_id) rs then rest else suc rest

abbrev pub has_product : ℕ → Product → Bool
has_product i p = p.id == i

module _ (conv : Conversions) where
  -- `cardKey`
  unfoldable pub card_key : ℕ → Text
  card_key i = text "product:card:" ++ conv.string i

  -- `cardLockKey`
  unfoldable pub card_lock_key : ℕ → Text
  card_lock_key i = text "lock:product:card:" ++ conv.string i

  abbrev pub card_of : Product → List OrderItem → ProductCard
  card_of p rs = record {
    id = conv.string p.id;
    name = p.name;
    price_cents = p.price_cents;
    currency = p.currency;
    stock = p.stock;
    units_sold = units_of rs;
    revenue_cents = revenue_of rs;
    orders_count = orders_of rs;
  }

  -- The row of CARD_SQL; a sum of units that is no int4 fails in the query.
  abbrev pub card_row : List OrderItem → Option Product → Result (Option ProductCard)
  card_row rs none = ok none
  card_row rs (some p) =
      if ltb (units_of rs) (2 ^ 31) then ok (some (card_of p rs)) else err database_error

  -- `loadCard`
  unfoldable pub load_card : ℕ → Db → Result (Option ProductCard)
  load_card i db =
      if ltb i (2 ^ 31)
      then card_row (select (of_product i) db.order_items) (find (has_product i) db.products)
      else err database_error

  -- A card key names its product.
  pub card_key-injective : (m n : ℕ) → card_key m ≡ card_key n → m ≡ n
  unfolding card_key
  card_key-injective m n e = string-injective conv m n (cc)
