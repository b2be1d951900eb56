-- ===== src/Orders/Create/Priced.antt =====
-- The lines of a new order against the request and the products.
use marketplace_api.Prelude.{
  List, [], arith, refl, ℕ, ◌∷◌, ◌≡◌, Bool-cases, Conversions, Number, Option, ap, fraction, inl,
  inr, ltb, map, nan, nat, negative, none, some, sym, true, ◌^◌,
}
use marketplace_api.Orders.Create.{
  OrderItemDto, find_product, price_items, PricedItem, has_product_id, new_item,
}
use marketplace_api.Store.{Product, OrderItem}
use marketplace_api.Store.Tx.{Result, ok, err, bad_request}
use marketplace_api.Sql.{find}
use mathlib.Core.Option.{some-injective}
use mathlib.Core.Path.{subst}

module _ (conv : Conversions) where
  -- The lines that are stored for a request: one for each of its items in their order, for the product
  -- of that number, in the quantity of the item, and at the price that the product has.
  abbrev pub AreOrdered : List OrderItemDto → List Product → List OrderItem → Type 0
  AreOrdered [] products [] = Unit
  AreOrdered [] products (r ∷ rs) = ⊥
  AreOrdered (i ∷ is) products [] = ⊥
  AreOrdered (i ∷ is) products (r ∷ rs) =
      ((p : Product) × (find (has_product_id r.product_id) products ≡ some p)
        × (conv.number i.product_id ≡ nat r.product_id)
        × (r.price_at_purchase_cents ≡ p.price_cents)
        × (r.quantity ≡ i.quantity))
      × AreOrdered is products rs

  find-numbered :
      (n : ℕ) (rows : List Product) (p : Product) → find (has_product_id n) rows ≡ some p → p.id ≡ n
  find-numbered n [] p h = absurd (cc)
  find-numbered n (r ∷ rs) p h = elim (Bool-cases (has_product_id n r)) [
    | inl y ↦
        let same : r ≡ p = some-injective r p (found r rs y h) in
        subst (λ q. q.id ≡ n) same (ground (arith, y))
    | inr other ↦ find-numbered n rs p (ground (arith, other, h))
  ]
    where
      found :
          (r : Product) (rs : List Product)
          → has_product_id n r ≡ true
          → find (has_product_id n) (r ∷ rs) ≡ some p
          → some r ≡ some p
      found r rs y h = ground (arith, y, h)

  find_product-some :
      (x : Number) (rows : List Product) (p : Product)
      → find_product x rows ≡ ok (some p)
      → (x ≡ nat p.id) × (find (has_product_id p.id) rows ≡ some p)
  unfolding find_product
  find_product-some nan rows p h = absurd (cc)
  find_product-some fraction rows p h = absurd (cc)
  find_product-some (negative n) rows p h = elim (Bool-cases (ltb n (2 ^ 31))) [
    | inl y ↦ absurd (ground (arith, y, h))
    | inr large ↦ absurd (ground (arith, large, h))
  ]
  find_product-some (nat n) rows p h = elim (Bool-cases (ltb n (2 ^ 31))) [
    | inl y ↦
        let there : find (has_product_id n) rows ≡ some p = ground (arith, y, h) in
        let e : n ≡ p.id = sym (find-numbered n rows p there) in
        (ap nat e, subst (λ m. find (has_product_id m) rows ≡ some p) e there)
    | inr large ↦ absurd (ground (arith, large, h))
  ]

  priced_one :
      (quantity : ℕ) (found : Result (Option Product)) (rest : Result (List PricedItem))
      (ps : List PricedItem)
      → (elim found [
        | err e ↦ err e
        | ok none ↦ err bad_request
        | ok (some p) ↦ elim rest [
          | err e ↦ err e
          | ok qs ↦ ok ((record { product = p; quantity = quantity }) ∷ qs)
        ]
      ])
        ≡ ok ps
      → (p : Product) × (qs : List PricedItem) × (found ≡ ok (some p))
        × (rest ≡ ok qs)
        × (record { product = p; quantity = quantity } ∷ qs ≡ ps)
  priced_one quantity (err e) rest ps h = absurd (cc)
  priced_one quantity (ok none) rest ps h = absurd (cc)
  priced_one quantity (ok (some p)) (err e) ps h = absurd (cc)
  priced_one quantity (ok (some p)) (ok qs) ps h = (p, qs, refl, refl, cc)

  pub price_items-AreOrdered :
      (order_id : ℕ) (is : List OrderItemDto) (rows : List Product) (ps : List PricedItem)
      → price_items conv is rows ≡ ok ps
      → AreOrdered is rows (map (new_item conv order_id) ps)
  unfolding price_items
  price_items-AreOrdered order_id [] rows [] h = tt
  price_items-AreOrdered order_id [] rows (p ∷ ps) h = absurd (cc)
  price_items-AreOrdered order_id (i ∷ is) rows ps h =
      let (p, qs, found, rest, e) =
        priced_one i.quantity (find_product (conv.number i.product_id) rows)
          (price_items conv is rows) ps h in
      let (named, there) = find_product-some (conv.number i.product_id) rows p found in
      subst (λ xs. AreOrdered (i ∷ is) rows (map (new_item conv order_id) xs)) e
        ((p, there, named, refl, refl), price_items-AreOrdered order_id is rows qs rest)
