-- ===== src/Products/Service/Created.antt =====
-- A product that is created can be read, and its name is taken.
use marketplace_api.Prelude.{
  Bool-cases, Conversions, List, [], ap, arith, false, inl, inr, ltb, refl, some, text_eq,
  text_eq_refl, true, ℕ, ◌&&◌, ◌++◌, ◌<◌, ◌^◌, ◌∙◌, ◌∷◌, ◌≡◌, sym,
}
use marketplace_api.Products.Service.{
  CreateProductDto, find_product_one, create_product, has_name, ProductResponse, product_response,
  product_or_404, new_product,
}
use marketplace_api.Store.{Product, Db}
use marketplace_api.Sql.{contains, find, contains-append}
use marketplace_api.Orders.Create.{find_product, has_product_id}
use marketplace_api.Store.Tx.{ok, err, conflict}

module _ (conv : Conversions) where
  name-taken :
      (dto : CreateProductDto) (ps : List Product) (p : Product)
      → text_eq p.name dto.name ≡ true
      → contains (has_name dto.name) (ps ++ p ∷ []) ≡ true
  name-taken dto ps p h = contains-append (has_name dto.name) ps p ∙ ground (arith, h)

  find-new :
      (i : ℕ) (ps : List Product) (p : Product)
      → contains (has_product_id i) ps ≡ false
      → p.id ≡ i
      → find (has_product_id i) (ps ++ p ∷ []) ≡ some p
  find-new i [] p h e = ground (arith, e)
  find-new i (q ∷ ps) p h e = ground (arith, h, find-new i ps p, e)

  find_product_one-stored :
      (i : ℕ) (p : Product) (d : Db)
      → i < 2 ^ 31
      → find (has_product_id i) d.products ≡ some p
      → find_product_one conv (conv.string i) d ≡ ok (product_response conv p)
  unfolding find_product_one find_product
  find_product_one-stored i p d small h =
      ap (λ x. product_or_404 conv (find_product x d.products)) (conv.number-string i)
      ∙ ground (arith, h)

  -- What is left of the guards of a creation that succeeds.
  created-shape :
      (i : ℕ) (dto : CreateProductDto) (db : Db) (r : ProductResponse)
      → (create_product conv i dto db).0 ≡ ok r
      → (ltb dto.price_cents (2 ^ 31) && ltb dto.stock (2 ^ 31) ≡ true)
        × (product_response conv (new_product i dto) ≡ r)
        × ((create_product conv i dto db).1
            ≡ record db { products = db.products ++ new_product i dto ∷ [] })
  unfolding create_product
  created-shape i dto db r h =
      elim (Bool-cases (ltb dto.price_cents (2 ^ 31) && ltb dto.stock (2 ^ 31))) [
        | inr e ↦ absurd (ground (arith, e, h))
        | inl e ↦ elim (Bool-cases (contains (has_name dto.name) db.products)) [
          | inl f ↦ absurd (ground (arith, e, f, h))
          | inr f ↦ (e, ground (arith, e, f, h), ground (arith, e, f, h))
        ]
      ]

  taken-conflict :
      (j : ℕ) (dto : CreateProductDto) (d : Db)
      → ltb dto.price_cents (2 ^ 31) && ltb dto.stock (2 ^ 31) ≡ true
      → contains (has_name dto.name) d.products ≡ true
      → create_product conv j dto d ≡ (err conflict, d)
  unfolding create_product
  taken-conflict j dto d e f = ground (arith, e, f)

  -- With an id that no product has, within an int4: a product that is created is read back under its
  -- id as it was answered, with the name and the price of the request, and each further creation with the same data is a conflict and changes
  -- nothing.
  pub create_product-find_product_one :
      (i : ℕ) (dto : CreateProductDto) (db : Db) (r : ProductResponse)
      → contains (has_product_id i) db.products ≡ false
      → i < 2 ^ 31
      → (create_product conv i dto db).0 ≡ ok r
      → let d = (create_product conv i dto db).1 in
        (find_product_one conv (conv.string i) d ≡ ok r)
        × (r.id ≡ conv.string i)
        × (r.name ≡ dto.name)
        × (r.price_cents ≡ dto.price_cents)
        × ((j : ℕ) → create_product conv j dto d ≡ (err conflict, d))
  create_product-find_product_one i dto db r fresh small h =
      let d = (create_product conv i dto db).1 in
      let (fits, answer, shape) = created-shape i dto db r h in
      let p = new_product i dto in
      let rows : d.products ≡ db.products ++ p ∷ [] = ap (λ (x : Db). x.products) shape in
      (
        find_product_one-stored i p d small
              (ap (find (has_product_id i)) rows ∙ find-new i db.products p fresh refl)
            ∙ ap ok answer,
        ap (λ (x : ProductResponse). x.id) (sym answer),
        ap (λ (x : ProductResponse). x.name) (sym answer),
        ap (λ (x : ProductResponse). x.price_cents) (sym answer),
        λ j. taken-conflict j dto d fits (
            ap (contains (has_name dto.name)) rows
            ∙ name-taken dto db.products p (text_eq_refl dto.name)),
      )
