-- ===== src/Orders/Cards/Fresh.antt =====
-- A new order leaves no stale card behind.
use marketplace_api.Prelude.{
  All, Bool-cases, Conversions, List, Option, [], ap, arith, inl, inr, map, refl, sym, true, ℕ,
  ◌==◌, ◌∷◌, ◌≡◌, ◌≢◌, false, if◌then◌else◌, ltb, ◌++◌, ◌^◌, ◌∙◌, ◌≤◌, Text, none, some, Bool, ◌&&◌,
  ◌⊎◌,
}
use marketplace_api.Products.Cards.{invalidate, CardWorld}
use marketplace_api.Sql.{contains, select, select-append, find}
use marketplace_api.Orders.Cards.{
  distinct, invalidate_all, invalidate_cards, product_ids, create_order_idempotent, after_claim,
}
use marketplace_api.Orders.Create.{PricedItem, new_item, CreateOrderDto, insert_order_with_event}
use marketplace_api.Products.Card.{
  load_card, ProductCard, card_key, of_product, card_row, has_product, card_key-injective,
}
use marketplace_api.Store.{OrderItem, Db, Order, Product, IdempotencyKey}
use marketplace_api.Cache.Values.{hit, cache_kept, cache_del, miss}
use marketplace_api.Orders.Create.Saved.{Saved, result-cases, insert-Saved}
use marketplace_api.Cache.Values.Laws.{cache_kept-cache_del}
use mathlib.Core.Path.{subst}
use marketplace_api.Store.Tx.{Result, transaction, err, database_error, commit}
use mathlib.Core.List.{append-nil}
use marketplace_api.Orders.Read.{of_order}
use marketplace_api.Products.Cards.Fresh.{IsFresh}
use marketplace_api.Orders.Create.Total.{lines-of}
use marketplace_api.Orders.Create.Idempotent.{
  claim_key, claim_or_replay, has_key, scoped_key, claim_or_create, record_order,
}
use marketplace_api.Orders.Create.Changed.{Saved-claimed}

module _ (conv : Conversions) where
  -- What the invalidation of a list of products leaves in the cache: nothing under the keys of the
  -- products, and the rest as it was.
  abbrev Dropped : List ℕ → ℕ → ℕ → CardWorld → CardWorld → Type 0
  Dropped is later i w w' =
      ((contains (λ j. j == i) is ≡ true) × (cache_kept later (card_key conv i) w'.cache ≡ miss))
      ⊎ (All (λ j. j ≢ i) is
          × (cache_kept later (card_key conv i) w'.cache
              ≡ cache_kept later (card_key conv i) w.cache))

  invalidate-answers :
      (j : ℕ) (w : CardWorld) → (invalidate conv j w).cache.answers ≡ w.cache.answers
  unfolding invalidate cache_del
  invalidate-answers j w = elim (Bool-cases w.cache.answers) [
    | inl y ↦ ground (arith, y)
    | inr n ↦ ground (arith, n)
  ]

  invalidate_all-Dropped :
      (is : List ℕ) (w : CardWorld) (later i : ℕ)
      → w.cache.answers ≡ true
      → Dropped is later i w (invalidate_all conv is w)
  unfolding invalidate
  invalidate_all-Dropped [] w later i up = inr (tt, refl)
  invalidate_all-Dropped (j ∷ js) w later i up =
      elim (invalidate_all-Dropped js (invalidate conv j w) later i (invalidate-answers j w ∙ up)) [
        | inl (named, gone) ↦ inl (ground (arith, named), gone)
        | inr (others, same) ↦
            elim (cache_kept-cache_del later (card_key conv i) (card_key conv j) w.cache up) [
              | inl (here, gone) ↦
                  let e : i ≡ j = card_key-injective conv i j here in
                  inl (ground (arith, e), same ∙ gone)
              | inr (apart, kept) ↦
                  inr ((λ e. apart (ap (card_key conv) (sym e)), others), same ∙ kept)
            ]
      ]

  invalidate_all-db : (is : List ℕ) (w : CardWorld) → (invalidate_all conv is w).db ≡ w.db
  unfolding invalidate
  invalidate_all-db [] w = refl
  invalidate_all-db (j ∷ js) w = invalidate_all-db js (invalidate conv j w)

  invalidate_all-now : (is : List ℕ) (w : CardWorld) → (invalidate_all conv is w).now ≡ w.now
  unfolding invalidate
  invalidate_all-now [] w = refl
  invalidate_all-now (j ∷ js) w = invalidate_all-now js (invalidate conv j w)

  find-none : (i : ℕ) (is : List ℕ) → contains (λ j. j == i) is ≡ true → All (λ j. j ≢ i) is → ⊥
  find-none i [] h a = absurd (ground arith)
  find-none i (j ∷ js) h a = ground (arith, find-none i js, a.0, a.1)

  distinct-All : (i : ℕ) (is : List ℕ) → All (λ j. j ≢ i) (distinct is) → All (λ j. j ≢ i) is
  distinct-All i [] h = tt
  distinct-All i (j ∷ js) h = elim (Bool-cases (contains (λ k. k == j) js)) [
    | inl again ↦
        let below =
          distinct-All i js
            (subst (λ b. All (λ k. k ≢ i) (if b then distinct js else j ∷ distinct js)) again h) in
        (λ e. find-none i js (subst (λ k. contains (λ l. l == k) js ≡ true) e again) below, below)
    | inr first ↦
        let all =
          subst (λ b. All (λ k. k ≢ i) (if b then distinct js else j ∷ distinct js)) first h in
        (all.0, distinct-All i js all.1)
  ]

  -- Lines of other products do not show in a card.
  select-other :
      (order_id i : ℕ) (ps : List PricedItem)
      → All (λ j. j ≢ i) (map (λ (r : OrderItem). r.product_id) (map (new_item conv order_id) ps))
      → select (of_product i) (map (new_item conv order_id) ps) ≡ []
  select-other order_id i [] h = refl
  select-other order_id i (p ∷ ps) h = ground (arith, select-other order_id i ps, h.0, h.1)

  abbrev loaded : ℕ → List OrderItem → Option Product → Result (Option ProductCard)
  loaded i rs p = if ltb i (2 ^ 31) then card_row conv rs p else err database_error

  load_card-Saved :
      (now i : ℕ) (db d : Db) (order : Order) (s : Saved conv now db d order)
      → All
          (λ j. j ≢ i)
          (map (λ (r : OrderItem). r.product_id) (map (new_item conv order.id) s.priced))
      → load_card conv i d ≡ load_card conv i db
  unfolding load_card
  load_card-Saved now i db d order s apart =
      let rows = select (of_product i) in
      let items : rows d.order_items ≡ rows db.order_items =
        ap rows s.lines
        ∙ select-append (of_product i) db.order_items (map (new_item conv order.id) s.priced)
        ∙ ap (λ ys. rows db.order_items ++ ys) (select-other order.id i s.priced apart)
        ∙ append-nil (rows db.order_items) in
      ap (λ rs. loaded i rs (find (has_product i) d.products)) items
      ∙ ap (λ ps. loaded i (rows db.order_items) (find (has_product i) ps)) s.products

  contains-distinct :
      (i : ℕ) (is : List ℕ)
      → contains (λ j. j == i) (distinct is) ≡ true
      → contains (λ j. j == i) is ≡ true
  contains-distinct i [] h = h
  contains-distinct i (j ∷ js) h = elim (Bool-cases (contains (λ k. k == j) js)) [
    | inl again ↦ ground (arith, again, h, contains-distinct i js)
    | inr first ↦ ground (arith, first, h, contains-distinct i js)
  ]

  abbrev is_line : ℕ → ℕ → OrderItem → Bool
  is_line order_id i r = r.order_id == order_id && r.product_id == i

  contains-product_ids :
      (order_id i : ℕ) (rs : List OrderItem)
      → contains
          (λ j. j == i)
          (map (λ (r : OrderItem). r.product_id) (select (of_order order_id) rs))
        ≡ true
      → contains (is_line order_id i) rs ≡ true
  contains-product_ids order_id i [] h = h
  contains-product_ids order_id i (r ∷ rs) h = elim (Bool-cases (of_order order_id r)) [
    | inl y ↦ ground (arith, y, h, contains-product_ids order_id i rs)
    | inr n ↦ ground (arith, n, h, contains-product_ids order_id i rs)
  ]

  -- What a request for an order leaves of a card: as it was, or gone, and then the new order has a
  -- line for the product.
  abbrev pub IsUpdated : CardWorld → CardWorld → ℕ → ℕ → Type 0
  IsUpdated w w' later i =
      (cache_kept later (card_key conv i) w'.cache ≡ cache_kept later (card_key conv i) w.cache)
      ⊎ ((cache_kept later (card_key conv i) w'.cache ≡ miss)
          × (contains (is_line w.db.next_order_id i) w'.db.order_items ≡ true))

  -- Fresh again, and no other card changes.
  pub record AreUpdated (w w' : CardWorld) : Type 0 where
    pub fresh : IsFresh conv w'
    pub cards : (later i : ℕ) → IsUpdated w w' later i

  miss-not_hit : {V : Type 0} (v : V) → ¬ (miss ≡ hit v)
  miss-not_hit v e = absurd (cc)

  unchanged : (w : CardWorld) → IsFresh conv w → AreUpdated w w
  unchanged w f = record { fresh = f; cards = λ later i. inl refl }

  created-AreUpdated :
      (w : CardWorld) (d : Db) (order : Order) (s : Saved conv w.now w.db d order)
      → contains (of_order w.db.next_order_id) w.db.order_items ≡ false
      → w.cache.answers ≡ true
      → IsFresh conv w
      → AreUpdated w (invalidate_cards conv order.id (record w { db = d }))
  unfolding invalidate_cards
  created-AreUpdated w d order s free up f =
      let ids = product_ids order.id d in
      let w' = record w { db = d } in
      let now = invalidate_all-now (distinct ids) w' in
      let tables = invalidate_all-db (distinct ids) w' in
      record {
        fresh = λ later i v le h. elim (invalidate_all-Dropped (distinct ids) w' later i up) [
          | inl (_, gone) ↦ absurd (miss-not_hit v (sym gone ∙ h))
          | inr (apart, same) ↦
              let named =
                subst (λ rs. All (λ j. j ≢ i) (map (λ (r : OrderItem). r.product_id) rs))
                  (lines-of conv w.now w.db d order s free) (distinct-All i ids apart) in
              ap (load_card conv i) tables
              ∙ load_card-Saved w.now i w.db d order s named
              ∙ f later i v (subst (λ n. n ≤ later) now le) (sym same ∙ h)
        ];
        cards = λ later i. elim (invalidate_all-Dropped (distinct ids) w' later i up) [
          | inr (_, same) ↦ inl same
          | inl (named, gone) ↦ inr (
            gone,
            subst (λ t. contains (is_line w.db.next_order_id i) t.order_items ≡ true) (sym tables)
                (subst (λ k. contains (is_line k i) d.order_items ≡ true) s.ids
                  (contains-product_ids order.id i d.order_items (contains-distinct i ids named))),
          )
        ];
      }

  claimed-AreUpdated :
      (dto : CreateOrderDto) (k request_hash : Text) (user_id : Option ℕ) (w : CardWorld)
      (row : Option IdempotencyKey)
      → contains (of_order w.db.next_order_id) w.db.order_items ≡ false
      → w.cache.answers ≡ true
      → IsFresh conv w
      → AreUpdated w (
          after_claim conv request_hash w
            (commit w.db (claim_or_create conv w.now dto k request_hash user_id row w.db)))
  claimed-AreUpdated dto k request_hash user_id w (some row) fresh up f = unchanged w f
  claimed-AreUpdated dto k request_hash user_id w none fresh up f =
      elim (result-cases conv
        (insert_order_with_event conv w.now dto user_id (claim_key conv k request_hash w.db))) [
          | inl (e, h) ↦
              subst
                (λ r.
                  AreUpdated w
                    (after_claim conv request_hash w (commit w.db (record_order conv k r))))
                (sym h) (unchanged w f)
          | inr ((order, d), h) ↦
              let s =
                insert-Saved conv w.now dto user_id (claim_key conv k request_hash w.db) d order
                  h in
              subst
                (λ r.
                  AreUpdated w
                    (after_claim conv request_hash w (commit w.db (record_order conv k r))))
                (sym h)
                (created-AreUpdated w _ order
                  (Saved-claimed conv w.now k request_hash w.db d order s) fresh up f)
        ]

  -- While Redis answers: if it keeps no card but those of the tables, and the next order id is
  -- fresh, then a request for an order, whether it creates the order, replays it or fails, leaves it
  -- so. Each card stays as it was, or is dropped, and then the new order has a line for its product.
  pub create_order_idempotent-AreUpdated :
      (dto : CreateOrderDto) (client_key request_hash : Text) (user_id : Option ℕ) (w : CardWorld)
      → contains (of_order w.db.next_order_id) w.db.order_items ≡ false
      → w.cache.answers ≡ true
      → IsFresh conv w
      → AreUpdated w (create_order_idempotent conv dto client_key request_hash user_id w).1
  unfolding create_order_idempotent transaction claim_or_replay
  create_order_idempotent-AreUpdated dto client_key request_hash user_id w fresh up f =
      let k = scoped_key conv user_id client_key in
      claimed-AreUpdated dto k request_hash user_id w (find (has_key k) w.db.idempotency_keys) fresh
        up f
