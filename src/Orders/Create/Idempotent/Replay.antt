-- ===== src/Orders/Create/Idempotent/Replay.antt =====
-- A second request with an idempotency key.
use mathlib.Core.Path.{subst}
use marketplace_api.Prelude.{
  Conversions, Option, [], arith, ℕ, ◌++◌, ◌∷◌, ◌≡◌, Text, refl, some, text_eq-ne, text_eq_refl,
  true, ◌<◌, ◌^◌, ◌≢◌, Bool, List, none, ◌∙◌, Option-cases, ap, false, inl, inr, sym, ◌⊎◌,
}
use marketplace_api.Orders.Create.{insert_order_with_event, save_order, CreateOrderDto}
use marketplace_api.Outbox.{enqueue_order_placed}
use marketplace_api.Store.{Db, Order, IdempotencyKey}
use marketplace_api.Store.Tx.{ok, transaction, err, unprocessable, Result, Failure, commit}
use marketplace_api.Orders.Read.{OrderResponse, has_order_id, load_order}
use marketplace_api.Orders.Create.Idempotent.{
  create_idempotent, claim_or_replay, has_key, scoped_key, set_order_id, claim_key, answer, replay,
  claim_or_create, record_order,
}
use marketplace_api.Sql.{find, find-append, update, find-update}
use marketplace_api.Orders.Read.Access.{find_one-number}

module _ (conv : Conversions) where
  insert-saved :
      (now : ℕ) (dto : CreateOrderDto) (user_id : Option ℕ) (db d : Db) (order : Order)
      → insert_order_with_event conv now dto user_id db ≡ ok (order, d)
      → (d.idempotency_keys ≡ db.idempotency_keys)
        × (order.id ≡ db.next_order_id)
        × (d.orders ≡ db.orders ++ order ∷ [])
  unfolding insert_order_with_event save_order enqueue_order_placed
  insert-saved now dto user_id db d order h = ground (arith, h)

  abbrev row_of : Text → Text → Option ℕ → IdempotencyKey
  row_of k request_hash order_id = record {
    key = k;
    request_hash = request_hash;
    order_id = order_id;
  }

  -- What a request that created its order has left.
  record Created (k request_hash : Text) (db' : Db) (o : OrderResponse) : Type 0 where
    pub order : Order
    pub small : order.id < 2 ^ 31
    pub keeps : find (has_key k) db'.idempotency_keys ≡ some (row_of k request_hash (some order.id))
    pub stores : find (has_order_id order.id) db'.orders ≡ some order
    pub shows : o ≡ load_order conv db' order

  replayed :
      (later : ℕ) (dto : CreateOrderDto) (client_key request_hash : Text) (user_id : Option ℕ)
      (db : Db) (o : OrderResponse)
      → Created (scoped_key conv user_id client_key) request_hash db o
      → create_idempotent conv later dto client_key request_hash user_id db ≡ (ok (o, true), db)
  unfolding create_idempotent claim_or_replay transaction
  replayed later dto client_key request_hash user_id db o c =
      let shown =
        find_one-number conv (conv.string c.order.id) c.order.id c.order db
          (conv.number-string c.order.id) c.small c.stores in
      rw (c.keeps, text_eq_refl request_hash, shown, c.shows) refl

  mismatched :
      (later : ℕ) (dto : CreateOrderDto) (client_key request_hash other : Text) (user_id : Option ℕ)
      (db : Db) (o : OrderResponse)
      → Created (scoped_key conv user_id client_key) request_hash db o
      → request_hash ≢ other
      → create_idempotent conv later dto client_key other user_id db ≡ (err unprocessable, db)
  unfolding create_idempotent claim_or_replay transaction
  mismatched later dto client_key request_hash other user_id db o c ne =
      rw (c.keeps, text_eq-ne request_hash other ne) refl

  find-appended :
      {A : Type 0} (p : A → Bool) (xs : List A) (a : A)
      → find p xs ≡ none
      → p a ≡ true
      → find p (xs ++ a ∷ []) ≡ some a
  find-appended p xs a f h = rw (find-append p xs (a ∷ []), f) (ground (arith, h))

  claimed_row :
      (k request_hash : Text) (order_id : ℕ) (keys : List IdempotencyKey)
      → find (has_key k) keys ≡ none
      → find
          (has_key k)
          (update (has_key k) (set_order_id order_id) (keys ++ row_of k request_hash none ∷ []))
        ≡ some (row_of k request_hash (some order_id))
  claimed_row k request_hash order_id keys f =
      let found = find-appended (has_key k) keys (row_of k request_hash none) f (text_eq_refl k) in
      find-update (has_key k) (has_key k) (set_order_id order_id) (λ r. refl) _
      ∙ rw (found, text_eq_refl k) refl

  abbrev finished : Text → Order → Db → Db
  finished k order d = record d {
    idempotency_keys = update (has_key k) (set_order_id order.id) d.idempotency_keys;
  }

  finished-Created :
      (now : ℕ) (dto : CreateOrderDto) (k request_hash : Text) (user_id : Option ℕ) (db d : Db)
      (order : Order)
      → db.next_order_id < 2 ^ 31
      → find (has_order_id db.next_order_id) db.orders ≡ none
      → find (has_key k) db.idempotency_keys ≡ none
      → insert_order_with_event conv now dto user_id (claim_key conv k request_hash db)
        ≡ ok (order, d)
      → Created k request_hash (finished k order d) (load_order conv (finished k order d) order)
  finished-Created now dto k request_hash user_id db d order small fresh free h =
      let (keys, id, orders) =
        insert-saved now dto user_id (claim_key conv k request_hash db) d order h in
      record {
        order = order;
        small = subst (λ i. i < 2 ^ 31) (sym id) small;
        keeps =
            ap (λ ks. find (has_key k) (update (has_key k) (set_order_id order.id) ks)) keys
            ∙ claimed_row k request_hash order.id db.idempotency_keys free;
        stores =
            ap (find (has_order_id order.id)) orders
            ∙ find-appended (has_order_id order.id) db.orders order
                (subst (λ i. find (has_order_id i) db.orders ≡ none) (sym id) fresh) (ground arith);
        shows = refl;
      }

  inserted-cases :
      (r : Result (Order × Db))
      → ((f : Failure) × (r ≡ err f)) ⊎ ((order : Order) × (d : Db) × (r ≡ ok (order, d)))
  inserted-cases (err f) = inl (f, refl)
  inserted-cases (ok (order, d)) = inr (order, d, refl)

  not_replayed :
      (request_hash : Text) (row : IdempotencyKey) (db db' : Db) (o : OrderResponse)
      → answer conv request_hash (ok (replay row), db) ≢ (ok (o, false), db')
  not_replayed request_hash row db db' o h = ground (arith, h)

  same_answer :
      (a b : OrderResponse) (d d' : Db)
      → Path (Result (OrderResponse × Bool) × Db) (ok (a, false), d) (ok (b, false), d')
      → (a ≡ b) × (d ≡ d')
  same_answer a b d d' h =
      (ground (arith, h), ap (λ (p : Result (OrderResponse × Bool) × Db). p.1) h)

  Created-Created :
      (now : ℕ) (dto : CreateOrderDto) (client_key request_hash : Text) (user_id : Option ℕ)
      (db db' : Db) (o : OrderResponse)
      → db.next_order_id < 2 ^ 31
      → find (has_order_id db.next_order_id) db.orders ≡ none
      → create_idempotent conv now dto client_key request_hash user_id db ≡ (ok (o, false), db')
      → Created (scoped_key conv user_id client_key) request_hash db' o
  unfolding create_idempotent claim_or_replay transaction
  Created-Created now dto client_key request_hash user_id db db' o small fresh h =
      let k = scoped_key conv user_id client_key in
      elim (Option-cases (find (has_key k) db.idempotency_keys)) [
        | inr (row, taken) ↦ absurd (
            not_replayed request_hash row db db' o (
              subst
                (λ f.
                  answer conv request_hash
                    (commit db (claim_or_create conv now dto k request_hash user_id f db))
                  ≡ (ok (o, false), db'))
                taken h))
        | inl free ↦
            let made =
              subst
                (λ f.
                  answer conv request_hash
                    (commit db (claim_or_create conv now dto k request_hash user_id f db))
                  ≡ (ok (o, false), db'))
                free h in
            elim (inserted-cases
              (insert_order_with_event conv now dto user_id (claim_key conv k request_hash db))) [
                | inl (f, e) ↦ absurd (
                    ground (
                      arith,
                      subst
                          (λ r.
                            answer conv request_hash (commit db (record_order conv k r))
                            ≡ (ok (o, false), db'))
                          e made,
                    ))
                | inr (order, d, e) ↦
                    let same = same_answer _ _ _ _ (
                      subst
                        (λ r.
                          answer conv request_hash (commit db (record_order conv k r))
                          ≡ (ok (o, false), db'))
                        e made) in
                    subst (λ x. Created k request_hash db' x) same.0
                      (subst
                        (λ x. Created k request_hash x (load_order conv (finished k order d) order))
                        same.1
                        (finished-Created now dto k request_hash user_id db d order small fresh free
                          e))
              ]
      ]

  -- After a request has created an order, a request with its key and the same body gets the order
  -- again, marked as a replay, and one with its key and another body is refused; neither changes
  -- the tables. The sequence of order ids is ahead of the table and within an int4.
  pub create_idempotent-replays :
      (now later : ℕ) (dto other_dto : CreateOrderDto) (client_key request_hash other_hash : Text)
      (user_id : Option ℕ) (db db' : Db) (o : OrderResponse)
      → db.next_order_id < 2 ^ 31
      → find (has_order_id db.next_order_id) db.orders ≡ none
      → create_idempotent conv now dto client_key request_hash user_id db ≡ (ok (o, false), db')
      → request_hash ≢ other_hash
      → (create_idempotent conv later dto client_key request_hash user_id db' ≡ (ok (o, true), db'))
        × (create_idempotent conv later other_dto client_key other_hash user_id db'
            ≡ (err unprocessable, db'))
  create_idempotent-replays now later dto other_dto client_key request_hash other_hash user_id db
        db' o small fresh h ne =
      let c = Created-Created now dto client_key request_hash user_id db db' o small fresh h in
      (
        replayed later dto client_key request_hash user_id db' o c,
        mismatched later other_dto client_key request_hash other_hash user_id db' o c ne,
      )
