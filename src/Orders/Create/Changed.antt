-- ===== src/Orders/Create/Changed.antt =====
-- What `create` and `createIdempotent` do to the tables, in two cases.
use marketplace_api.Prelude.{Conversions, Option, Text, inl, inr, none, refl, some, sym, ℕ, ◌≡◌}
use marketplace_api.Store.{Db, Order, IdempotencyKey}
use marketplace_api.Orders.Create.{create, CreateOrderDto, insert_order_with_event}
use marketplace_api.Store.Tx.{Result, transaction, commit, err, ok}
use marketplace_api.Orders.Create.Idempotent.{
  create_idempotent, Claim, claim_or_replay, answer, scoped_key, claim_key, claim_or_create,
  has_key, set_order_id, saved, record_order, replay,
}
use marketplace_api.Orders.Create.Saved.{Saved, result-cases, insert-Saved}
use marketplace_api.Sql.{find, update}
use mathlib.Core.Path.{subst}

module _ (conv : Conversions) where
  -- The claim of a key, and its order's number, are all that a request with a key adds.
  pub Saved-claimed :
      (now : ℕ) (k request_hash : Text) (db d : Db) (order : Order)
      → Saved conv now (claim_key conv k request_hash db) d order
      → Saved conv now db
          (record d {
            idempotency_keys = update (has_key k) (set_order_id order.id) d.idempotency_keys;
          })
          order
  Saved-claimed now k request_hash db d order s = record {
    priced = s.priced;
    ids = s.ids;
    total = s.total;
    rows = s.rows;
    lines = s.lines;
    next = s.next;
    message = s.message;
    uuids = s.uuids;
    products = s.products;
    effects = s.effects;
    marks = s.marks;
  }

  -- The tables before and after a request: no change that lasts, or a new order.
  pub data Changed (now : ℕ) (db d : Db) : Type 0 where
    unchanged : d ≡ db → Changed now db d
    ordered : (order : Order) → Saved conv now db d order → Changed now db d

  pub create-Changed :
      (now : ℕ) (dto : CreateOrderDto) (user_id : Option ℕ) (db : Db)
      → Changed now db (create conv now dto user_id db).1
  unfolding create transaction
  create-Changed now dto user_id db =
      elim (result-cases conv (insert_order_with_event conv now dto user_id db)) [
        | inl (f, e) ↦ subst (λ r. Changed now db (commit db r).1) (sym e) (unchanged refl)
        | inr ((order, d), e) ↦
            subst (λ r. Changed now db (commit db r).1) (sym e)
              (ordered order (insert-Saved conv now dto user_id db d order e))
      ]

  answer-db : (request_hash : Text) (r : Result Claim × Db) → (answer conv request_hash r).1 ≡ r.1
  answer-db request_hash (err e, db) = refl
  answer-db request_hash (ok (saved order), db) = refl
  answer-db request_hash (ok (replay row), db) = refl

  claim-Changed :
      (now : ℕ) (dto : CreateOrderDto) (k request_hash : Text) (user_id : Option ℕ)
      (row : Option IdempotencyKey) (db : Db)
      → Changed now db (commit db (claim_or_create conv now dto k request_hash user_id row db)).1
  claim-Changed now dto k request_hash user_id (some row) db = unchanged refl
  claim-Changed now dto k request_hash user_id none db =
      let claimed = claim_key conv k request_hash db in
      elim (result-cases conv (insert_order_with_event conv now dto user_id claimed)) [
        | inl (f, e) ↦
            subst (λ r. Changed now db (commit db (record_order conv k r)).1) (sym e)
              (unchanged refl)
        | inr ((order, d), e) ↦
            subst (λ r. Changed now db (commit db (record_order conv k r)).1) (sym e)
              (ordered order (
                Saved-claimed now k request_hash db d order
                  (insert-Saved conv now dto user_id claimed d order e)))
      ]

  pub create_idempotent-Changed :
      (now : ℕ) (dto : CreateOrderDto) (client_key request_hash : Text) (user_id : Option ℕ)
      (db : Db)
      → Changed now db (create_idempotent conv now dto client_key request_hash user_id db).1
  unfolding create_idempotent claim_or_replay transaction
  create_idempotent-Changed now dto client_key request_hash user_id db =
      let k = scoped_key conv user_id client_key in
      let row = find (has_key k) db.idempotency_keys in
      subst (Changed now db)
        (sym (
          answer-db request_hash
            (commit db (claim_or_create conv now dto k request_hash user_id row db))))
        (claim-Changed now dto k request_hash user_id row db)
