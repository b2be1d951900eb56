-- ===== src/Orders/Create/Idempotent.antt =====
-- `createIdempotent` of src/orders/orders.service.ts. The SHA-256 of the request body is an
-- argument, and the requests with one key follow each other, as the unique index makes them.
pub mod Replay
use marketplace_api.Prelude.{
  Bool, Conversions, Option, Text, [], false, if◌then◌else◌, none, some, text_eq, true, ℕ, ◌++◌,
  ◌∷◌,
}
use marketplace_api.Store.{IdempotencyKey, Order, Db}
use marketplace_api.Store.Tx.{
  ◌>>=◌, ◌>>◌, Tx, Result, transaction, ok, pure, err, not_found, unprocessable,
}
use marketplace_api.Orders.Create.{CreateOrderDto, insert_order_with_event}
use marketplace_api.Sql.{find, update}
use marketplace_api.Orders.Read.{OrderResponse, load_order, find_one}

-- `idempotencyKey`: a client's key is its user's own.
abbrev pub scoped_key : Conversions → Option ℕ → Text → Text
scoped_key conv none client_key = client_key
scoped_key conv (some u) client_key = conv.string u ++ b':' ∷ client_key

abbrev pub has_key : Text → IdempotencyKey → Bool
has_key k r = text_eq r.key k

abbrev pub set_order_id : ℕ → IdempotencyKey → IdempotencyKey
set_order_id order_id r = record r { order_id = some order_id }

-- What the transaction returns.
pub data Claim : Type 0 where
  replay : IdempotencyKey → Claim
  saved : Order → Claim

module _ (conv : Conversions) where
  -- INSERT INTO idempotency_keys, after no conflict
  abbrev pub claim_key : Text → Text → Db → Db
  claim_key k request_hash db = record db {
    idempotency_keys =
        db.idempotency_keys
        ++ (record { key = k; request_hash = request_hash; order_id = none }) ∷ [];
  }

  -- UPDATE idempotency_keys SET order_id, after the order
  abbrev pub record_order : Text → Result (Order × Db) → Result (Claim × Db)
  record_order k (err e) = err e
  record_order k (ok (order, db)) = ok (
    saved order,
    record db { idempotency_keys = update (has_key k) (set_order_id order.id) db.idempotency_keys },
  )

  abbrev pub create_claimed : ℕ → CreateOrderDto → Text → Text → Option ℕ → Tx Claim
  create_claimed now dto k request_hash user_id db =
      record_order k (insert_order_with_event conv now dto user_id (claim_key k request_hash db))

  abbrev pub claim_or_create :
      ℕ → CreateOrderDto → Text → Text → Option ℕ → Option IdempotencyKey → Tx Claim
  claim_or_create now dto k request_hash user_id (some row) = pure (replay row)
  claim_or_create now dto k request_hash user_id none =
      create_claimed now dto k request_hash user_id

  -- The transaction: the key is claimed, or its row is read.
  unfoldable pub claim_or_replay : ℕ → CreateOrderDto → Text → Text → Option ℕ → Tx Claim
  claim_or_replay now dto k request_hash user_id db =
      claim_or_create now dto k request_hash user_id (find (has_key k) db.idempotency_keys) db

  -- findOne(String(order_id)); a key without an order reads as NaN.
  abbrev pub find_existing : Option ℕ → Db → Result OrderResponse
  find_existing none db = err not_found
  find_existing (some i) db = find_one conv (conv.string i) db

  abbrev pub with_replayed : Bool → Result OrderResponse → Result (OrderResponse × Bool)
  with_replayed r (ok o) = ok (o, r)
  with_replayed r (err e) = err e

  abbrev pub answer : Text → Result Claim × Db → Result (OrderResponse × Bool) × Db
  answer request_hash (err e, db) = (err e, db)
  answer request_hash (ok (saved order), db) = (ok (load_order conv db order, false), db)
  answer request_hash (ok (replay row), db) = (
    if text_eq row.request_hash request_hash
        then with_replayed true (find_existing row.order_id db)
        else err unprocessable,
    db,
  )

  -- `createIdempotent`, up to the invalidation of cards: the order, and whether it is a replay
  unfoldable pub create_idempotent :
      ℕ → CreateOrderDto → Text → Text → Option ℕ → Db → Result (OrderResponse × Bool) × Db
  unfolding claim_or_replay transaction
  create_idempotent now dto client_key request_hash user_id db = answer request_hash (
      transaction
        (claim_or_replay now dto (scoped_key conv user_id client_key) request_hash user_id) db)
