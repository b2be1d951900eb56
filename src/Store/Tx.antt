-- ===== src/Store/Tx.antt =====
-- Failures, and the body of a transaction: a function of the tables that fails or returns a value
-- with the new tables. `transaction` is BEGIN, the body, and COMMIT or ROLLBACK, as in
-- src/messaging/pg-store.ts and TypeORM's `manager.transaction`.
use marketplace_api.Prelude.{ℕ, Option, none, some, if◌then◌else◌, ltb, ◌^◌}
use marketplace_api.Store.Tables.{Db}

pub data Failure : Type 0 where
  -- HttpException subclasses
  bad_request unauthorized forbidden not_found conflict unprocessable : Failure
  too_many_requests service_unavailable : Failure
  -- Error subclasses of checkout.ts
  invalid_quantity insufficient_stock insufficient_funds : Failure
  -- an error that the database or the runtime raises
  database_error internal_error : Failure

pub data Result {ℓ} (A : Type ℓ) : Type ℓ where
  ok : A → Result A
  err : Failure → Result A

abbrev pub Tx : Type 0 → Type 0
Tx A = Db → Result (A × Db)

infixl 5 ◌>>=◌ ◌>>◌
abbrev pub ◌>>=◌ : {A B : Type 0} → Tx A → (A → Tx B) → Tx B
◌>>=◌ m f db = elim (m db) [ ok (a, db') ↦ f a db' | err e ↦ err e ]

abbrev pub ◌>>◌ : {A B : Type 0} → Tx A → Tx B → Tx B
m >> k = m >>= λ _. k

module _ {A : Type 0} where
  abbrev pub pure : A → Tx A
  pure a db = ok (a, db)

  abbrev pub throw : Failure → Tx A
  throw e db = err e

  abbrev pub or_throw : Option A → Failure → Tx A
  or_throw none e db = err e
  or_throw (some a) e db = ok (a, db)

  abbrev pub commit : Db → Result (A × Db) → Result A × Db
  commit db (ok (a, db')) = (ok a, db')
  commit db (err e) = (err e, db)

  unfoldable pub transaction : Tx A → Db → Result A × Db
  transaction m db = commit db (m db)

-- An `integer` column or parameter holds less than 2 ^ 31.
abbrev pub int4 : ℕ → Tx (Unit {0})
int4 n = if ltb n (2 ^ 31) then pure tt else throw database_error
