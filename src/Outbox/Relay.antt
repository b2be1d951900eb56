-- ===== src/Outbox/Relay.antt =====
-- src/outbox/relay.ts: one pass of the courier that carries outbox rows to the broker.
pub mod Batch
pub mod Settle
pub mod Drain
mod Tests
use marketplace_api.Store.{Db, OutboxRow}
use marketplace_api.Store.Tx.{Result, ok, err, internal_error}
use marketplace_api.Prelude.{
  Bool, List, Option, [], false, if◌then◌else◌, leb, length, ltb, none, not, some, take, true, ℕ,
  ◌&&◌, ◌+◌, ◌==◌, ◌||◌, ◌∷◌,
}
use marketplace_api.Sql.{select, update}

-- `LockMode`
pub data LockMode : Type 0 where
  skip_locked for_update no_lock : LockMode

pub record RelayOptions : Type 0 where
  pub batch_size : ℕ
  pub lock_mode : LockMode
  pub not_before : Option ℕ

abbrev pub default_options : RelayOptions
default_options = record { batch_size = 100; lock_mode = skip_locked; not_before = none }

-- `RelayPass`
pub record RelayPass : Type 0 where
  pub published : ℕ
  pub failed : ℕ

-- What a pass meets: the time, the rows that other transactions hold locked, whether the broker
-- confirms a row in time, and whether the hook `afterPublish` returns. A pass that dies at the
-- hook never commits, like one whose hook throws. Under `for_update` and `no_lock` no row is
-- skipped: the tables are those that the query reads, after its wait.
pub record World : Type 0 where
  pub now : ℕ
  pub busy : OutboxRow → Bool
  pub confirms : OutboxRow → Bool
  pub hook_returns : Bool

abbrev pub is_pending : OutboxRow → Bool
is_pending r = elim r.published_at [ none ↦ true | some t ↦ false ]

-- $2::timestamptz IS NULL OR created_at >= $2
abbrev pub is_recent : Option ℕ → OutboxRow → Bool
is_recent none r = true
is_recent (some t) r = leb t r.created_at

abbrev pub is_free : LockMode → World → OutboxRow → Bool
is_free skip_locked w r = not (w.busy r)
is_free for_update w r = true
is_free no_lock w r = true

abbrev pub is_eligible : RelayOptions → World → OutboxRow → Bool
is_eligible o w r = is_pending r && (is_recent o.not_before r && is_free o.lock_mode w r)

-- ORDER BY created_at, id
abbrev pub precedes : OutboxRow → OutboxRow → Bool
precedes a b = ltb a.created_at b.created_at || (a.created_at == b.created_at && leb a.id b.id)

abbrev pub insert_row : OutboxRow → List OutboxRow → List OutboxRow
insert_row r [] = r ∷ []
insert_row r (x ∷ xs) = if precedes r x then r ∷ x ∷ xs else x ∷ insert_row r xs

abbrev pub order_rows : List OutboxRow → List OutboxRow
order_rows [] = []
order_rows (x ∷ xs) = insert_row x (order_rows xs)

-- Step 1: the batch that the SELECT takes.
unfoldable pub take_batch : RelayOptions → World → List OutboxRow → List OutboxRow
take_batch o w rows = take o.batch_size (order_rows (select (is_eligible o w) rows))

-- Step 2: rows are published in order, up to the first that fails.
unfoldable pub sent_rows : World → List OutboxRow → List OutboxRow
sent_rows w [] = []
sent_rows w (r ∷ rs) = let rest = sent_rows w rs in if w.confirms r then r ∷ rest else []

unfoldable pub failed_row : World → List OutboxRow → Option OutboxRow
failed_row w [] = none
failed_row w (r ∷ rs) = let rest = failed_row w rs in if w.confirms r then rest else some r

-- id = ANY($1::uuid[])
abbrev pub any_id : List OutboxRow → ℕ → Bool
any_id [] i = false
any_id (r ∷ rs) i = r.id == i || any_id rs i

abbrev pub mark_published : ℕ → OutboxRow → OutboxRow
mark_published now r = record r { published_at = some now; attempts = r.attempts + 1 }

abbrev pub count_attempt : OutboxRow → OutboxRow
count_attempt r = record r { attempts = r.attempts + 1 }

-- Step 3: the confirmed rows are marked, and the failed one has its attempt counted.
unfoldable pub mark_rows : ℕ → List OutboxRow → Option OutboxRow → List OutboxRow → List OutboxRow
mark_rows now sent none rows = update (λ r. any_id sent r.id) (mark_published now) rows
mark_rows now sent (some f) rows =
    update (λ r. r.id == f.id) count_attempt
      (update (λ r. any_id sent r.id) (mark_published now) rows)

abbrev pub failures : Option OutboxRow → ℕ
failures none = 0
failures (some f) = 1

-- `relayOnce`: the outcome and the tables after COMMIT or ROLLBACK. An UPDATE over no row changes
-- nothing, so the test `sentIds.length > 0` is left to it.
unfoldable pub relay_once : RelayOptions → World → Db → Result RelayPass × Db
unfolding take_batch sent_rows failed_row mark_rows
relay_once o w db =
    let batch = take_batch o w db.outbox in
    let sent = sent_rows w batch in
    let failed = failed_row w batch in
    if w.hook_returns
    then (
      ok (record { published = length sent; failed = failures failed }),
      record db { outbox = mark_rows w.now sent failed db.outbox },
    )
    else (err internal_error, db)

-- `relayLoop`, one pass for each world until the signal stops it. The pauses change no table.
unfoldable pub relay_loop : RelayOptions → List World → Db → Db
unfolding relay_once
relay_loop o [] db = db
relay_loop o (w ∷ ws) db = relay_loop o ws (relay_once o w db).1
