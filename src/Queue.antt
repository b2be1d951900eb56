-- ===== src/Queue.antt =====
-- src/queue: what the worker of the task queue does with a job, and the clean-up of the outbox. The
-- queue itself, its retries and its scheduler are a library's.
mod Tests
pub mod CleanUp
use marketplace_api.Prelude.{
  Bool, Conversions, Number, Text, false, fraction, if◌then◌else◌, ltb, nan, nat, negative, none,
  not, some, text, text_eq, ℕ, ◌*◌, ◌++◌, ◌+◌, suc, ◌∷◌,
}
use marketplace_api.Store.Tx.{Result, err, internal_error, ok}
use marketplace_api.Store.{OutboxRow, Db}
use marketplace_api.Sql.{affected, select}

-- `ReceiptJobData`
pub record ReceiptJobData : Type 0 where
  pub order_id : Number
  pub customer_email : Text

abbrev pub job_send_receipt : Text
job_send_receipt = text "send-receipt"

abbrev pub job_outbox_cleanup : Text
job_outbox_cleanup = text "outbox-cleanup"

-- OUTBOX_RETENTION_DAYS, in milliseconds
abbrev pub outbox_retention_ms : ℕ
outbox_retention_ms = 7 * (24 * 3600 * 1000)

-- String(orderId); the consumer lets only integers through, so the text of a fraction is left open.
abbrev pub order_id_text : Conversions → Text → Number → Text
order_id_text conv of_fraction (nat n) = conv.string n
order_id_text conv of_fraction (negative n) = b'-' ∷ conv.string (suc n)
order_id_text conv of_fraction nan = text "NaN"
order_id_text conv of_fraction fraction = of_fraction

-- `receiptJobId`
unfoldable pub receipt_job_id : Conversions → Text → Number → Text
receipt_job_id conv of_fraction order_id =
    text "receipt-order-" ++ order_id_text conv of_fraction order_id

-- `readCleanupInterval`; the variable as a number, or its default. Of a fraction it matters whether it
-- is at least 1000.
abbrev pub read_cleanup_interval : Bool → Number → Result Number
read_cleanup_interval large nan = err internal_error
read_cleanup_interval large fraction = if large then ok fraction else err internal_error
read_cleanup_interval large (negative n) = err internal_error
read_cleanup_interval large (nat n) = if ltb n 1000 then err internal_error else ok (nat n)

-- published_at IS NOT NULL AND published_at < now() - make_interval(days => $1)
abbrev pub is_outdated : ℕ → OutboxRow → Bool
is_outdated now r = elim r.published_at [
  | none ↦ false
  | some t ↦ ltb (t + outbox_retention_ms) now
]

-- `cleanupOutbox`: one DELETE, and the number of rows that it removed
unfoldable pub cleanup_outbox : ℕ → Db → ℕ × Db
cleanup_outbox now db = (
  affected (is_outdated now) db.outbox,
  record db { outbox = select (λ r. not (is_outdated now r)) db.outbox },
)

-- What a job came to: a receipt was sent (a line in a log, with the attempt), the outbox was cleaned,
-- or the name is unknown, which fails the job.
pub data JobOutcome : Type 0 where
  receipt : ReceiptJobData → ℕ → JobOutcome
  cleaned : ℕ → JobOutcome
  unknown_job : JobOutcome

-- The processor of `createOrderTasksWorker`, with the handlers of `main`.
unfoldable pub process_job : ℕ → Text → ReceiptJobData → ℕ → Db → JobOutcome × Db
unfolding cleanup_outbox
process_job now name job_data attempts_made db =
    if text_eq name job_send_receipt
    then (receipt job_data (attempts_made + 1), db)
    else if text_eq name job_outbox_cleanup
    then (cleaned (cleanup_outbox now db).0, (cleanup_outbox now db).1)
    else (unknown_job, db)
