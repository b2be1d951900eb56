-- ===== src/Messaging/Receipts.antt =====
-- src/messaging/run-consumer.ts and `enqueueReceipt` of src/queue/order-tasks.ts: before a delivery is
-- acknowledged, the receipt of its order is put into the task queue.
mod Tests
pub mod Once
use marketplace_api.Prelude.{
  Bool, Conversions, List, Option, Text, [], if◌then◌else◌, none, some, ◌∷◌, ◌≡◌,
}
use marketplace_api.Queue.{ReceiptJobData, receipt_job_id, job_send_receipt}
use marketplace_api.Messaging.Consumer.{
  Body, PlacedEvent, apply_order_placed_effect, Settlement, Outcome, reject_requeue,
  parse_order_placed, failed, reject_dead, acknowledge, dead, acked, skipped,
}
use marketplace_api.Store.{Db}
use marketplace_api.Store.Tx.{Result, err, ok}

-- The queue of BullMQ: `add` with a name, the data and an id (`none` where Redis cannot be reached),
-- and the data of the job with an id.
pub record Tasks (Q : Type 0) : Type 0 where
  pub add : Text → ReceiptJobData → Text → Q → Option Q
  pub job : Text → Q → Option ReceiptJobData

-- What BullMQ documents of `add` with an id of its own: a job is added where the id is free, a call
-- with the id of a job that is there is ignored, and no other job changes.
pub record IsTasks {Q : Type 0} (tasks : Tasks Q) : Type 0 where
  pub adds :
      (name i : Text) (d : ReceiptJobData) (q q' : Q)
      → tasks.add name d i q ≡ some q'
      → tasks.job i q ≡ none
      → tasks.job i q' ≡ some d
  pub ignores :
      (name i : Text) (d d' : ReceiptJobData) (q q' : Q)
      → tasks.add name d i q ≡ some q'
      → tasks.job i q ≡ some d'
      → tasks.job i q' ≡ some d'
  pub leaves :
      (name i j : Text) (d : ReceiptJobData) (q q' : Q)
      → tasks.add name d i q ≡ some q'
      → ¬ (j ≡ i)
      → tasks.job j q' ≡ tasks.job j q

-- A delivery: whether the database is in reach, the parsed message, and its `data.customerEmail`
pub record Delivery : Type 0 where
  pub reachable : Bool
  pub body : Option Body
  pub customer_email : Text

abbrev pub receipt_data : PlacedEvent → Text → ReceiptJobData
receipt_data e customer_email = record { order_id = e.order_id; customer_email = customer_email }

abbrev pub receipt_id : Conversions → Text → PlacedEvent → Text
receipt_id conv of_fraction e = receipt_job_id conv of_fraction e.order_id

module _ {Q : Type 0} (conv : Conversions) (of_fraction : Text) where
  unfoldable pub enqueue_receipt : Tasks Q → PlacedEvent → Text → Q → Option Q
  enqueue_receipt tasks e customer_email q =
      tasks.add job_send_receipt (receipt_data e customer_email) (receipt_id conv of_fraction e) q

  -- `afterApplied`; without a queue for tasks there is nothing to do.
  unfoldable pub after_applied : Option (Tasks Q) → PlacedEvent → Text → Q → Option Q
  unfolding enqueue_receipt
  after_applied none e customer_email q = some q
  after_applied (some tasks) e customer_email q = enqueue_receipt tasks e customer_email q

  abbrev pub settle_receipt : Bool → Db → Q → Option Q → (Settlement × Outcome) × (Db × Q)
  settle_receipt applied db q none = ((reject_requeue, failed), (db, q))
  settle_receipt applied db q (some q') =
      ((acknowledge, if applied then acked else skipped), (db, q'))

  abbrev pub after_effect :
      Option (Tasks Q)
      → PlacedEvent
      → Text
      → Q
      → Result Bool × Db
      → (Settlement × Outcome) × (Db × Q)
  after_effect tasks e customer_email q (err f, db) = ((reject_requeue, failed), (db, q))
  after_effect tasks e customer_email q (ok applied, db) =
      settle_receipt applied db q (after_applied tasks e customer_email q)

  -- `handleMessage`, with the hooks of `main`, which asks for no requeue
  unfoldable pub consume_delivery :
      Option (Tasks Q) → Delivery → Db × Q → (Settlement × Outcome) × (Db × Q)
  unfolding after_applied apply_order_placed_effect
  consume_delivery tasks m (db, q) = elim (parse_order_placed m.body) [
    | none ↦ ((reject_dead, dead), (db, q))
    | some e ↦ after_effect tasks e m.customer_email q (apply_order_placed_effect m.reachable e db)
  ]

  -- Deliveries one after another
  unfoldable pub consume_deliveries : Option (Tasks Q) → List Delivery → Db × Q → Db × Q
  unfolding consume_delivery
  consume_deliveries tasks [] s = s
  consume_deliveries tasks (m ∷ ms) s = consume_deliveries tasks ms (consume_delivery tasks m s).1
