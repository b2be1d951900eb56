-- ===== src/Messaging/Receipts/Once.antt =====
-- A delivery that is acknowledged has its receipt in the queue, and one receipt for an order.
use marketplace_api.Prelude.{Bool, Conversions, Option, Text, false, none, some, true, ◌≡◌, ◌⊎◌}
use marketplace_api.Messaging.Receipts.{Tasks, IsTasks, receipt_id, receipt_data, after_applied}
use marketplace_api.Messaging.Consumer.{PlacedEvent, Hooks, Settlement, Outcome}
use marketplace_api.Store.{Db}
use marketplace_api.Queue.{ReceiptJobData}

abbrev is_some {ℓ} : {A : Type ℓ} → Option A → Bool
is_some none = false
is_some (some a) = true

module _ {Q : Type 0} (conv : Conversions) (of_fraction : Text) (tasks : Option (Tasks Q)) where
  -- The hooks of `main`, for an event and a queue.
  abbrev hooks_of : PlacedEvent → Text → Q → Hooks
  hooks_of e customer_email q = record {
    wants_requeue = λ applied. false;
    hooks_return = is_some (after_applied conv of_fraction tasks e customer_email q);
  }

module _ {Q : Type 0} (conv : Conversions) (of_fraction : Text) (tasks : Tasks Q) where
  -- The receipt that a delivery has put into the queue, or found there.
  abbrev pub IsReceipt : PlacedEvent → Text → Q → ReceiptJobData → Type 0
  IsReceipt e customer_email q d =
      (tasks.job (receipt_id conv of_fraction e) q ≡ some d)
      ⊎ ((tasks.job (receipt_id conv of_fraction e) q ≡ none) × (d ≡ receipt_data e customer_email))

  module _ (laws : IsTasks tasks) where
    abbrev HasReceipt : PlacedEvent → Text → Q → (Settlement × Outcome) × (Db × Q) → Type 0
    HasReceipt e customer_email q out =
        (d : ReceiptJobData) × (tasks.job (receipt_id conv of_fraction e) out.1.1 ≡ some d)
        × IsReceipt e customer_email q d
