-- ===== src/Outbox/Relay/Drain.antt =====
-- A pass with a broker that confirms everything empties an outbox that fits in a batch.
use marketplace_api.Outbox.Relay.{
  World, is_pending, insert_row, order_rows, sent_rows, failed_row, any_id, mark_published,
  RelayOptions, relay_once, is_eligible, take_batch, is_recent, is_free, skip_locked, for_update,
  no_lock,
}
use marketplace_api.Store.{OutboxRow, Db}
use marketplace_api.Prelude.{
  All, In, List, [], arith, inl, inr, length, none, refl, suc, take, true, zero, ℕ, ◌∷◌, ◌≡◌, ◌≤◌,
  All-intro, false, ◌&&◌, ◌∙◌,
}
use marketplace_api.Sql.{In-select_intro, select, affected, update}
use marketplace_api.Store.Tx.{ok}

In-insert_row_self : (x : OutboxRow) (xs : List OutboxRow) → In x (insert_row x xs)
In-insert_row_self x [] = inl refl
In-insert_row_self x (y ∷ xs) = ground (arith, In-insert_row_self x xs)

In-insert_row_tail : (r x : OutboxRow) (xs : List OutboxRow) → In r xs → In r (insert_row x xs)
In-insert_row_tail r x [] h = absurd h
In-insert_row_tail r x (y ∷ xs) h = ground (arith, In-insert_row_tail r x xs)

pub In-order_rows_intro : (r : OutboxRow) (xs : List OutboxRow) → In r xs → In r (order_rows xs)
In-order_rows_intro r [] h = h
In-order_rows_intro r (x ∷ xs) (inl e) = rw e (In-insert_row_self x (order_rows xs))
In-order_rows_intro r (x ∷ xs) (inr h) =
    In-insert_row_tail r x (order_rows xs) (In-order_rows_intro r xs h)

length-insert_row :
    (x : OutboxRow) (xs : List OutboxRow) → length (insert_row x xs) ≡ suc (length xs)
length-insert_row x [] = refl
length-insert_row x (y ∷ xs) = ground (arith, length-insert_row x xs)

pub length-order_rows : (xs : List OutboxRow) → length (order_rows xs) ≡ length xs
length-order_rows [] = refl
length-order_rows (x ∷ xs) =
    omega (arith, length-insert_row x (order_rows xs), length-order_rows xs)

take-whole : (n : ℕ) (xs : List OutboxRow) → length xs ≤ n → take n xs ≡ xs
take-whole zero [] h = refl
take-whole zero (x ∷ xs) h = absurd (omega arith)
take-whole (suc n) [] h = refl
take-whole (suc n) (x ∷ xs) h = rw (take-whole n xs (omega arith))

any_id-intro : (r : OutboxRow) (rs : List OutboxRow) → In r rs → any_id rs r.id ≡ true
any_id-intro r [] h = absurd h
any_id-intro r (x ∷ rs) h = ground (arith, any_id-intro r rs)

module _ (w : World) (confirms : (r : OutboxRow) → w.confirms r ≡ true) where
  pub sent_rows-whole : (xs : List OutboxRow) → sent_rows w xs ≡ xs
  unfolding sent_rows
  sent_rows-whole [] = refl
  sent_rows-whole (x ∷ xs) = rw (confirms x, sent_rows-whole xs)

  failed_row-none : (xs : List OutboxRow) → failed_row w xs ≡ none
  unfolding failed_row
  failed_row-none [] = refl
  failed_row-none (x ∷ xs) = rw (confirms x, failed_row-none xs)

-- Every pending row is in the list of the marked ones.
IsCovered : List OutboxRow → OutboxRow → Type 0
IsCovered sent r = is_pending r ≡ true → any_id sent r.id ≡ true

update-none_pending :
    (now : ℕ) (sent xs : List OutboxRow)
    → All (IsCovered sent) xs
    → affected is_pending (update (λ r. any_id sent r.id) (mark_published now) xs) ≡ 0
unfolding IsCovered
update-none_pending now sent [] h = refl
update-none_pending now sent (x ∷ xs) h = ground (arith, h.0, update-none_pending now sent xs h.1)

module _ (o : RelayOptions) (w : World) (all_times : o.not_before ≡ none)
    (free : (r : OutboxRow) → w.busy r ≡ false) where
  pub eligible-eq-pending : (r : OutboxRow) → is_eligible o w r ≡ is_pending r
  eligible-eq-pending r =
      elim o.lock_mode
        as (λ m. is_pending r && (is_recent o.not_before r && is_free m w r) ≡ is_pending r) [
          | skip_locked ↦ rw all_times (ground (arith, free r))
          | for_update ↦ rw all_times (ground arith)
          | no_lock ↦ rw all_times (ground arith)
        ]

  length-select :
      (xs : List OutboxRow) → length (select (is_eligible o w) xs) ≡ affected is_pending xs
  length-select [] = refl
  length-select (x ∷ xs) = ground (arith, eligible-eq-pending x, length-select xs)

  pub take_batch-whole :
      (xs : List OutboxRow)
      → affected is_pending xs ≤ o.batch_size
      → take_batch o w xs ≡ order_rows (select (is_eligible o w) xs)
  unfolding take_batch
  take_batch-whole xs h =
      take-whole o.batch_size _
        (omega (arith, length-order_rows (select (is_eligible o w) xs), length-select xs))

  batch-covers :
      (xs : List OutboxRow) → All (IsCovered (order_rows (select (is_eligible o w) xs))) xs
  unfolding IsCovered
  batch-covers xs = All-intro (IsCovered (order_rows (select (is_eligible o w) xs))) xs λ r i p.
      any_id-intro r _ (
        In-order_rows_intro r _
          (In-select_intro (is_eligible o w) r xs i (eligible-eq-pending r ∙ p)))

-- When the broker confirms every row, no other transaction holds one, the hook returns, no start
-- time is set and the pending rows fit in a batch, the pass succeeds, reports their number and no
-- failure, and leaves no row pending.
pub relay_once-drains :
    (o : RelayOptions) (w : World) (db : Db)
    → o.not_before ≡ none
    → ((r : OutboxRow) → w.busy r ≡ false)
    → ((r : OutboxRow) → w.confirms r ≡ true)
    → w.hook_returns ≡ true
    → affected is_pending db.outbox ≤ o.batch_size
    → ((relay_once o w db).0
        ≡ ok (record { published = affected is_pending db.outbox; failed = 0 }))
      × (affected is_pending (relay_once o w db).1.outbox ≡ 0)
unfolding relay_once
relay_once-drains o w db all_times free confirms returns fits =
    let whole = take_batch-whole o w all_times free db.outbox fits in
    let rows = order_rows (select (is_eligible o w) db.outbox) in
    ground (
      arith,
      whole,
      sent_rows-whole w confirms rows,
      failed_row-none w confirms rows,
      length-order_rows (select (is_eligible o w) db.outbox),
      length-select o w all_times free db.outbox,
      update-none_pending w.now rows db.outbox (batch-covers o w all_times free db.outbox),
    )
