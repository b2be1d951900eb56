-- ===== src/Outbox/Relay/Batch.antt =====
-- The batch of a pass: which rows it holds, and how the broker's answers cut it.
use marketplace_api.Store.{OutboxRow}
use marketplace_api.Outbox.Relay.{
  World, RelayOptions, is_eligible, insert_row, order_rows, take_batch, sent_rows, failed_row,
  any_id,
}
use marketplace_api.Prelude.{
  Bool-cases, In, In-take, List, [], arith, false, inl, inr, length, length-take, refl, some, true,
  ℕ, ◌==◌, ◌∷◌, ◌≡◌, ◌≤◌, ◌⊎◌,
}
use marketplace_api.Sql.{In-select, select}

In-insert_row : (r x : OutboxRow) (xs : List OutboxRow) → In r (insert_row x xs) → (r ≡ x) ⊎ In r xs
In-insert_row r x [] h = h
In-insert_row r x (y ∷ xs) h = ground (arith, In-insert_row r x xs)

In-order_rows : (r : OutboxRow) (xs : List OutboxRow) → In r (order_rows xs) → In r xs
In-order_rows r [] h = h
In-order_rows r (x ∷ xs) h = elim (In-insert_row r x (order_rows xs) h) [
  | inl e ↦ inl e
  | inr i ↦ inr (In-order_rows r xs i)
]

-- Every row of the batch is an eligible row of the table.
pub In-take_batch :
    (o : RelayOptions) (w : World) (r : OutboxRow) (xs : List OutboxRow)
    → In r (take_batch o w xs)
    → In r xs × (is_eligible o w r ≡ true)
unfolding take_batch
In-take_batch o w r xs h =
    In-select (is_eligible o w) r xs (In-order_rows r _ (In-take o.batch_size r _ h))

-- Every row that is sent is a row of the batch that the broker confirmed.
pub In-sent_rows :
    (w : World) (r : OutboxRow) (xs : List OutboxRow)
    → In r (sent_rows w xs)
    → In r xs × (w.confirms r ≡ true)
unfolding sent_rows
In-sent_rows w r [] h = absurd h
In-sent_rows w r (x ∷ xs) h = ground (arith, In-sent_rows w r xs)

pub In-failed_row :
    (w : World) (r : OutboxRow) (xs : List OutboxRow)
    → failed_row w xs ≡ some r
    → In r xs × (w.confirms r ≡ false)
unfolding failed_row
In-failed_row w r [] h = cc
In-failed_row w r (x ∷ xs) h = ground (arith, In-failed_row w r xs)

pub any_id-In :
    (rs : List OutboxRow) (i : ℕ) → any_id rs i ≡ true → (r : OutboxRow) × In r rs × (r.id ≡ i)
any_id-In [] i h = cc
any_id-In (r ∷ rs) i h = elim (Bool-cases (r.id == i)) [
  | inl e ↦ (r, inl refl, ground arith)
  | inr e ↦ let (s, m, q) = any_id-In rs i (ground arith) in (s, inr m, q)
]

pub length-sent_rows : (w : World) (xs : List OutboxRow) → length (sent_rows w xs) ≤ length xs
unfolding sent_rows
length-sent_rows w [] = omega arith
length-sent_rows w (x ∷ xs) = ground (arith, length-sent_rows w xs)

pub length-take_batch :
    (o : RelayOptions) (w : World) (xs : List OutboxRow) → length (take_batch o w xs) ≤ o.batch_size
unfolding take_batch
length-take_batch o w xs =
    omega (arith, length-take o.batch_size (order_rows (select (is_eligible o w) xs)))
