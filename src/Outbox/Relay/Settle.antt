-- ===== src/Outbox/Relay/Settle.antt =====
-- What a pass writes: a row is marked only after the broker has confirmed it, and no row is lost.
use marketplace_api.Outbox.Relay.{
  World, RelayOptions, is_pending, is_eligible, take_batch, sent_rows, failed_row, any_id,
  mark_published, count_attempt, mark_rows, relay_once,
}
use marketplace_api.Outbox.Relay.Batch.{In-take_batch, In-sent_rows, In-failed_row, any_id-In}
use marketplace_api.Store.{Db, OutboxRow}
use marketplace_api.Prelude.{
  All, All-In, In, List, [], false, inl, inr, true, ◌∷◌, ◌≡◌, ◌≢◌, All-intro, Bool-cases,
  Option-cases, arith, refl, some, sym, ◌==◌, ◌+◌,
}
use marketplace_api.Sql.{update}

-- No two rows of the table share an id.
abbrev pub IdsDistinct : List OutboxRow → Type 0
IdsDistinct [] = Unit
IdsDistinct (x ∷ xs) = All (λ r. r.id ≢ x.id) xs × IdsDistinct xs

pub same_row :
    (a b : OutboxRow) (xs : List OutboxRow)
    → IdsDistinct xs
    → In a xs
    → In b xs
    → a.id ≡ b.id
    → a ≡ b
same_row a b [] d i j e = absurd i
same_row a b (x ∷ xs) d (inl p) (inl q) e = cc
same_row a b (x ∷ xs) d (inl p) (inr j) e =
    absurd (All-In (λ r. r.id ≢ x.id) b xs d.0 j (rw (← e, p)))
same_row a b (x ∷ xs) d (inr i) (inl q) e =
    absurd (All-In (λ r. r.id ≢ x.id) a xs d.0 i (rw (e, q)))
same_row a b (x ∷ xs) d (inr i) (inr j) e = same_row a b xs d.1 i j e

-- What a pass may do to one row: nothing; mark a pending row that the broker confirmed; or count
-- a failed attempt at a pending row.
pub data Settled (w : World) (old new : OutboxRow) : Type 0 where
  kept : new ≡ old → Settled w old new
  marked :
      is_pending old ≡ true
      → w.confirms old ≡ true
      → new ≡ record old { published_at = some w.now; attempts = old.attempts + 1 }
      → Settled w old new
  tried :
      is_pending old ≡ true
      → w.confirms old ≡ false
      → new ≡ record old { attempts = old.attempts + 1 }
      → Settled w old new

-- Two tables, row by row.
abbrev pub AllSettled : World → List OutboxRow → List OutboxRow → Type 0
AllSettled w [] [] = Unit
AllSettled w [] (y ∷ ys) = ⊥
AllSettled w (x ∷ xs) [] = ⊥
AllSettled w (x ∷ xs) (y ∷ ys) = Settled w x y × AllSettled w xs ys

module _ (w : World) (sent : List OutboxRow) where
  abbrev SentFits : OutboxRow → Type 0
  SentFits r = any_id sent r.id ≡ true → (is_pending r ≡ true) × (w.confirms r ≡ true)

  update_none :
      (xs : List OutboxRow)
      → All SentFits xs
      → AllSettled w xs (update (λ r. any_id sent r.id) (mark_published w.now) xs)
  update_none [] h = tt
  update_none (x ∷ xs) h = elim (Bool-cases (any_id sent x.id)) [
    | inl e ↦ rw e (marked (h.0 e).0 (h.0 e).1 refl, update_none xs h.1)
    | inr e ↦ rw e (kept refl, update_none xs h.1)
  ]

  module _ (f : OutboxRow) where
    abbrev FailedFits : OutboxRow → Type 0
    FailedFits r = r.id ≡ f.id → (is_pending r ≡ true) × (w.confirms r ≡ false)

    update_some :
        (xs : List OutboxRow)
        → All SentFits xs
        → All FailedFits xs
        → AllSettled w xs (
            update
              (λ r. r.id == f.id)
              count_attempt
              (update (λ r. any_id sent r.id) (mark_published w.now) xs))
    update_some [] h k = tt
    update_some (x ∷ xs) h k = elim (Bool-cases (any_id sent x.id)) [
      | inl e ↦ elim (Bool-cases (x.id == f.id)) [
        | inl g ↦ absurd (ground (arith, h.0 e, k.0))
        | inr g ↦ rw (e, g) (marked (h.0 e).0 (h.0 e).1 refl, update_some xs h.1 k.1)
      ]
      | inr e ↦ elim (Bool-cases (x.id == f.id)) [
        | inl g ↦
            rw (e, g)
              (tried (k.0 (ground arith)).0 (k.0 (ground arith)).1 refl, update_some xs h.1 k.1)
        | inr g ↦ rw (e, g) (kept refl, update_some xs h.1 k.1)
      ]
    ]

AllSettled-refl : (w : World) (xs : List OutboxRow) → AllSettled w xs xs
AllSettled-refl w [] = tt
AllSettled-refl w (x ∷ xs) = (kept refl, AllSettled-refl w xs)

eligible→pending :
    (o : RelayOptions) (w : World) (r : OutboxRow) → is_eligible o w r ≡ true → is_pending r ≡ true
eligible→pending o w r h = ground arith

module _ (o : RelayOptions) (w : World) (xs : List OutboxRow) (d : IdsDistinct xs) where
  abbrev batch : List OutboxRow
  batch = take_batch o w xs

  sent-fits : All (SentFits w (sent_rows w batch)) xs
  sent-fits = All-intro (SentFits w (sent_rows w batch)) xs fits
    where
      fits : (r : OutboxRow) → In r xs → SentFits w (sent_rows w batch) r
      fits r i e =
          let (s, m, q) = any_id-In (sent_rows w batch) r.id e in
          let (b, c) = In-sent_rows w s batch m in
          let (t, p) = In-take_batch o w s xs b in
          let same = same_row s r xs d t i q in
          (rw (← same) (eligible→pending o w s p), rw (← same) c)

  failed-fits :
      (f : OutboxRow) → failed_row w batch ≡ some f → All (FailedFits w (sent_rows w batch) f) xs
  failed-fits f e = All-intro (FailedFits w (sent_rows w batch) f) xs fits
    where
      fits : (r : OutboxRow) → In r xs → FailedFits w (sent_rows w batch) f r
      fits r i q =
          let (b, c) = In-failed_row w f batch e in
          let (t, p) = In-take_batch o w f xs b in
          let same = same_row f r xs d t i (sym q) in
          (rw (← same) (eligible→pending o w f p), rw (← same) c)

  mark_rows-AllSettled :
      AllSettled w xs (mark_rows w.now (sent_rows w batch) (failed_row w batch) xs)
  unfolding mark_rows
  mark_rows-AllSettled = elim (Option-cases (failed_row w batch)) [
    | inl e ↦ rw e (update_none w (sent_rows w batch) xs sent-fits)
    | inr (f, e) ↦ rw e (update_some w (sent_rows w batch) f xs sent-fits (failed-fits f e))
  ]

-- A pass, however it ends, handles each row of the outbox in one of three ways: it leaves the row
-- alone; it marks a row that was pending and that the broker confirmed as published at this time, with
-- one attempt more; or it counts one attempt more at a pending row that the broker did not confirm. So a row is never lost, changed otherwise,
-- or marked without a confirmation. The ids of the rows are distinct.
pub relay_once-AllSettled :
    (o : RelayOptions) (w : World) (db : Db)
    → IdsDistinct db.outbox
    → AllSettled w db.outbox (relay_once o w db).1.outbox
unfolding relay_once
relay_once-AllSettled o w db d =
    ground (arith, mark_rows-AllSettled o w db.outbox d, AllSettled-refl w db.outbox)
