-- ===== src/System/Courier.antt =====
-- A pass of the relay loses no message: what it marks as published, the broker has.
use marketplace_api.Prelude.{
  All, Bool, Bool-cases, In, In-append_left, In-append_right, List, Option, [], ap, false,
  if◌then◌else◌, inl, inr, map, none, refl, some, sym, ℕ, ◌++◌, ◌<◌, ◌==◌, ◌∙◌, ◌∷◌, ◌≡◌, ◌≢◌, ◌⊎◌,
  true,
}
use marketplace_api.Store.{OutboxRow, OrderPlacedEvent, Db}
use marketplace_api.System.{carried, payload_of, System}
use marketplace_api.Outbox.Relay.{
  RelayOptions, mark_rows, World, mark_published, any_id, sent_rows, count_attempt, take_batch,
  failed_row, relay_once, is_pending,
}
use marketplace_api.Sql.{update, All-update}
use marketplace_api.Outbox.Relay.Settle.{IdsDistinct, same_row}
use marketplace_api.System.Waiting.{Sent, Waiting, IsLossless, Sent-append}
use mathlib.Core.Path.{subst}
use marketplace_api.Outbox.Relay.Batch.{In-take_batch, any_id-In, In-sent_rows}
use marketplace_api.System.Carry.{relay_once-cases}

update-In :
    (p : OutboxRow → Bool) (f : OutboxRow → OutboxRow) (r : OutboxRow) (rows : List OutboxRow)
    → In r rows
    → In (if p r then f r else r) (update p f rows)
update-In p f r [] h = absurd h
update-In p f r (x ∷ xs) (inl e) = elim (Bool-cases (p x)) [
  | inl y ↦ rw (e, y) (inl refl)
  | inr n ↦ rw (e, n) (inl refl)
]
update-In p f r (x ∷ xs) (inr h) = elim (Bool-cases (p x)) [
  | inl y ↦ rw y (inr (update-In p f r xs h))
  | inr n ↦ rw n (inr (update-In p f r xs h))
]

module _ (f : OutboxRow → OutboxRow) (same : (r : OutboxRow) → (f r).id ≡ r.id) where
  IdsDistinct-update :
      (p : OutboxRow → Bool) (rows : List OutboxRow)
      → IdsDistinct rows
      → IdsDistinct (update p f rows)
  IdsDistinct-update p [] d = tt
  IdsDistinct-update p (x ∷ xs) d =
      let rest = λ (n : ℕ) (a : All (λ r. r.id ≢ n) xs).
        All-update (λ r. r.id ≢ n) p f (λ r q e. q (sym (same r) ∙ e)) xs a in
      elim (Bool-cases (p x)) [
        | inl y ↦ rw y (
          subst (λ n. All (λ r. r.id ≢ n) (update p f xs)) (sym (same x)) (rest x.id d.0),
          IdsDistinct-update p xs d.1,
        )
        | inr n ↦ rw n (rest x.id d.0, IdsDistinct-update p xs d.1)
      ]

  ids_below-update :
      (n : ℕ) (p : OutboxRow → Bool) (rows : List OutboxRow)
      → All (λ r. r.id < n) rows
      → All (λ r. r.id < n) (update p f rows)
  ids_below-update n p rows =
      All-update (λ r. r.id < n) p f (λ r l. subst (λ i. i < n) (sym (same r)) l) rows

module _ (now : ℕ) (sent : List OutboxRow) where
  mark_rows-Distinct :
      (failed : Option OutboxRow) (rows : List OutboxRow)
      → IdsDistinct rows
      → IdsDistinct (mark_rows now sent failed rows)
  unfolding mark_rows
  mark_rows-Distinct none rows d =
      IdsDistinct-update (mark_published now) (λ r. refl) (λ r. any_id sent r.id) rows d
  mark_rows-Distinct (some f) rows d =
      IdsDistinct-update count_attempt (λ r. refl) (λ r. r.id == f.id) _
        (IdsDistinct-update (mark_published now) (λ r. refl) (λ r. any_id sent r.id) rows d)

  mark_rows-below :
      (n : ℕ) (failed : Option OutboxRow) (rows : List OutboxRow)
      → All (λ r. r.id < n) rows
      → All (λ r. r.id < n) (mark_rows now sent failed rows)
  unfolding mark_rows
  mark_rows-below n none rows h =
      ids_below-update (mark_published now) (λ r. refl) n (λ r. any_id sent r.id) rows h
  mark_rows-below n (some f) rows h =
      ids_below-update count_attempt (λ r. refl) n (λ r. r.id == f.id) _
        (ids_below-update (mark_published now) (λ r. refl) n (λ r. any_id sent r.id) rows h)

  counted-Waiting :
      (i : ℕ) (r : OutboxRow) (rows : List OutboxRow) (b : Bool)
      → In (if b then count_attempt r else r) rows
      → is_pending r ≡ true
      → r.payload.body.order_id ≡ i
      → Waiting i rows
  counted-Waiting i r rows true h p e = record {
    row = count_attempt r;
    there = h;
    pending = p;
    named = e;
  }
  counted-Waiting i r rows false h p e = record { row = r; there = h; pending = p; named = e }

  -- A pending row that is not sent is pending after the pass.
  mark_rows-Waiting :
      (i : ℕ) (failed : Option OutboxRow) (rows : List OutboxRow) (w : Waiting i rows)
      → any_id sent w.row.id ≡ false
      → Waiting i (mark_rows now sent failed rows)
  unfolding mark_rows
  mark_rows-Waiting i none rows w e = record {
    row = w.row;
    there =
        subst
          (λ b.
            In (if b then mark_published now w.row else w.row)
              (update (λ r. any_id sent r.id) (mark_published now) rows))
          e (update-In (λ r. any_id sent r.id) (mark_published now) w.row rows w.there);
    pending = w.pending;
    named = w.named;
  }
  mark_rows-Waiting i (some f) rows w e =
      let first =
        subst
          (λ b.
            In (if b then mark_published now w.row else w.row)
              (update (λ r. any_id sent r.id) (mark_published now) rows))
          e (update-In (λ r. any_id sent r.id) (mark_published now) w.row rows w.there) in
      counted-Waiting i w.row _ (w.row.id == f.id)
        (update-In (λ r. r.id == f.id) count_attempt w.row
          (update (λ r. any_id sent r.id) (mark_published now) rows) first)
        w.pending w.named

In-payload :
    (r : OutboxRow) (rows : List OutboxRow) → In r rows → In r.payload (map payload_of rows)
In-payload r [] h = absurd h
In-payload r (x ∷ xs) (inl e) = inl (ap payload_of e)
In-payload r (x ∷ xs) (inr h) = inr (In-payload r xs h)

-- A row that is sent is at the broker after the pass.
pub sent_rows-Sent :
    (o : RelayOptions) (w : World) (reached : Bool) (i : ℕ) (db : Db) (r : OutboxRow)
    → In r (sent_rows w (take_batch o w db.outbox))
    → r.payload.body.order_id ≡ i
    → Sent i (map payload_of (carried o w reached db))
unfolding carried
sent_rows-Sent o w reached i db r h e = record {
  event = r.payload;
  there = In-payload r _ (In-append_left r (sent_rows w (take_batch o w db.outbox)) _ h);
  named = e;
}

pub Sent-append_right : (i : ℕ) (xs ys : List OrderPlacedEvent) → Sent i ys → Sent i (xs ++ ys)
Sent-append_right i xs ys w = record {
  event = w.event;
  there = In-append_right w.event xs ys w.there;
  named = w.named;
}

module _ (o : RelayOptions) (w : World) (reached : Bool) (s : System) (h : IsLossless s) where
  abbrev batch : List OutboxRow
  batch = take_batch o w s.db.outbox

  abbrev messages_after : List OrderPlacedEvent
  messages_after = s.messages ++ map payload_of (carried o w reached s.db)

  marked-waits :
      (i : ℕ)
      → Waiting i s.db.outbox
      → Waiting i (mark_rows w.now (sent_rows w batch) (failed_row w batch) s.db.outbox)
        ⊎ Sent i messages_after
  marked-waits i q = elim (Bool-cases (any_id (sent_rows w batch) q.row.id)) [
    | inr e ↦
        inl (mark_rows-Waiting w.now (sent_rows w batch) i (failed_row w batch) s.db.outbox q e)
    | inl e ↦
        let (r, m, same_id) = any_id-In (sent_rows w batch) q.row.id e in
        let (b, c) = In-sent_rows w r batch m in
        let same =
          same_row r q.row s.db.outbox h.apart (In-take_batch o w r s.db.outbox b).0 q.there
            same_id in
        inr (
          Sent-append_right i s.messages _ (
            sent_rows-Sent o w reached i s.db r m
              (ap (λ (x : OutboxRow). x.payload.body.order_id) same ∙ q.named)))
  ]

  pub relay_once-IsLossless :
      IsLossless (record s { db = (relay_once o w s.db).1; messages = messages_after })
  relay_once-IsLossless = elim (relay_once-cases o w s.db) [
    | inl e ↦
        subst (λ d. IsLossless (record s { db = d; messages = messages_after })) (sym e)
          (record {
            uuids = h.uuids;
            apart = h.apart;
            waits = λ i c. elim (h.waits i c) [
              | inl q ↦ inl q
              | inr sent ↦ inr (Sent-append i s.messages _ sent)
            ];
          })
    | inr e ↦
        subst (λ d. IsLossless (record s { db = d; messages = messages_after })) (sym e)
          (record {
            uuids =
                mark_rows-below w.now (sent_rows w batch) s.db.next_uuid (failed_row w batch)
                  s.db.outbox h.uuids;
            apart =
                mark_rows-Distinct w.now (sent_rows w batch) (failed_row w batch) s.db.outbox
                  h.apart;
            waits = λ i c. elim (h.waits i c) [
              | inl q ↦ marked-waits i q
              | inr sent ↦ inr (Sent-append i s.messages _ sent)
            ];
          })
  ]
