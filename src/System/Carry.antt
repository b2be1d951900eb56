-- ===== src/System/Carry.antt =====
-- A pass of the relay and a change of status: no order comes or goes, and what the broker gets is
-- what the outbox holds.
use marketplace_api.Prelude.{
  All, All-In, All-append, All-intro, All-mono, Bool, Bool-cases, Conversions, List, Number, Option,
  Text, [], ap, false, fraction, inl, inr, ltb, map, nan, nat, negative, none, refl, some, sym,
  true, ℕ, ◌++◌, ◌<◌, ◌==◌, ◌^◌, ◌∙◌, ◌∷◌, ◌≡◌, ◌⊎◌,
}
use marketplace_api.Store.{OrderPlacedEvent, OrderStatus, OutboxRow, Db, Order}
use marketplace_api.Outbox.Relay.{
  relay_once, RelayOptions, mark_rows, World, failed_row, sent_rows, any_id, take_batch,
  mark_published, count_attempt,
}
use marketplace_api.System.{
  System, carried, payload_of, step, unconfirmed, relay_pass, change_status, clean_up,
}
use marketplace_api.Orders.Status.{update_status, updated, update_numbered, set_status}
use marketplace_api.System.Sound.{IsSound, IsMessage}
use marketplace_api.Sql.{All-update, update, contains, affected, contains-update}
use marketplace_api.Orders.Events.{OrderEvents, no_events}
use marketplace_api.System.Steps.{IsMessage-mono, Moves, orders-IsSound}
use marketplace_api.Orders.Read.{has_order_id}
use marketplace_api.Outbox.Relay.Batch.{In-take_batch, In-failed_row, In-sent_rows}
use mathlib.Core.Path.{subst}
use marketplace_api.System.Stage.{is_for, stays, stage-Advance, stays}
use marketplace_api.Queue.{cleanup_outbox}
use marketplace_api.Queue.CleanUp.{cleanup-All}

module _ (P : OrderPlacedEvent → Type 0) where
  mark_sent-All :
      (now : ℕ) (sent rows : List OutboxRow)
      → All (λ r. P r.payload) rows
      → All (λ r. P r.payload) (update (λ r. any_id sent r.id) (mark_published now) rows)
  mark_sent-All now sent rows h =
      All-update (λ r. P r.payload) (λ r. any_id sent r.id) (mark_published now) (λ r p. p) rows h

  mark_rows-All :
      (now : ℕ) (sent : List OutboxRow) (failed : Option OutboxRow) (rows : List OutboxRow)
      → All (λ r. P r.payload) rows
      → All (λ r. P r.payload) (mark_rows now sent failed rows)
  unfolding mark_rows
  mark_rows-All now sent none rows h = mark_sent-All now sent rows h
  mark_rows-All now sent (some f) rows h =
      All-update (λ r. P r.payload) (λ r. r.id == f.id) count_attempt (λ r p. p) _
        (mark_sent-All now sent rows h)

  All-payload : (rs : List OutboxRow) → All (λ r. P r.payload) rs → All P (map payload_of rs)
  All-payload [] h = tt
  All-payload (r ∷ rs) h = (h.0, All-payload rs h.1)

  unconfirmed-All :
      (reached : Bool) (o : RelayOptions) (w : World) (rows : List OutboxRow) (f : Option OutboxRow)
      → failed_row w (take_batch o w rows) ≡ f
      → All (λ r. P r.payload) rows
      → All (λ r. P r.payload) (unconfirmed reached f)
  unconfirmed-All false o w rows f e h = tt
  unconfirmed-All true o w rows none e h = tt
  unconfirmed-All true o w rows (some f) e h =
      let (b, c) = In-failed_row w f (take_batch o w rows) e in
      (All-In (λ r. P r.payload) f rows h (In-take_batch o w f rows b).0, tt)

  pub carried-All :
      (o : RelayOptions) (w : World) (reached : Bool) (db : Db)
      → All (λ r. P r.payload) db.outbox
      → All P (map payload_of (carried o w reached db))
  unfolding carried
  carried-All o w reached db h =
      let batch = take_batch o w db.outbox in
      let sent =
        All-intro (λ (r : OutboxRow). P r.payload) (sent_rows w batch)
          (λ r i.
            All-In (λ r. P r.payload) r db.outbox h
              (In-take_batch o w r db.outbox (In-sent_rows w r batch i).0).0) in
      All-payload _ (
        All-append (λ (r : OutboxRow). P r.payload) (sent_rows w batch)
          (unconfirmed reached (failed_row w batch)) sent
          (unconfirmed-All reached o w db.outbox (failed_row w batch) refl h))

-- A pass changes the outbox at most.
pub relay_once-cases :
    (o : RelayOptions) (w : World) (db : Db)
    → ((relay_once o w db).1 ≡ db)
      ⊎ ((relay_once o w db).1 ≡ record db {
        outbox =
            mark_rows w.now
              (sent_rows w (take_batch o w db.outbox))
              (failed_row w (take_batch o w db.outbox))
              db.outbox;
      })
unfolding relay_once
relay_once-cases o w db = elim (Bool-cases w.hook_returns) [
  | inl e ↦ inr (rw e refl)
  | inr e ↦ inl (rw e refl)
]

-- A change of status changes the status of rows at most.
abbrev restated : ℕ → OrderStatus → Db → Db
restated n status db = record db { orders = update (has_order_id n) (set_status status) db.orders }

updated-cases :
    (conv : Conversions) (order_id : Text) (n : ℕ) (status : OrderStatus) (found : Bool)
    (s : Db × OrderEvents)
    → ((updated conv order_id n status found s).1.0 ≡ s.0)
      ⊎ ((updated conv order_id n status found s).1.0 ≡ restated n status s.0)
updated-cases conv order_id n status false s = inl refl
updated-cases conv order_id n status true s = inr refl

pub status-cases :
    (conv : Conversions) (order_id : Text) (x : Number) (status : OrderStatus)
    (s : Db × OrderEvents)
    → ((update_numbered conv order_id x status s).1.0 ≡ s.0)
      ⊎ ((n : ℕ) × ((update_numbered conv order_id x status s).1.0 ≡ restated n status s.0))
status-cases conv order_id nan status s = inl refl
status-cases conv order_id fraction status s = inl refl
status-cases conv order_id (negative n) status s = elim (Bool-cases (ltb n (2 ^ 31))) [
  | inl e ↦ inl (rw e refl)
  | inr e ↦ inl (rw e refl)
]
status-cases conv order_id (nat n) status s = elim (Bool-cases (ltb n (2 ^ 31))) [
  | inr e ↦ inl (rw e refl)
  | inl e ↦ elim (updated-cases conv order_id n status (contains (has_order_id n) s.0.orders) s) [
    | inl k ↦ inl (rw e k)
    | inr k ↦ inr (n, rw e k)
  ]
]

module _ (conv : Conversions) where
  carry :
      (s : System) (d : Db) (ms : List OrderPlacedEvent)
      → IsSound conv s
      → (k : (i : ℕ) → contains (has_order_id i) d.orders ≡ contains (has_order_id i) s.db.orders)
      → All (λ r. IsMessage conv d.orders r.payload) d.outbox
      → All (IsMessage conv d.orders) ms
      → d.processed_order_events ≡ s.db.processed_order_events
      → d.processed_messages ≡ s.db.processed_messages
      → All (λ o. o.id < d.next_order_id) d.orders
      → Moves conv s (record s { db = d; messages = ms })
  carry s d ms h k rows msgs es marks below = (
    orders-IsSound conv s (record s { db = d; messages = ms }) h (λ i c. k i ∙ c) rows msgs es marks
        below,
    λ i. stage-Advance i s.db d (k i) (ap (affected (is_for i)) es),
  )

  pub relay-Moves :
      (o : RelayOptions) (w : World) (reached : Bool) (s : System)
      → IsSound conv s
      → Moves conv s (step conv (relay_pass o w reached) s)
  relay-Moves o w reached s h =
      let ms = s.messages ++ map payload_of (carried o w reached s.db) in
      let msgs =
        All-append (IsMessage conv s.db.orders) s.messages _ h.messages
          (carried-All (IsMessage conv s.db.orders) o w reached s.db h.outbox) in
      elim (relay_once-cases o w s.db) [
        | inl e ↦
            subst (λ d. Moves conv s (record s { db = d; messages = ms })) (sym e)
              (carry s s.db ms h (λ i. refl) h.outbox msgs refl refl h.ids)
        | inr e ↦
            subst (λ d. Moves conv s (record s { db = d; messages = ms })) (sym e)
              (carry s _ ms h (λ i. refl)
                (mark_rows-All (IsMessage conv s.db.orders) w.now _ _ s.db.outbox h.outbox) msgs
                refl refl h.ids)
      ]

  pub status-Moves :
      (order_id : Text) (status : OrderStatus) (s : System)
      → IsSound conv s
      → Moves conv s (step conv (change_status order_id status) s)
  unfolding update_status
  status-Moves order_id status s h =
      elim (status-cases conv order_id (conv.number order_id) status (s.db, no_events)) [
        | inl e ↦ subst (λ d. Moves conv s (record s { db = d })) (sym e) (h, λ i. stays)
        | inr (n, e) ↦
            let d = restated n status s.db in
            let k = λ (i : ℕ).
              contains-update (has_order_id i) (has_order_id n) (set_status status) (λ o. refl)
                s.db.orders in
            let mono = IsMessage-mono conv s.db.orders d.orders (λ i c. k i ∙ c) in
            subst (λ d. Moves conv s (record s { db = d })) (sym e)
              (carry s d s.messages h k
                (All-mono (λ (r : OutboxRow). IsMessage conv s.db.orders r.payload)
                  (λ r. IsMessage conv d.orders r.payload) (λ r. mono r.payload) s.db.outbox
                  h.outbox)
                (All-mono (IsMessage conv s.db.orders) (IsMessage conv d.orders) mono s.messages
                  h.messages)
                refl refl
                (All-update (λ (o : Order). o.id < s.db.next_order_id) (has_order_id n)
                  (set_status status) (λ o l. l) s.db.orders h.ids))
      ]

  pub clean_up-Moves :
      (now : ℕ) (s : System) → IsSound conv s → Moves conv s (step conv (clean_up now) s)
  unfolding cleanup_outbox
  clean_up-Moves now s h =
      carry s _ s.messages h (λ i. refl)
        (cleanup-All (λ r. IsMessage conv s.db.orders r.payload) now s.db.outbox h.outbox)
        h.messages refl refl h.ids
