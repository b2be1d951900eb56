-- ===== src/System/Progress.antt =====
-- Whatever has happened, one pass of the relay and one delivery, with everything in reach, give an order
-- its effect, if its message is not among the dead letters.
use marketplace_api.Prelude.{
  All-In, Bool, Bool-cases, Conversions, In, List, [], ap, arith, false, get_elem?, inl, inr, leb,
  length, refl, some, suc, sym, true, ℕ, ◌&&◌, ◌<◌, ◌^◌, ◌∙◌, ◌∷◌, ◌≡◌, ◌≤◌, if◌then◌else◌, none,
  ◌⊎◌,
}
use marketplace_api.Messaging.Consumer.{
  Hooks, mark_and_insert, PlacedEvent, handle_message, insert_mark, apply_order_placed_effect,
  insert_event, fits_int4, settle_applied, is_mark, acknowledge, has_event_id, handle_parsed,
}
use marketplace_api.Outbox.Relay.{
  is_eligible, World, RelayOptions, default_options, is_pending, sent_rows, take_batch,
}
use marketplace_api.Store.{
  Db, OrderPlacedEvent, OutboxRow, routing_key_order_placed, order_placed_event_id, Product, User,
}
use marketplace_api.System.{
  Action, System, step, body_of, delivery, delivered, relay_pass, run, new_system, delivery_limit,
  deliverable,
}
use marketplace_api.Store.Tx.{Result, ok, transaction, commit}
use marketplace_api.System.Waiting.{IsLossless, Sent, Sent-append}
use marketplace_api.System.Sound.{IsSound, IsMessage, new_system-IsSound}
use marketplace_api.Sql.{affected, contains, In-select_intro}
use marketplace_api.System.Stage.{stage, effected}
use marketplace_api.Outbox.Relay.Drain.{
  take_batch-whole, In-order_rows_intro, eligible-eq-pending, sent_rows-whole,
}
use mathlib.Core.Path.{subst}
use marketplace_api.System.Lossless.{run-IsLossless, new_system-IsLossless}
use marketplace_api.System.Refine.{acknowledge-effected, reached, reached-IsSound, step-Moves}
use marketplace_api.System.Deliver.{parse-body_of, placed_event}
use marketplace_api.Messaging.Inbox.{with_effect, with_mark}
use marketplace_api.Orders.Read.{has_order_id}
use marketplace_api.System.Courier.{Sent-append_right, sent_rows-Sent}
use marketplace_api.System.Dead.{IsDead, appended-IsDead, run-IsCounted}

abbrev pub willing : Hooks
willing = record { wants_requeue = λ b. false; hooks_return = true }

-- A pass that meets no obstacle, with room for all the rows that wait.
abbrev pub clear_world : ℕ → World
clear_world now = record { now = now; busy = λ r. false; confirms = λ r. true; hook_returns = true }

abbrev pub whole_batch : Db → RelayOptions
whole_batch db = record default_options { batch_size = affected is_pending db.outbox }

insert_event-ok :
    (e : PlacedEvent) (db : Db)
    → fits_int4 e.order_id && leb (length e.event_id) 200 ≡ true
    → (b : Bool) × (d : Db) × (mark_and_insert e db ≡ ok (b, d))
unfolding mark_and_insert insert_mark insert_event
insert_event-ok e db fits =
    elim (Bool-cases (contains (is_mark e.event_id) db.processed_messages)) [
      | inl dup ↦ (false, db, rw dup refl)
      | inr fresh ↦
          elim (Bool-cases (contains (has_event_id e.event_id) db.processed_order_events)) [
            | inl there ↦ (true, with_mark e db, rw (fresh, fits, there) refl)
            | inr free ↦ (true, with_effect e (with_mark e db), rw (fresh, fits, free) refl)
          ]
    ]

settle-willing :
    (e : PlacedEvent) (db : Db) (r : Result (Bool × Db)) (b : Bool) (d : Db)
    → r ≡ ok (b, d)
    → (settle_applied willing (commit db r)).0.0 ≡ acknowledge
settle-willing e db r b d h =
    subst (λ x. (settle_applied willing (commit db x)).0.0 ≡ acknowledge) (sym h) refl

-- A message that fits in its columns is acknowledged when the database answers.
acknowledged :
    (e : OrderPlacedEvent) (db : Db)
    → e.type ≡ routing_key_order_placed
    → e.body.order_id < 2 ^ 31
    → length e.event_id ≤ 200
    → (handle_message true willing (some (body_of e)) db).0.0 ≡ acknowledge
unfolding handle_message apply_order_placed_effect transaction
acknowledged e db kind small short =
    let (b, d, done) = insert_event-ok (placed_event e) db (ground arith) in
    subst (λ p. (handle_parsed true willing p db).0.0 ≡ acknowledge) (sym (parse-body_of e kind))
      (settle-willing (placed_event e) db (mark_and_insert (placed_event e) db) b d done)

place_in :
    (e : OrderPlacedEvent) (ms : List OrderPlacedEvent)
    → In e ms
    → (n : ℕ) × (get_elem? ms n ≡ some e)
place_in e [] h = absurd h
place_in e (x ∷ xs) (inl same) = (0, ap some (sym same))
place_in e (x ∷ xs) (inr h) = let (n, at) = place_in e xs h in (suc n, at)

-- A row that waits is sent in a clear pass.
waiting-sent :
    (now : ℕ) (db : Db) (r : OutboxRow)
    → In r db.outbox
    → is_pending r ≡ true
    → In r (sent_rows (clear_world now) (take_batch (whole_batch db) (clear_world now) db.outbox))
waiting-sent now db r i p =
    let o = whole_batch db in
    let w = clear_world now in
    let whole = take_batch-whole o w refl (λ r. refl) db.outbox (omega arith) in
    let taken = In-order_rows_intro r _ (
      In-select_intro (is_eligible o w) r db.outbox i
        (eligible-eq-pending o w refl (λ r. refl) r ∙ p)) in
    subst (In r) (sym (sent_rows-whole w (λ r. refl) _)) (subst (In r) (sym whole) taken)

module _ (conv : Conversions) where
  -- One delivery gives an order whose message was sent its effect, unless that message is among the
  -- dead letters.
  delivered-effected :
      (s : System) (i : ℕ)
      → IsSound conv s
      → Sent i s.messages
      → i < 2 ^ 31
      → length (order_placed_event_id conv i) ≤ 200
      → ((n : ℕ) × (stage i (step conv (delivery true willing n) s).db ≡ effected)) ⊎ IsDead i s
  delivered-effected s i sound q small short =
      let (n, at) = place_in q.event s.messages q.there in
      let m = All-In (IsMessage conv s.db.orders) q.event s.messages sound.messages q.there in
      let short' =
        subst (λ t. length t ≤ 200) (sym (m.0 ∙ ap (order_placed_event_id conv) q.named)) short in
      let acked =
        acknowledged q.event s.db m.1 (subst (λ k. k < 2 ^ 31) (sym q.named) small) short' in
      let done = acknowledge-effected conv s willing true n q.event sound at acked in
      elim (Bool-cases (leb (s.returned n) delivery_limit)) [
        | inr many ↦ inr (n, q.event, at, q.named, ground (arith, many))
        | inl few ↦
            let found : deliverable s n ≡ some q.event =
              ap (λ b. if b then get_elem? s.messages n else none) few ∙ at in
            inl (
              n,
              subst (λ x. stage i (delivered true willing x s.db) ≡ effected) (sym found)
                  (subst (λ k. stage k (delivered true willing (some q.event) s.db) ≡ effected)
                    q.named done),
            )
      ]

  -- After a clear pass the broker has the message of each order.
  relayed-Sent :
      (now i : ℕ) (s : System)
      → IsLossless s
      → contains (has_order_id i) s.db.orders ≡ true
      → Sent i (step conv (relay_pass (whole_batch s.db) (clear_world now) false) s).messages
  relayed-Sent now i s h c = elim (h.waits i c) [
    | inr sent ↦ Sent-append i s.messages _ sent
    | inl q ↦ Sent-append_right i s.messages _ (
        sent_rows-Sent (whole_batch s.db) (clear_world now) false i s.db q.row
          (waiting-sent now s.db q.row q.there q.pending) q.named)
  ]

  -- After any actions of a service that began without orders: one pass of the relay with everything
  -- in reach and room for all rows, and then one delivery, give an order of the table its effect,
  -- unless a message of the order had come back more often than the delivery limit before, and is
  -- among the dead letters. The order's number fits in an int4, and the id of its event in 200
  -- characters.
  pub run-effected :
      (products : List Product) (users : List User) (actions : List Action) (now i : ℕ)
      → contains (has_order_id i) (reached conv products users actions).db.orders ≡ true
      → i < 2 ^ 31
      → length (order_placed_event_id conv i) ≤ 200
      → let s = reached conv products users actions in
        ((n : ℕ) × (stage i
              (run conv
                (relay_pass (whole_batch s.db) (clear_world now) false
                  ∷ delivery true willing n
                  ∷ [])
                s).db
            ≡ effected))
        ⊎ IsDead i s
  run-effected products users actions now i c small short =
      let s = reached conv products users actions in
      let sound = reached-IsSound conv products users actions in
      let h =
        run-IsLossless conv actions (new_system products users)
          (new_system-IsLossless conv products users) (new_system-IsSound conv products users) in
      let pass = relay_pass (whole_batch s.db) (clear_world now) false in
      elim (delivered-effected (step conv pass s) i (step-Moves conv pass s sound).0
        (relayed-Sent now i s h c) small short) [
          | inl done ↦ inl done
          | inr dead ↦ inr (
              appended-IsDead i s (step conv pass s) _
                (run-IsCounted conv actions (new_system products users) (λ n absent. refl)) dead)
        ]
