-- ===== src/System/Deliver.antt =====
-- A delivery: what the consumer makes of a message of the relay.
use marketplace_api.Prelude.{
  All-In, All-append, Bool, Bool-cases, Conversions, In, In-get_elem?, Option, [], ap, arith, false,
  get_elem?, inl, inr, nat, none, refl, some, sym, text_eq_refl, true, ℕ, ◌==◌, ◌∙◌, ◌∷◌, ◌≡◌,
  if◌then◌else◌, leb,
}
use marketplace_api.Store.{OrderPlacedEvent, Db, routing_key_order_placed, order_placed_event_id}
use marketplace_api.Messaging.Consumer.{
  PlacedEvent, apply_order_placed_effect, handle_message, Hooks, parse_order_placed, has_event_id,
  handle_parsed,
}
use marketplace_api.Store.Tx.{transaction, commit}
use marketplace_api.System.{System, body_of, delivered, step, delivery, deliverable, delivery_limit}
use marketplace_api.Messaging.Inbox.{
  with_mark, Applied-cases, duplicate, IsInbox, with_effect, refused, already, applied, effect_row,
}
use marketplace_api.System.Sound.{IsSound, IsMessage, IsEffect, effects_of-has}
use marketplace_api.Sql.{contains, affected-append, free-affected}
use mathlib.Core.Path.{subst}
use marketplace_api.System.Steps.{Moves}
use marketplace_api.System.Stage.{
  is_for, placed, effects, stays, Advance, stays, stage, stage-Advance, effects_of, stage_of,
}
use marketplace_api.Messaging.Once.{handle_message-once}
use marketplace_api.Orders.Read.{has_order_id}

abbrev pub placed_event : OrderPlacedEvent → PlacedEvent
placed_event e = record { event_id = e.event_id; order_id = nat e.body.order_id }

-- What a delivery may have done to the tables.
pub data Delivered (e : PlacedEvent) (db d : Db) : Type 0 where
  left_alone : d ≡ db → Delivered e db d
  only_marked : d ≡ with_mark e db → Delivered e db d
  now_effected :
      contains (has_event_id e.event_id) db.processed_order_events ≡ false
      → d ≡ with_effect e (with_mark e db)
      → Delivered e db d

apply-Delivered :
    (reachable : Bool) (e : PlacedEvent) (db : Db)
    → Delivered e db (apply_order_placed_effect reachable e db).1
unfolding apply_order_placed_effect transaction
apply-Delivered false e db = left_alone refl
apply-Delivered true e db = elim (Applied-cases e db) [
  | duplicate dup eq ↦ left_alone (ap (λ r. (commit db r).1) eq)
  | refused eq ↦ left_alone (ap (λ r. (commit db r).1) eq)
  | already there eq ↦ only_marked (ap (λ r. (commit db r).1) eq)
  | applied fresh free eq ↦ now_effected free (ap (λ r. (commit db r).1) eq)
]

pub parse-body_of :
    (e : OrderPlacedEvent)
    → e.type ≡ routing_key_order_placed
    → parse_order_placed (some (body_of e)) ≡ some (placed_event e)
parse-body_of e h = rw (h, text_eq_refl routing_key_order_placed) refl

pub handled-Delivered :
    (reachable : Bool) (h : Hooks) (e : OrderPlacedEvent) (db : Db)
    → e.type ≡ routing_key_order_placed
    → Delivered (placed_event e) db (handle_message reachable h (some (body_of e)) db).1
unfolding handle_message
handled-Delivered reachable h e db k =
    subst (λ p. Delivered (placed_event e) db (handle_parsed reachable h p db).1)
      (sym (parse-body_of e k)) (apply-Delivered reachable (placed_event e) db)

pub Delivered-orders : (e : PlacedEvent) (db d : Db) → Delivered e db d → d.orders ≡ db.orders
Delivered-orders e db d (left_alone eq) = ap (λ (x : Db). x.orders) eq
Delivered-orders e db d (only_marked eq) = ap (λ (x : Db). x.orders) eq
Delivered-orders e db d (now_effected free eq) = ap (λ (x : Db). x.orders) eq

module _ (conv : Conversions) where
  effected-stage :
      (i : ℕ) (e : OrderPlacedEvent) (s : System)
      → IsSound conv s
      → IsMessage conv s.db.orders e
      → contains (has_event_id e.event_id) s.db.processed_order_events ≡ false
      → Advance
          (stage i s.db)
          (stage i (with_effect (placed_event e) (with_mark (placed_event e) s.db)))
  effected-stage i e s h (named, kind, there) free =
      let d = with_effect (placed_event e) (with_mark (placed_event e) s.db) in
      let more =
        affected-append (is_for i) s.db.processed_order_events (effect_row (placed_event e) ∷ []) in
      elim (Bool-cases (e.body.order_id == i)) [
        | inr other ↦ stage-Advance i s.db d refl (more ∙ ground (arith, other))
        | inl own ↦
            let same : e.body.order_id ≡ i = ground arith in
            let here : contains (has_order_id i) s.db.orders ≡ true =
              subst (λ n. contains (has_order_id n) s.db.orders ≡ true) same there in
            let none_yet : effects_of i s.db ≡ 0 =
              effects_of-has conv s.db.orders i s.db.processed_order_events h.effects
              ∙ free-affected (has_event_id (order_placed_event_id conv i))
                  s.db.processed_order_events
                  (subst (λ t. contains (has_event_id t) s.db.processed_order_events ≡ false)
                    (named ∙ ap (order_placed_event_id conv) same) free) in
            let one : effects_of i d ≡ 1 = more ∙ ground (arith, own, none_yet) in
            subst (λ x. Advance x (stage i d))
              (sym (ap (λ b. stage_of b (effects_of i s.db)) here ∙ ap (stage_of true) none_yet))
              (subst (Advance placed)
                (sym (ap (λ b. stage_of b (effects_of i d)) here ∙ ap (stage_of true) one)) effects)
      ]

  Delivered-Moves :
      (e : OrderPlacedEvent) (s : System) (d : Db)
      → IsSound conv s
      → IsMessage conv s.db.orders e
      → IsInbox d
      → Delivered (placed_event e) s.db d
      → Moves conv s (record s { db = d })
  Delivered-Moves e s d h m inbox (left_alone eq) =
      subst (λ d. Moves conv s (record s { db = d })) (sym eq) (h, λ i. stays)
  Delivered-Moves e s d h m inbox (only_marked eq) =
      subst (λ d. Moves conv s (record s { db = d })) (sym eq)
        (
          record {
            outbox = h.outbox;
            messages = h.messages;
            effects = h.effects;
            inbox = subst IsInbox eq inbox;
            ids = h.ids;
          },
          λ i. stays,
        )
  Delivered-Moves e s d h m inbox (now_effected free eq) =
      subst (λ d. Moves conv s (record s { db = d })) (sym eq)
        (
          record {
            outbox = h.outbox;
            messages = h.messages;
            effects =
                All-append (IsEffect conv s.db.orders) s.db.processed_order_events
                  (effect_row (placed_event e) ∷ []) h.effects
                  ((e.body.order_id, refl, m.0, m.2), tt);
            inbox = subst IsInbox eq inbox;
            ids = h.ids;
          },
          λ i. effected-stage i e s h m free,
        )

  pub message-Moves :
      (reachable : Bool) (h : Hooks) (found : Option OrderPlacedEvent) (s : System)
      → IsSound conv s
      → ((e : OrderPlacedEvent) → found ≡ some e → In e s.messages)
      → Moves conv s (record s { db = delivered reachable h found s.db })
  message-Moves reachable h none s sound at = (sound, λ i. stays)
  message-Moves reachable h (some e) s sound at =
      let m = All-In (IsMessage conv s.db.orders) e s.messages sound.messages (at e refl) in
      let once =
        handle_message-once reachable h (some (body_of e)) (placed_event e) s.db sound.inbox
          (parse-body_of e m.1) in
      Delivered-Moves e s _ sound m once.0 (handled-Delivered reachable h e s.db m.1)

  -- What the broker has counted does not show in the tables.
  counted-Moves :
      (s s' : System) (returned : ℕ → ℕ)
      → Moves conv s s'
      → Moves conv s (record s' { returned = returned })
  counted-Moves s s' returned (h, advance) = (
    record {
      outbox = h.outbox;
      messages = h.messages;
      effects = h.effects;
      inbox = h.inbox;
      ids = h.ids;
    },
    advance,
  )

  pub deliverable-In :
      (s : System) (n : ℕ) (e : OrderPlacedEvent) → deliverable s n ≡ some e → In e s.messages
  deliverable-In s n e h = elim (Bool-cases (leb (s.returned n) delivery_limit)) [
    | inl few ↦
        In-get_elem? n e s.messages
          (subst (λ b. (if b then get_elem? s.messages n else none) ≡ some e) few h)
    | inr many ↦
        let gone : none ≡ some e =
          subst (λ b. (if b then get_elem? s.messages n else none) ≡ some e) many h in
        absurd (cc)
  ]

  pub delivery-Moves :
      (reachable : Bool) (h : Hooks) (n : ℕ) (s : System)
      → IsSound conv s
      → Moves conv s (step conv (delivery reachable h n) s)
  delivery-Moves reachable h n s sound =
      counted-Moves s (record s { db = delivered reachable h (deliverable s n) s.db }) _
        (message-Moves reachable h (deliverable s n) s sound (deliverable-In s n))
