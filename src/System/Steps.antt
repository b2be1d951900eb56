-- ===== src/System/Steps.antt =====
-- What each action does to the stage of each order, and that it keeps the invariant.
use marketplace_api.Prelude.{
  All, All-append, All-mono, Bool-cases, Conversions, List, [], ap, arith, inl, inr, refl, sym,
  true, ℕ, ◌++◌, ◌<◌, ◌==◌, ◌∙◌, ◌∷◌, ◌≡◌,
}
use marketplace_api.System.{System}
use marketplace_api.Store.{
  Order, build_order_placed_event, OrderPlacedEvent, ProcessedOrderEvent, Db, OutboxRow,
}
use marketplace_api.System.Sound.{IsSound, IsMessage, IsEffect, IsInbox-same, effects_of-absent}
use marketplace_api.Sql.{contains, contains-append, contains-append_left, affected}
use marketplace_api.System.Stage.{
  absent, placed, places, stays, Advance, stage, stage-Advance, stays, is_for, stage_of, effects_of,
}
use marketplace_api.Orders.Read.{has_order_id}
use marketplace_api.System.Placed.{Placed, Ordered, no_order, new_order}
use mathlib.Core.Path.{subst}

module _ (conv : Conversions) where
  abbrev pub Moves : System → System → Type 0
  Moves s t = IsSound conv t × ((i : ℕ) → Advance (stage i s.db) (stage i t.db))

  abbrev pub Keeps : List Order → List Order → Type 0
  Keeps os os' =
      (i : ℕ) → contains (has_order_id i) os ≡ true → contains (has_order_id i) os' ≡ true

  pub IsMessage-mono :
      (os os' : List Order)
      → Keeps os os'
      → (e : OrderPlacedEvent) → IsMessage conv os e
      → IsMessage conv os' e
  IsMessage-mono os os' k e (p, q, c) = (p, q, k e.body.order_id c)

  pub IsEffect-mono :
      (os os' : List Order)
      → Keeps os os'
      → (r : ProcessedOrderEvent) → IsEffect conv os r
      → IsEffect conv os' r
  IsEffect-mono os os' k r (n, p, q, c) = (n, p, q, k n c)

  -- New orders in the table, with the rows of the outbox and the messages that go with them.
  pub orders-IsSound :
      (s t : System)
      → IsSound conv s
      → Keeps s.db.orders t.db.orders
      → All (λ r. IsMessage conv t.db.orders r.payload) t.db.outbox
      → All (IsMessage conv t.db.orders) t.messages
      → t.db.processed_order_events ≡ s.db.processed_order_events
      → t.db.processed_messages ≡ s.db.processed_messages
      → All (λ o. o.id < t.db.next_order_id) t.db.orders
      → IsSound conv t
  orders-IsSound s t h k rows ms es marks below = record {
    outbox = rows;
    messages = ms;
    effects = subst (All (IsEffect conv t.db.orders)) (sym es) (
        All-mono (IsEffect conv s.db.orders) (IsEffect conv t.db.orders)
          (IsEffect-mono s.db.orders t.db.orders k) s.db.processed_order_events h.effects);
    inbox = IsInbox-same conv s.db t.db es marks h.inbox;
    ids = below;
  }

  has_own : (os : List Order) (o : Order) → contains (has_order_id o.id) (os ++ o ∷ []) ≡ true
  has_own os o = contains-append (has_order_id o.id) os o ∙ ground arith

  Placed-stage :
      (now i : ℕ) (s : System) (d : Db) (order : Order)
      → IsSound conv s
      → Placed conv now s.db d order
      → Advance (stage i s.db) (stage i d)
  Placed-stage now i s d order h sv =
      let grown =
        ap (contains (has_order_id i)) sv.rows
        ∙ contains-append (has_order_id i) s.db.orders order in
      elim (Bool-cases (contains (has_order_id i) s.db.orders)) [
        | inl there ↦
            stage-Advance i s.db d (grown ∙ ground (arith, there))
              (ap (affected (is_for i)) sv.effects)
        | inr free ↦ elim (Bool-cases (order.id == i)) [
          | inr other ↦
              stage-Advance i s.db d (grown ∙ ground (arith, free, other))
                (ap (affected (is_for i)) sv.effects)
          | inl own ↦
              let none_yet =
                effects_of-absent conv s.db.orders i s.db.processed_order_events h.effects free in
              let before : stage i s.db ≡ absent = ap (λ b. stage_of b (effects_of i s.db)) free in
              let there : contains (has_order_id i) d.orders ≡ true =
                grown ∙ ground (arith, free, own) in
              let zero_after : effects_of i d ≡ 0 =
                ap (affected (is_for i)) sv.effects ∙ none_yet in
              let after : stage i d ≡ placed =
                ap (λ b. stage_of b (effects_of i d)) there ∙ ap (stage_of true) zero_after in
              subst (λ x. Advance x (stage i d)) (sym before)
                (subst (Advance absent) (sym after) places)
        ]
      ]

  Placed-Moves :
      (now : ℕ) (s : System) (d : Db) (order : Order)
      → IsSound conv s
      → Placed conv now s.db d order
      → Moves s (record s { db = d })
  unfolding build_order_placed_event
  Placed-Moves now s d order h sv =
      let keeps : Keeps s.db.orders d.orders = λ i c.
        ap (contains (has_order_id i)) sv.rows
        ∙ contains-append_left (has_order_id i) s.db.orders (order ∷ []) c in
      let own = ap (contains (has_order_id order.id)) sv.rows ∙ has_own s.db.orders order in
      let named = subst (λ i. contains (has_order_id i) d.orders ≡ true) (sym sv.about) own in
      let mono = IsMessage-mono s.db.orders d.orders keeps in
      let rows =
        subst (All (λ (r : OutboxRow). IsMessage conv d.orders r.payload)) (sym sv.message) (
          All-append (λ (r : OutboxRow). IsMessage conv d.orders r.payload) s.db.outbox _
            (All-mono (λ (r : OutboxRow). IsMessage conv s.db.orders r.payload)
              (λ r. IsMessage conv d.orders r.payload) (λ r. mono r.payload) s.db.outbox h.outbox)
            ((refl, refl, named), tt)) in
      let below = subst (All (λ (o : Order). o.id < d.next_order_id)) (sym sv.rows) (
        All-append (λ (o : Order). o.id < d.next_order_id) s.db.orders (order ∷ [])
          (All-mono (λ (o : Order). o.id < s.db.next_order_id) (λ o. o.id < d.next_order_id)
            (λ o l. omega (arith, sv.next, l)) s.db.orders h.ids)
          (omega (arith, sv.next, sv.ids), tt)) in
      (
        orders-IsSound s (record s { db = d }) h keeps rows
            (All-mono (IsMessage conv s.db.orders) (IsMessage conv d.orders) mono s.messages
              h.messages)
            sv.effects sv.marks below,
        λ i. Placed-stage now i s d order h sv,
      )

  pub Ordered-Moves :
      (now : ℕ) (s : System) (d : Db)
      → IsSound conv s
      → Ordered conv now s.db d
      → Moves s (record s { db = d })
  Ordered-Moves now s d h (no_order e) =
      subst (λ x. Moves s (record s { db = x })) (sym e) (h, λ i. stays)
  Ordered-Moves now s d h (new_order order sv) = Placed-Moves now s d order h sv
