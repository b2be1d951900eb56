-- ===== src/System/Refine.antt =====
-- The life of an order in the whole system, whatever order the actions come in.
use marketplace_api.Prelude.{
  All-In, Bool, Conversions, In, In-get_elem?, List, [], arith, false, get_elem?, some, ℕ, ◌∷◌, ◌≡◌,
  ◌≤◌, ap, sym, true, ◌∙◌,
}
use marketplace_api.System.{
  Action, System, run, step, new_system, create_order, body_of, create_order_once, change_status,
  relay_pass, delivery, purchase, clean_up,
}
use marketplace_api.Store.{Product, User, OrderPlacedEvent, order_placed_event_id}
use marketplace_api.System.Sound.{
  IsMessage, IsSound, new_system-IsSound, effects_of-has, effects_of-absent,
}
use marketplace_api.Sql.{affected}
use marketplace_api.System.Placed.{Changed-Ordered, checkout-Ordered}
use marketplace_api.System.Stage.{Advance, effects_of, stage, effected, stage_of}
use marketplace_api.Messaging.Consumer.{Hooks, handle_message, acknowledge, has_event_id}
use marketplace_api.System.Steps.{Moves, Ordered-Moves}
use marketplace_api.Sql.{contains}
use marketplace_api.Orders.Read.{has_order_id}
use marketplace_api.Orders.Create.Changed.{create-Changed, create_idempotent-Changed}
use marketplace_api.System.Deliver.{
  message-Moves, placed_event, delivery-Moves, parse-body_of, Delivered-orders, handled-Delivered,
}
use marketplace_api.System.Carry.{clean_up-Moves, status-Moves, relay-Moves}
use mathlib.Core.Path.{subst}
use mathlib.Core.Option.{some-injective}
use marketplace_api.Messaging.Once.{handle_message-once}

module _ (conv : Conversions) where
  pub step-Moves : (a : Action) (s : System) → IsSound conv s → Moves conv s (step conv a s)
  step-Moves (create_order now dto user_id) s h =
      Ordered-Moves conv now s _ h
        (Changed-Ordered conv now s.db _ (create-Changed conv now dto user_id s.db))
  step-Moves (create_order_once now dto client_key request_hash user_id) s h =
      Ordered-Moves conv now s _ h (
        Changed-Ordered conv now s.db _
          (create_idempotent-Changed conv now dto client_key request_hash user_id s.db))
  step-Moves (purchase now user product quantity) s h =
      Ordered-Moves conv now s _ h (checkout-Ordered conv now user product quantity s.db)
  step-Moves (clean_up now) s h = clean_up-Moves conv now s h
  step-Moves (change_status order_id status) s h = status-Moves conv order_id status s h
  step-Moves (relay_pass o w reached) s h = relay-Moves conv o w reached s h
  step-Moves (delivery reachable hooks n) s h = delivery-Moves conv reachable hooks n s h

  run-IsSound :
      (actions : List Action) (s : System) → IsSound conv s → IsSound conv (run conv actions s)
  run-IsSound [] s h = h
  run-IsSound (a ∷ rest) s h = run-IsSound rest (step conv a s) (step-Moves a s h).0

  -- A message that is acknowledged is that of an order with its effect.
  pub acknowledge-effected :
      (s : System) (h : Hooks) (reachable : Bool) (n : ℕ) (e : OrderPlacedEvent)
      → IsSound conv s
      → get_elem? s.messages n ≡ some e
      → let out = handle_message reachable h (some (body_of e)) s.db in
        out.0.0 ≡ acknowledge → stage e.body.order_id out.1 ≡ effected
  acknowledge-effected s h reachable n e sound at acked =
      let m =
        All-In (IsMessage conv s.db.orders) e s.messages sound.messages
          (In-get_elem? n e s.messages at) in
      let after = message-Moves conv reachable h (some e) s sound (λ f eq.
        subst (λ x. In x s.messages) (some-injective e f eq) (In-get_elem? n e s.messages at)) in
      let once =
        handle_message-once reachable h (some (body_of e)) (placed_event e) s.db sound.inbox
          (parse-body_of e m.1) in
      let d = (handle_message reachable h (some (body_of e)) s.db).1 in
      let there : contains (has_order_id e.body.order_id) d.orders ≡ true =
        ap (contains (has_order_id e.body.order_id))
          (Delivered-orders (placed_event e) s.db d (handled-Delivered reachable h e s.db m.1))
        ∙ m.2 in
      let one : effects_of e.body.order_id d ≡ 1 =
        effects_of-has conv d.orders e.body.order_id d.processed_order_events after.0.effects
        ∙ ap (λ t. affected (has_event_id t) d.processed_order_events) (sym m.0)
        ∙ once.1 acked in
      ap (λ b. stage_of b (effects_of e.body.order_id d)) there ∙ ap (stage_of true) one

  module _ (products : List Product) (users : List User) (actions : List Action) where
    abbrev pub reached : System
    reached = run conv actions (new_system products users)

    pub reached-IsSound : IsSound conv reached
    reached-IsSound =
        run-IsSound actions (new_system products users) (new_system-IsSound conv products users)

    -- In a service that began without orders, and after any actions, each further action moves each
    -- order along its life or not at all: an absent order is placed, and a placed one has its effect.
    -- No order goes back, and none has an effect before it is placed.
    pub step-Advance :
        (a : Action) (i : ℕ) → Advance (stage i reached.db) (stage i (step conv a reached).db)
    step-Advance a i = (step-Moves a reached reached-IsSound).1 i

    -- After any actions of a service that began without orders, an order has at most one effect, and
    -- one that is not in the table has none.
    pub effects_of-once :
        (i : ℕ)
        → (effects_of i reached.db ≤ 1)
          × (contains (has_order_id i) reached.db.orders ≡ false → effects_of i reached.db ≡ 0)
    effects_of-once i =
        let s = reached-IsSound in
        let same =
          effects_of-has conv reached.db.orders i reached.db.processed_order_events s.effects in
        (
          omega (arith, same, s.inbox.once (order_placed_event_id conv i)),
          effects_of-absent conv reached.db.orders i reached.db.processed_order_events s.effects,
        )

    -- After any actions of a service that began without orders, a message that the consumer
    -- acknowledges is that of an order in the table, and the order has its effect then.
    pub handle_message-effected :
        (reachable : Bool) (h : Hooks) (n : ℕ) (e : OrderPlacedEvent)
        → get_elem? reached.messages n ≡ some e
        → let out = handle_message reachable h (some (body_of e)) reached.db in
          out.0.0 ≡ acknowledge → stage e.body.order_id out.1 ≡ effected
    handle_message-effected reachable h n e at acked =
        acknowledge-effected reached h reachable n e reached-IsSound at acked
