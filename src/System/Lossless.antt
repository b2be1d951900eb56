-- ===== src/System/Lossless.antt =====
-- Each action leaves no message behind.
use marketplace_api.System.Refine.{step-Moves}
use marketplace_api.Prelude.{
  All-In, Bool, Conversions, In, List, Option, Text, [], inl, inr, none, refl, some, sym, ◌∷◌, ◌≡◌,
}
use marketplace_api.Messaging.Consumer.{PlacedEvent, Hooks}
use marketplace_api.Orders.Status.{update_status, set_status}
use marketplace_api.System.{
  create_order_once, create_order, purchase, change_status, relay_pass, clean_up, delivery, Action,
  System, step, new_system, delivered, run, deliverable,
}
use marketplace_api.Store.{Product, OrderPlacedEvent, OrderStatus, User, Db}
use marketplace_api.System.Waiting.{
  IsLossless, Ordered-IsLossless, IsLossless-same, clean_up-IsLossless,
}
use marketplace_api.Sql.{contains-update}
use marketplace_api.System.Deliver.{
  now_effected, only_marked, left_alone, Delivered, placed_event, handled-Delivered, deliverable-In,
}
use marketplace_api.System.Sound.{IsSound, IsMessage}
use mathlib.Core.Path.{subst}
use marketplace_api.System.Carry.{status-cases}
use marketplace_api.Orders.Events.{no_events}
use marketplace_api.System.Placed.{Changed-Ordered, checkout-Ordered}
use marketplace_api.Orders.Create.Changed.{create-Changed, create_idempotent-Changed}
use marketplace_api.Orders.Read.{has_order_id}
use marketplace_api.System.Courier.{relay_once-IsLossless}

module _ (conv : Conversions) where
  Delivered-IsLossless :
      (e : PlacedEvent) (s : System) (d : Db)
      → IsLossless s
      → Delivered e s.db d
      → IsLossless (record s { db = d })
  Delivered-IsLossless e s d h (left_alone eq) =
      subst (λ x. IsLossless (record s { db = x })) (sym eq) h
  Delivered-IsLossless e s d h (only_marked eq) =
      subst (λ x. IsLossless (record s { db = x })) (sym eq)
        (IsLossless-same s _ h refl refl (λ i. refl))
  Delivered-IsLossless e s d h (now_effected free eq) =
      subst (λ x. IsLossless (record s { db = x })) (sym eq)
        (IsLossless-same s _ h refl refl (λ i. refl))

  message-IsLossless :
      (reachable : Bool) (hooks : Hooks) (found : Option OrderPlacedEvent) (s : System)
      → IsLossless s
      → IsSound conv s
      → ((e : OrderPlacedEvent) → found ≡ some e → In e s.messages)
      → IsLossless (record s { db = delivered reachable hooks found s.db })
  message-IsLossless reachable hooks none s h sound at = h
  message-IsLossless reachable hooks (some e) s h sound at =
      let m = All-In (IsMessage conv s.db.orders) e s.messages sound.messages (at e refl) in
      Delivered-IsLossless (placed_event e) s _ h (handled-Delivered reachable hooks e s.db m.1)

  status-IsLossless :
      (order_id : Text) (status : OrderStatus) (s : System)
      → IsLossless s
      → IsLossless (step conv (change_status order_id status) s)
  unfolding update_status
  status-IsLossless order_id status s h =
      elim (status-cases conv order_id (conv.number order_id) status (s.db, no_events)) [
        | inl e ↦ subst (λ x. IsLossless (record s { db = x })) (sym e) h
        | inr (n, e) ↦
            subst (λ x. IsLossless (record s { db = x })) (sym e)
              (IsLossless-same s _ h refl refl (λ i.
                contains-update (has_order_id i) (has_order_id n) (set_status status) (λ o. refl)
                  s.db.orders))
      ]

  step-IsLossless :
      (a : Action) (s : System) → IsLossless s → IsSound conv s → IsLossless (step conv a s)
  step-IsLossless (create_order now dto user_id) s h sound =
      Ordered-IsLossless conv now s _ h
        (Changed-Ordered conv now s.db _ (create-Changed conv now dto user_id s.db))
  step-IsLossless (create_order_once now dto client_key request_hash user_id) s h sound =
      Ordered-IsLossless conv now s _ h (
        Changed-Ordered conv now s.db _
          (create_idempotent-Changed conv now dto client_key request_hash user_id s.db))
  step-IsLossless (purchase now user product quantity) s h sound =
      Ordered-IsLossless conv now s _ h (checkout-Ordered conv now user product quantity s.db)
  step-IsLossless (change_status order_id status) s h sound = status-IsLossless order_id status s h
  step-IsLossless (relay_pass o w got) s h sound = relay_once-IsLossless o w got s h
  step-IsLossless (clean_up now) s h sound = clean_up-IsLossless now s h
  step-IsLossless (delivery reachable hooks n) s h sound =
      let after =
        message-IsLossless reachable hooks (deliverable s n) s h sound (deliverable-In conv s n) in
      record { uuids = after.uuids; apart = after.apart; waits = after.waits }

  pub run-IsLossless :
      (actions : List Action) (s : System)
      → IsLossless s
      → IsSound conv s
      → IsLossless (run conv actions s)
  run-IsLossless [] s h sound = h
  run-IsLossless (a ∷ rest) s h sound =
      run-IsLossless rest (step conv a s) (step-IsLossless a s h sound)
        (step-Moves conv a s sound).0

  pub new_system-IsLossless :
      (products : List Product) (users : List User) → IsLossless (new_system products users)
  new_system-IsLossless products users = record {
    uuids = tt;
    apart = tt;
    waits = λ i c. absurd (cc);
  }
