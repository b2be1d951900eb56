-- ===== src/Store/Events.antt =====
-- The event `order.placed` (src/messaging/events.ts) and the outbox row that carries it.
use marketplace_api.Prelude.{
  ℕ, Option, Text, text, List, map, ◌++◌, ◌≡◌, Conversions, nat, ap, sym, ◌∙◌,
}

pub record Line : Type 0 where
  pub product_id : ℕ
  pub quantity : ℕ

pub record OrderPlacedData : Type 0 where
  pub order_id : ℕ
  pub customer_email : Text
  pub total_cents : ℕ
  pub currency : Text
  pub items : List Line

pub record OrderPlacedEvent : Type 0 where
  pub event_id : Text
  pub type : Text
  pub occurred_at : ℕ
  pub body : OrderPlacedData

pub record OutboxRow : Type 0 where
  pub id : ℕ
  pub aggregate_type : Text
  pub aggregate_id : Text
  pub type : Text
  pub payload : OrderPlacedEvent
  pub created_at : ℕ
  pub published_at : Option ℕ
  pub attempts : ℕ

-- ROUTING_KEY_ORDER_PLACED
abbrev pub routing_key_order_placed : Text
routing_key_order_placed = text "order.placed"

-- AGGREGATE_ORDER
abbrev pub aggregate_order : Text
aggregate_order = text "Order"

module _ (conv : Conversions) where
  -- `orderPlacedEventId`
  unfoldable pub order_placed_event_id : ℕ → Text
  order_placed_event_id order_id = text "order-placed:" ++ conv.string order_id

  -- `buildOrderPlacedEvent`; the items are copied field by field.
  unfoldable pub build_order_placed_event : OrderPlacedData → ℕ → OrderPlacedEvent
  build_order_placed_event input occurred_at = record {
    event_id = order_placed_event_id input.order_id;
    type = routing_key_order_placed;
    occurred_at = occurred_at;
    body = record {
      order_id = input.order_id;
      customer_email = input.customer_email;
      total_cents = input.total_cents;
      currency = input.currency;
      items = map (λ i. record { product_id = i.product_id; quantity = i.quantity }) input.items;
    };
  }

  pub string-injective : (m n : ℕ) → conv.string m ≡ conv.string n → m ≡ n
  string-injective m n e =
      let p : nat m ≡ nat n =
        sym (conv.number-string m) ∙ ap conv.number e ∙ conv.number-string n in
      cc

  -- Two orders never share an event id, so a repeated id is a repeated order.
  pub order_placed_event_id-injective :
      (m n : ℕ) → order_placed_event_id m ≡ order_placed_event_id n → m ≡ n
  unfolding order_placed_event_id
  order_placed_event_id-injective m n e = string-injective m n (cc)
