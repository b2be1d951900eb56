-- ===== src/System/Sound.antt =====
-- What is true of the tables and of the broker at every time.
use marketplace_api.Prelude.{
  All, Bool-cases, Conversions, List, [], arith, false, inl, inr, nat, refl, sym, text_eq-ne,
  text_eq_refl, true, ℕ, ◌<◌, ◌==◌, ◌∙◌, ◌∷◌, ◌≡◌, Bool, Number, ap, fraction, nan, negative,
  text_eq,
}
use marketplace_api.Store.{
  Order, Db, Product, OrderPlacedEvent, ProcessedOrderEvent, User, order_placed_event_id,
  routing_key_order_placed, order_placed_event_id-injective,
}
use marketplace_api.System.{System, new_system}
use marketplace_api.Messaging.Inbox.{IsInbox}
use marketplace_api.Sql.{contains, affected}
use marketplace_api.System.Stage.{is_for}
use marketplace_api.Orders.Read.{has_order_id}
use marketplace_api.Messaging.Consumer.{has_event_id}
use mathlib.Core.Path.{subst}

module _ (conv : Conversions) where
  -- The message is that of an order in the table.
  abbrev pub IsMessage : List Order → OrderPlacedEvent → Type 0
  IsMessage os e =
      (e.event_id ≡ order_placed_event_id conv e.body.order_id)
      × (e.type ≡ routing_key_order_placed)
      × (contains (has_order_id e.body.order_id) os ≡ true)

  -- The effect is that of an order in the table, under the id of its message.
  abbrev pub IsEffect : List Order → ProcessedOrderEvent → Type 0
  IsEffect os r =
      (n : ℕ) × (r.order_id ≡ nat n)
      × (r.event_id ≡ order_placed_event_id conv n)
      × (contains (has_order_id n) os ≡ true)

  pub record IsSound (s : System) : Type 0 where
    pub outbox : All (λ r. IsMessage s.db.orders r.payload) s.db.outbox
    pub messages : All (IsMessage s.db.orders) s.messages
    pub effects : All (IsEffect s.db.orders) s.db.processed_order_events
    pub inbox : IsInbox s.db
    pub ids : All (λ o. o.id < s.db.next_order_id) s.db.orders

  pub IsInbox-same :
      (db d : Db)
      → d.processed_order_events ≡ db.processed_order_events
      → d.processed_messages ≡ db.processed_messages
      → IsInbox db
      → IsInbox d
  IsInbox-same db d es ms h = record {
    once = λ i. rw es (h.once i);
    marked = λ i. rw (es, ms) (h.marked i);
  }

  same_number :
      (n i : ℕ) → (n == i) ≡ text_eq (order_placed_event_id conv n) (order_placed_event_id conv i)
  same_number n i = elim (Bool-cases (n == i)) [
    | inl e ↦
        let same : i ≡ n = ground arith in
        subst
          (λ j. (n == j) ≡ text_eq (order_placed_event_id conv n) (order_placed_event_id conv j))
          (sym same) (ground (arith, text_eq_refl (order_placed_event_id conv n)))
    | inr e ↦
        e
        ∙ sym (text_eq-ne _ _ (λ h. ground (arith, e, order_placed_event_id-injective conv n i h)))
  ]

  abbrev for_number : ℕ → Number → Bool
  for_number i x = elim x [ nat n ↦ n == i | nan ↦ false | fraction ↦ false | negative n ↦ false ]

  -- An effect for an order is an effect under its message's id.
  has-for :
      (os : List Order) (i : ℕ) (r : ProcessedOrderEvent)
      → IsEffect os r
      → is_for i r ≡ has_event_id (order_placed_event_id conv i) r
  has-for os i r (n, p, q, c) =
      ap (for_number i) p
      ∙ same_number n i
      ∙ ap (λ t. text_eq t (order_placed_event_id conv i)) (sym q)

  pub effects_of-has :
      (os : List Order) (i : ℕ) (rs : List ProcessedOrderEvent)
      → All (IsEffect os) rs
      → affected (is_for i) rs ≡ affected (has_event_id (order_placed_event_id conv i)) rs
  effects_of-has os i [] h = refl
  effects_of-has os i (r ∷ rs) h = ground (arith, has-for os i r h.0, effects_of-has os i rs h.1)

  -- No effect without its order.
  pub effects_of-absent :
      (os : List Order) (i : ℕ) (rs : List ProcessedOrderEvent)
      → All (IsEffect os) rs
      → contains (has_order_id i) os ≡ false
      → affected (is_for i) rs ≡ 0
  effects_of-absent os i [] h a = refl
  effects_of-absent os i (r ∷ rs) ((n, p, q, c), h) a = elim (Bool-cases (n == i)) [
    | inl e ↦ let same : n ≡ i = ground arith in absurd (cc)
    | inr e ↦ rw (p, e) (effects_of-absent os i rs h a)
  ]

  pub fresh-id :
      (n : ℕ) (os : List Order) → All (λ o. o.id < n) os → contains (has_order_id n) os ≡ false
  fresh-id n [] h = refl
  fresh-id n (o ∷ os) h = ground (arith, fresh-id n os h.1, h.0)

  pub new_system-IsSound :
      (products : List Product) (users : List User) → IsSound (new_system products users)
  new_system-IsSound products users = record {
    outbox = tt;
    messages = tt;
    effects = tt;
    inbox = record { once = λ i. omega arith; marked = λ i h. absurd (cc) };
    ids = tt;
  }
