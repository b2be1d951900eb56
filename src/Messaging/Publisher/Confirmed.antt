-- ===== src/Messaging/Publisher/Confirmed.antt =====
-- When a publication succeeds.
use marketplace_api.Prelude.{
  Bool-cases, List, Text, [], arith, false, inl, inr, refl, text_eq, true, ◌∷◌, ◌≡◌, none, sym,
  text_eq→eq, ◌&&◌, ◌||◌, ◌≢◌, Bool, Option, not, some, ap, if◌then◌else◌, ◌∙◌,
}
use marketplace_api.Messaging.Publisher.{
  Turn, is_id, without_id, add_returned, Publisher, get_channel, confirm, PublishError, publish,
  unroutable, published, publish_on, not_published, check_returned, unconfirmed, PublishResult,
  unreachable, missing_exchange,
}
use marketplace_api.Sql.{contains}
use mathlib.Core.Path.{subst}
use marketplace_api.Store.{OrderPlacedEvent}

abbrev pub clear_turn : Turn
clear_turn = record {
  accepts = true;
  has_exchange = true;
  returns = [];
  confirms = true;
  closes = false;
}

without_id-free : (i : Text) (known : List Text) → contains (is_id i) (without_id i known) ≡ false
without_id-free i [] = refl
without_id-free i (r ∷ rs) = ground (arith, without_id-free i rs)

add_returned-adds :
    (i : Text) (rs known : List Text)
    → i ≢ []
    → contains (is_id i) rs ≡ true
    → contains (is_id i) (add_returned rs known) ≡ true
add_returned-adds i [] known n h = absurd (cc)
add_returned-adds i ([] ∷ rs) known n h = elim (Bool-cases (text_eq [] i)) [
  | inl e ↦ absurd (n (sym (text_eq→eq [] i e)))
  | inr e ↦ add_returned-adds i rs known n (ground (arith, e, h))
]
add_returned-adds i ((d ∷ ds) ∷ rs) known n h =
    let rest = add_returned rs known in
    elim (Bool-cases (contains (is_id (d ∷ ds)) rest)) [
      | inl old ↦ elim (Bool-cases (text_eq (d ∷ ds) i)) [
        | inl e ↦ rw old (subst (λ j. contains (is_id j) rest ≡ true) (text_eq→eq (d ∷ ds) i e) old)
        | inr e ↦ rw old (add_returned-adds i rs known n (ground (arith, e, h)))
      ]
      | inr new ↦ elim (Bool-cases (text_eq (d ∷ ds) i)) [
        | inl e ↦ rw new (ground (arith, e))
        | inr e ↦ rw new (ground (arith, e, add_returned-adds i rs known n (ground (arith, e, h))))
      ]
    ]

-- What a successful publication met.
pub record Confirmed (t : Turn) (event : OrderPlacedEvent) (p : Publisher) : Type 0 where
  pub channel : p.is_open || (t.accepts && t.has_exchange) ≡ true
  pub confirmed : t.confirms ≡ true
  pub routed : contains (is_id event.event_id) t.returns ≡ false

channel-open :
    (t : Turn) (p p' : Publisher)
    → get_channel t p ≡ (none, p')
    → (p.is_open || (t.accepts && t.has_exchange) ≡ true) × (p'.returned ≡ p.returned)
channel-open t p p' h = elim (Bool-cases p.is_open) [
  | inl e ↦ ground (arith, e, h)
  | inr e ↦ elim (Bool-cases t.accepts) [
    | inr a ↦ absurd (ground (arith, e, a, h))
    | inl a ↦ elim (Bool-cases t.has_exchange) [
      | inr x ↦ absurd (ground (arith, e, a, x, h))
      | inl x ↦ ground (arith, e, a, x, h)
    ]
  ]
]

confirm-Confirmed :
    (t : Turn) (event : OrderPlacedEvent) (p p' : Publisher)
    → event.event_id ≢ []
    → (p.is_open || (t.accepts && t.has_exchange) ≡ true)
    → (confirm t event.event_id p').0 ≡ published
    → Confirmed t event p
confirm-Confirmed t event p p' n channel h =
    let i = event.event_id in
    let all = add_returned t.returns p'.returned in
    elim (Bool-cases t.confirms) [
      | inr e ↦ absurd (ground (arith, e, h))
      | inl e ↦ elim (Bool-cases (contains (is_id i) all)) [
        | inl back ↦ absurd (ground (arith, e, back, h))
        | inr free ↦ elim (Bool-cases (contains (is_id i) t.returns)) [
          | inl now ↦ absurd (ground (arith, free, add_returned-adds i t.returns p'.returned n now))
          | inr routed ↦ record { channel = channel; confirmed = e; routed = routed }
        ]
      ]
    ]

publish_on-Confirmed :
    (t : Turn) (event : OrderPlacedEvent) (p : Publisher) (g : Option PublishError × Publisher)
    → event.event_id ≢ []
    → get_channel t p ≡ g
    → (publish_on t event.event_id g).0 ≡ published
    → Confirmed t event p
publish_on-Confirmed t event p (some e, p') n eq h = absurd (cc)
publish_on-Confirmed t event p (none, p') n eq h =
    confirm-Confirmed t event p p' n (channel-open t p p' eq).0 h

-- A publisher that does not hold the id publishes in a clear turn.
clear-published :
    (event : OrderPlacedEvent) (open' : Bool) (known : List Text)
    → contains (is_id event.event_id) known ≡ false
    → (publish clear_turn event (record { is_open = open'; returned = known })).0 ≡ published
unfolding publish
clear-published event true known h = ground (arith, h)
clear-published event false known h = ground (arith, h)

unroutable-clear :
    (t : Turn) (event : OrderPlacedEvent) (g : Option PublishError × Publisher)
    → ((p : Publisher) → g ≢ (some unroutable, p))
    → (publish_on t event.event_id g).0 ≡ not_published unroutable
    → (publish clear_turn event (publish_on t event.event_id g).1).0 ≡ published
unroutable-clear t event (some unroutable, p) n h = absurd (n p refl)
unroutable-clear t event (some unreachable, p) n h = absurd (cc)
unroutable-clear t event (some missing_exchange, p) n h = absurd (cc)
unroutable-clear t event (some unconfirmed, p) n h = absurd (cc)
unroutable-clear t event (none, p) n h =
    let i = event.event_id in
    let all = add_returned t.returns p.returned in
    elim (Bool-cases t.confirms) [
      | inr e ↦ absurd (ground (arith, e, h))
      | inl e ↦ elim (Bool-cases (contains (is_id i) all)) [
        | inr free ↦ absurd (ground (arith, e, free, h))
        | inl back ↦
            let after : Publisher = record { is_open = not t.closes; returned = all } in
            let gone : Publisher = record after { returned = without_id i all } in
            let refused : confirm t i p ≡ (not_published unroutable, gone) =
              ap (λ b. if b then check_returned i after else (not_published unconfirmed, after)) e
              ∙ ap (λ b. if b then (not_published unroutable, gone) else (published, after)) back in
            subst (λ (r : PublishResult × Publisher). (publish clear_turn event r.1).0 ≡ published)
              (sym refused)
              (clear-published event (not t.closes) (without_id i all) (without_id-free i all))
      ]
    ]

no_channel-kind : (t : Turn) (p q : Publisher) → get_channel t p ≢ (some unroutable, q)
no_channel-kind t p q h = elim (Bool-cases p.is_open) [
  | inl e ↦ ground (arith, e, h)
  | inr e ↦ elim (Bool-cases t.accepts) [
    | inr a ↦ ground (arith, e, a, h)
    | inl a ↦ elim (Bool-cases t.has_exchange) [
      | inr x ↦ ground (arith, e, a, x, h)
      | inl x ↦ ground (arith, e, a, x, h)
    ]
  ]
]

-- An event with an id counts as published only if a channel was open or could be opened, the broker
-- has confirmed the event, and has not returned it. After a publication that was refused because the
-- broker has confirmed and returned the event, the next publication of it succeeds if the broker
-- then confirms it and returns nothing.
pub publish-Confirmed :
    (t : Turn) (event : OrderPlacedEvent) (p : Publisher)
    → event.event_id ≢ []
    → ((publish t event p).0 ≡ published → Confirmed t event p)
      × ((publish t event p).0 ≡ not_published unroutable
          → (publish clear_turn event (publish t event p).1).0 ≡ published)
unfolding publish
publish-Confirmed t event p n = (
  publish_on-Confirmed t event p (get_channel t p) n refl,
  unroutable-clear t event (get_channel t p) (no_channel-kind t p),
)
