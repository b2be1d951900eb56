-- ===== src/System/Dead.antt =====
-- The queue of dead letters: a message goes there after it has come back too often.
use marketplace_api.Prelude.{
  List, [], arith, refl, ℕ, ◌∷◌, ◌≡◌, Bool, Bool-cases, Conversions, Option, Option-cases, ap,
  get_elem?, inl, inr, leb, none, some, suc, sym, zero, ◌++◌, ◌<◌, ◌∙◌,
}
use marketplace_api.System.{
  System, Action, count_return, step, run, delivery_limit, deliverable, create_order,
  returned_after, create_order_once, purchase, body_of, clean_up, change_status, relay_pass,
  delivery,
}
use marketplace_api.Messaging.Consumer.{
  Settlement, Hooks, reject_requeue, reject_dead, acknowledge, handle_message,
}
use marketplace_api.Store.{OrderPlacedEvent}
use mathlib.Core.Option.{some-injective}
use mathlib.Core.Path.{subst}

-- A message of the order is among the dead letters.
abbrev pub IsDead : ℕ → System → Type 0
IsDead i s =
    (n : ℕ) × (e : OrderPlacedEvent) × (get_elem? s.messages n ≡ some e)
    × (e.body.order_id ≡ i)
    × (delivery_limit < s.returned n)

-- A message that was not sent has not come back.
abbrev pub IsCounted : System → Type 0
IsCounted s = (n : ℕ) → get_elem? s.messages n ≡ none → s.returned n ≡ 0

module _ {A : Type 0} where
  get_elem?-append :
      (xs ys : List A) (n : ℕ) (a : A) → get_elem? xs n ≡ some a → get_elem? (xs ++ ys) n ≡ some a
  get_elem?-append [] ys n a h = absurd (cc)
  get_elem?-append (x ∷ xs) ys zero a h = h
  get_elem?-append (x ∷ xs) ys (suc n) a h = get_elem?-append xs ys n a h

  absent-append : (xs ys : List A) (n : ℕ) → get_elem? (xs ++ ys) n ≡ none → get_elem? xs n ≡ none
  absent-append xs ys n h = elim (Option-cases (get_elem? xs n)) [
    | inl e ↦ e
    | inr (a, e) ↦ let there = get_elem?-append xs ys n a e in absurd (some-ne-none (sym there ∙ h))
  ]
    where
      some-ne-none : {a : A} → ¬ (some a ≡ none)
      some-ne-none e = absurd (cc)

-- A letter that is dead after a pass of the relay was dead before.
pub appended-IsDead :
    (i : ℕ) (s s' : System) (more : List OrderPlacedEvent)
    → IsCounted s
    → IsDead i (record s' { messages = s.messages ++ more; returned = s.returned })
    → IsDead i s
appended-IsDead i s s' more counted (n, e, at, named, often) =
    elim (Option-cases (get_elem? s.messages n)) [
      | inl absent ↦ absurd (omega (arith, counted n absent, often))
      | inr (f, there) ↦
          let same : f ≡ e =
            some-injective f e (sym (get_elem?-append s.messages more n f there) ∙ at) in
          (n, f, there, ap (λ (x : OrderPlacedEvent). x.body.order_id) same ∙ named, often)
    ]

counted-return :
    (n k : ℕ) (settlement : Settlement) (returned : ℕ → ℕ)
    → ¬ (k ≡ n)
    → count_return n settlement returned k ≡ returned k
counted-return n k reject_requeue returned ne = ground (arith, ne)
counted-return n k reject_dead returned ne = refl
counted-return n k acknowledge returned ne = refl

returned-IsCounted :
    (s : System) (reachable : Bool) (h : Hooks) (n : ℕ) (found : Option OrderPlacedEvent)
    → IsCounted s
    → deliverable s n ≡ found
    → (k : ℕ) → get_elem? s.messages k ≡ none
    → returned_after reachable h found n s.db s.returned k ≡ 0
returned-IsCounted s reachable h n none counted eq k absent = counted k absent
returned-IsCounted s reachable h n (some e) counted eq k absent =
    counted-return n k (handle_message reachable h (some (body_of e)) s.db).0.0 s.returned
      (λ same. there s n e eq (subst (λ m. get_elem? s.messages m ≡ none) same absent))
    ∙ counted k absent
  where
    there :
        (s : System) (n : ℕ) (e : OrderPlacedEvent)
        → deliverable s n ≡ some e
        → ¬ (get_elem? s.messages n ≡ none)
    there s n e eq absent = elim (Bool-cases (leb (s.returned n) delivery_limit)) [
      | inl few ↦ ground (arith, few, eq, absent)
      | inr many ↦ ground (arith, many, eq)
    ]

module _ (conv : Conversions) where
  step-IsCounted : (a : Action) (s : System) → IsCounted s → IsCounted (step conv a s)
  step-IsCounted (create_order now dto user_id) s h = h
  step-IsCounted (create_order_once now dto client_key request_hash user_id) s h = h
  step-IsCounted (purchase now user product quantity) s h = h
  step-IsCounted (clean_up now) s h = h
  step-IsCounted (change_status order_id status) s h = h
  step-IsCounted (relay_pass o w reached) s h =
      λ n absent. h n (absent-append s.messages _ n absent)
  step-IsCounted (delivery reachable hooks n) s h =
      returned-IsCounted s reachable hooks n (deliverable s n) h refl

  pub run-IsCounted :
      (actions : List Action) (s : System) → IsCounted s → IsCounted (run conv actions s)
  run-IsCounted [] s h = h
  run-IsCounted (a ∷ rest) s h = run-IsCounted rest (step conv a s) (step-IsCounted a s h)
