-- ===== src/Products/Cards/Wait.antt =====
-- How long a request for a card waits for the process that holds the lock.
use marketplace_api.Prelude.{
  Bool, Bool-cases, Conversions, Option, Text, arith, false, inl, inr, ltb, refl, some, suc, true,
  zero, ℕ, ◌*◌, ◌+◌, ◌≡◌, ◌≤◌,
}
use marketplace_api.Products.Cards.{
  Others, Answered, Attempt, CardWorld, poll, hit_or, load_and_store, wait_for_card, get_card,
  taken, try_lock, load_on_miss, with_lock, unreachable, busy,
}
use marketplace_api.Cache.Values.{CacheLookup, hit, miss}
use marketplace_api.Products.Card.{ProductCard, lock_poll_ms}
use marketplace_api.Store.Tx.{ok}

module _ (conv : Conversions) (o : Others) (draw : ℕ) (token : Text) (i : ℕ) where
  abbrev IsAnswered : Option Answered → Type 0
  IsAnswered r = (a : Answered) × (r ≡ some a)

  hit_or-IsAnswered :
      (l : CacheLookup (Option ProductCard)) (w : CardWorld) (rest : Option Answered)
      → IsAnswered rest
      → IsAnswered (hit_or conv o draw token i l w rest)
  hit_or-IsAnswered (hit v) w rest h = ((ok v, w), refl)
  hit_or-IsAnswered miss w rest h = h

  poll-IsAnswered :
      (t : Attempt) (w : CardWorld) (rest : Option Answered)
      → IsAnswered rest
      → IsAnswered (poll conv o draw token i t w rest)
  poll-IsAnswered unreachable w rest h = (load_and_store conv o draw token i w, refl)
  poll-IsAnswered (taken w') w rest h = (with_lock conv o draw token i w', refl)
  poll-IsAnswered busy w rest h = hit_or-IsAnswered _ _ rest h

  module _ (advances : (w : CardWorld) → w.now + lock_poll_ms ≤ (o.between_polls w).now) where
    wait_for_card-IsAnswered :
        (polls deadline : ℕ) (w : CardWorld)
        → deadline ≤ w.now + polls * lock_poll_ms
        → IsAnswered (wait_for_card conv o draw token i (suc polls) deadline w)
    unfolding wait_for_card
    wait_for_card-IsAnswered zero deadline w h =
        let late : ltb w.now deadline ≡ false = ground arith in
        rw late (load_and_store conv o draw token i w, refl)
    wait_for_card-IsAnswered (suc polls) deadline w h = elim (Bool-cases (ltb w.now deadline)) [
      | inr late ↦ rw late (load_and_store conv o draw token i w, refl)
      | inl early ↦
          let later = advances w in
          rw early (
            poll-IsAnswered (try_lock conv o draw token i w) w _
              (wait_for_card-IsAnswered polls deadline (o.between_polls w) (omega (arith, later))))
    ]

    -- A request for a card is answered after 81 polls at most, whatever other processes do to the
    -- lock and to the cache, if each pause takes the 25 ms that it asks for.
    pub get_card-ends :
        (single_flight : Bool) (w : CardWorld)
        → (a : Answered) × (get_card conv o draw token i single_flight 81 w ≡ some a)
    unfolding get_card load_on_miss
    get_card-ends false w = hit_or-IsAnswered _ w _ (load_and_store conv o draw token i w, refl)
    get_card-ends true w =
        hit_or-IsAnswered _ w _ (wait_for_card-IsAnswered 80 (w.now + 2000) w (omega arith))
