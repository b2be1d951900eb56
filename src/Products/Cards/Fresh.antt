-- ===== src/Products/Cards/Fresh.antt =====
-- What the cache may hold, and what a request gets from it.
use marketplace_api.Prelude.{
  Bool, Bool-cases, Conversions, Option, Option-cases, Text, ap, arith, false, inl, inr, ltb, none,
  refl, some, suc, sym, true, zero, ℕ, ◌∙◌, ◌≡◌, ◌≤◌,
}
use marketplace_api.Products.Cards.{
  CardWorld, Others, ProductCard, Answered, load_and_store, CacheLookup, with_lock, Redis,
  wait_for_card, load_on_miss, get_card, cache_get, load_card, Result, released, poll,
  get_card_uncached, card_key, ok, store_card, attempted, hit, cache_set, err, again_or_load,
  hit_or, attempt_on,
}
use marketplace_api.Cache.Values.Laws.{cache_kept-cache_set, cache_get-hit}
use marketplace_api.Cache.Values.{miss, cache_kept}
use marketplace_api.Products.Card.{card_key-injective}
use mathlib.Core.Path.{subst}
use mathlib.Core.Option.{some-injective}

module _ (conv : Conversions) where
  -- Each card that Redis keeps, to be given out now or later, is the one that the tables give.
  abbrev pub IsFresh : CardWorld → Type 0
  IsFresh w =
      (later i : ℕ) (v : Option ProductCard)
      → w.now ≤ later
      → cache_kept later (card_key conv i) w.cache ≡ hit v
      → load_card conv i w.db ≡ ok v

  -- What the others do keeps the cache fresh, and no row is written while a card is loaded.
  pub record Considerate (o : Others) : Type 0 where
    pub polls : (w : CardWorld) → IsFresh w → IsFresh (o.between_polls w)
    pub loads : (w : CardWorld) → IsFresh w → IsFresh (o.during_load w)
    pub quiet : (w : CardWorld) → (o.during_load w).db ≡ w.db

  set-IsFresh :
      (w : CardWorld) (i ttl : ℕ) (fresh : Option ProductCard)
      → IsFresh w
      → load_card conv i w.db ≡ ok fresh
      → IsFresh (record w { cache = cache_set w.now (card_key conv i) fresh ttl w.cache })
  set-IsFresh w i ttl fresh f l later j v le h =
      elim (cache_kept-cache_set w.now later ttl (card_key conv j) (card_key conv i) fresh v w.cache
        h) [
          | inr before ↦ f later j v le before
          | inl (same, is) ↦
              let e = card_key-injective conv j i same in
              subst (λ k. load_card conv k w.db ≡ ok v) (sym e) (l ∙ ap ok is)
        ]

module _ (conv : Conversions) (o : Others) (c : Considerate conv o) (draw : ℕ) (token : Text)
    (i : ℕ) where
  -- The answer is that of the tables as they are then.
  abbrev IsCurrent : Answered → Type 0
  IsCurrent (r, w) = IsFresh conv w × (r ≡ load_card conv i w.db)

  load_and_store-IsCurrent :
      (w : CardWorld) → IsFresh conv w → IsCurrent (load_and_store conv o draw token i w)
  unfolding load_and_store
  load_and_store-IsCurrent w f =
      stored (load_card conv i w.db) (c.loads w f) (ap (load_card conv i) (c.quiet w))
    where
      stored :
          (r : Result (Option ProductCard))
          → IsFresh conv (o.during_load w)
          → load_card conv i (o.during_load w).db ≡ r
          → IsCurrent (store_card conv o draw token i r (o.during_load w))
      stored (err e) f' l = (f', sym l)
      stored (ok fresh) f' l = (set-IsFresh conv (o.during_load w) i _ fresh f' l, sym l)

  free_lock-IsCurrent : (a : Answered) → IsCurrent a → IsCurrent (released conv o draw token i a)
  free_lock-IsCurrent (r, w) h = elim (Option-cases w.locks) [
    | inl e ↦ rw e h
    | inr (s, e) ↦ rw e h
  ]

  again_or_load-IsCurrent :
      (w : CardWorld) (l : CacheLookup (Option ProductCard))
      → IsFresh conv w
      → cache_get w.now (card_key conv i) w.cache ≡ l
      → IsCurrent (again_or_load conv o draw token i l w)
  again_or_load-IsCurrent w (hit v) f h =
      (f, sym (f w.now i v (omega arith) (cache_get-hit w.now _ v w.cache h)))
  again_or_load-IsCurrent w miss f h = load_and_store-IsCurrent w f

  with_lock-IsCurrent :
      (w : CardWorld) → IsFresh conv w → IsCurrent (with_lock conv o draw token i w)
  unfolding with_lock
  with_lock-IsCurrent w f = free_lock-IsCurrent _ (again_or_load-IsCurrent w _ f refl)

  abbrev AllCurrent : Option Answered → Type 0
  AllCurrent none = Unit
  AllCurrent (some a) = IsCurrent a

  hit_or-AllCurrent :
      (w : CardWorld) (l : CacheLookup (Option ProductCard)) (rest : Option Answered)
      → IsFresh conv w
      → cache_get w.now (card_key conv i) w.cache ≡ l
      → AllCurrent rest
      → AllCurrent (hit_or conv o draw token i l w rest)
  hit_or-AllCurrent w (hit v) rest f h r =
      (f, sym (f w.now i v (omega arith) (cache_get-hit w.now _ v w.cache h)))
  hit_or-AllCurrent w miss rest f h r = r

  attempted-AllCurrent :
      (w : CardWorld) (s : Redis Text) (t : Option Text × Redis Text) (rest : Option Answered)
      → IsFresh conv w
      → AllCurrent rest
      → AllCurrent (poll conv o draw token i (attempted conv o draw token i w s t) w rest)
  attempted-AllCurrent w s (none, s') rest f r =
      hit_or-AllCurrent (o.between_polls w) _ rest (c.polls w f) refl r
  attempted-AllCurrent w s (some t, s') rest f r =
      with_lock-IsCurrent (record w { locks = some s' }) f

  poll-AllCurrent :
      (w : CardWorld) (locks : Option (Redis Text)) (rest : Option Answered)
      → IsFresh conv w
      → AllCurrent rest
      → AllCurrent (poll conv o draw token i (attempt_on conv o draw token i w locks) w rest)
  poll-AllCurrent w none rest f r = load_and_store-IsCurrent w f
  poll-AllCurrent w (some s) rest f r = attempted-AllCurrent w s _ rest f r

  wait_for_card-AllCurrent :
      (polls deadline : ℕ) (w : CardWorld)
      → IsFresh conv w
      → AllCurrent (wait_for_card conv o draw token i polls deadline w)
  unfolding wait_for_card
  wait_for_card-AllCurrent zero deadline w f = tt
  wait_for_card-AllCurrent (suc polls) deadline w f = elim (Bool-cases (ltb w.now deadline)) [
    | inl early ↦ rw early (
        poll-AllCurrent w w.locks _ f
          (wait_for_card-AllCurrent polls deadline (o.between_polls w) (c.polls w f)))
    | inr late ↦ rw late (load_and_store-IsCurrent w f)
  ]

  load_on_miss-AllCurrent :
      (single_flight : Bool) (polls : ℕ) (w : CardWorld)
      → IsFresh conv w
      → AllCurrent (load_on_miss conv o draw token i single_flight polls w)
  unfolding load_on_miss
  load_on_miss-AllCurrent true polls w f = wait_for_card-AllCurrent polls _ w f
  load_on_miss-AllCurrent false polls w f = load_and_store-IsCurrent w f

  IsCurrent-of : (r : Option Answered) (a : Answered) → AllCurrent r → r ≡ some a → IsCurrent a
  IsCurrent-of none a h e = absurd (cc)
  IsCurrent-of (some b) a h e = subst IsCurrent (some-injective b a e) h

  -- With a fresh cache, which the others keep fresh, and no write to the tables while a card is
  -- loaded, the cache and the lock do not show: a request is answered as the service without Redis
  -- answers it when the request ends. The cache is fresh again after it.
  pub get_card-get_card_uncached :
      (single_flight : Bool) (polls : ℕ) (w w' : CardWorld) (r : Result (Option ProductCard))
      → IsFresh conv w
      → get_card conv o draw token i single_flight polls w ≡ some (r, w')
      → IsFresh conv w' × (r ≡ (get_card_uncached conv i w').0)
  unfolding get_card get_card_uncached
  get_card-get_card_uncached single_flight polls w w' r f h =
      IsCurrent-of _ (r, w')
        (hit_or-AllCurrent w _ _ f refl (load_on_miss-AllCurrent single_flight polls w f)) h
