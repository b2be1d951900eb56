-- ===== src/Products/Cards.antt =====
-- src/products/product-card.service.ts: a card from the cache, and on a miss from the database, by one
-- process at a time where that can be had. The cache and the lock are keys of one Redis, apart by
-- their prefixes. What other processes do stands in `Others`: between one poll and the next, and
-- while a card is loaded.
mod Tests
pub mod Fresh
pub mod Wait
use marketplace_api.Prelude.{
  Bool, Conversions, Option, Text, if◌then◌else◌, ltb, none, some, suc, zero, ℕ, ◌+◌,
}
use marketplace_api.Store.{Db}
use marketplace_api.Products.Card.{
  ProductCard, card_lock_key, lock_wait_budget_ms, load_card, negative_ttl_sec, card_key,
  lock_ttl_ms, jittered_ttl,
}
use marketplace_api.Store.Tx.{Result, err, ok}
use marketplace_api.Cache.Lock.{release, acquire}
use marketplace_api.Cache.Values.{miss, cache_set, CacheLookup, cache_get, cache_del, hit, Cached}
use marketplace_api.Redis.{Redis}

-- What the service meets: the clock, the tables, and the two parts of Redis. For the locks, `none` is
-- a Redis out of reach.
pub record CardWorld : Type 0 where
  pub now : ℕ
  pub db : Db
  pub cache : Cached (Option ProductCard)
  pub locks : Option (Redis Text)

pub record Others : Type 0 where
  pub between_polls : CardWorld → CardWorld
  pub during_load : CardWorld → CardWorld

abbrev pub ttl_of : ℕ → Option ProductCard → ℕ
ttl_of draw none = negative_ttl_sec
ttl_of draw (some c) = jittered_ttl draw

-- An answer, and the world after it.
abbrev pub Answered : Type 0
Answered = Result (Option ProductCard) × CardWorld

abbrev pub free_lock : Text → Text → CardWorld → CardWorld
free_lock name token w = elim w.locks [
  | none ↦ w
  | some s ↦ record w { locks = some (release w.now name token s).1 }
]

-- What becomes of an attempt to take the lock: it throws, it is taken, or others have it.
pub data Attempt : Type 0 where
  unreachable : Attempt
  taken : CardWorld → Attempt
  busy : Attempt

module _ (conv : Conversions) (o : Others) (draw : ℕ) (token : Text) (i : ℕ) where
  abbrev pub store_card : Result (Option ProductCard) → CardWorld → Answered
  store_card (err e) w = (err e, w)
  store_card (ok fresh) w = (
    ok fresh,
    record w { cache = cache_set w.now (card_key conv i) fresh (ttl_of draw fresh) w.cache },
  )

  -- `loadAndStore`
  unfoldable pub load_and_store : CardWorld → Answered
  unfolding cache_set load_card
  load_and_store w = store_card (load_card conv i w.db) (o.during_load w)

  -- finally { release }
  abbrev pub released : Answered → Answered
  released (r, w) = (r, free_lock (card_lock_key conv i) token w)

  -- The holder of the lock looks again, and loads where there is still no card.
  abbrev pub again_or_load : CacheLookup (Option ProductCard) → CardWorld → Answered
  again_or_load (hit v) w = (ok v, w)
  again_or_load miss w = load_and_store w

  unfoldable pub with_lock : CardWorld → Answered
  unfolding load_and_store
  with_lock w = released (again_or_load (cache_get w.now (card_key conv i) w.cache) w)

  abbrev pub attempted : CardWorld → Redis Text → Option Text × Redis Text → Attempt
  attempted w s (none, s') = busy
  attempted w s (some t, s') = taken (record w { locks = some s' })

  abbrev pub attempt_on : CardWorld → Option (Redis Text) → Attempt
  attempt_on w none = unreachable
  attempt_on w (some s) = attempted w s (acquire w.now (card_lock_key conv i) token lock_ttl_ms s)

  -- `acquire`, which throws where Redis is out of reach
  abbrev pub try_lock : CardWorld → Attempt
  try_lock w = attempt_on w w.locks

  abbrev pub hit_or :
      CacheLookup (Option ProductCard) → CardWorld → Option Answered → Option Answered
  hit_or (hit v) w rest = some (ok v, w)
  hit_or miss w rest = rest

  abbrev pub poll : Attempt → CardWorld → Option Answered → Option Answered
  poll unreachable w rest = some (load_and_store w)
  poll (taken w') w rest = some (with_lock w')
  poll busy w rest =
      let w' = o.between_polls w in hit_or (cache_get w'.now (card_key conv i) w'.cache) w' rest

  -- The loop of `loadOnMiss` up to the deadline; `none` where the polls given do not suffice.
  unfoldable pub wait_for_card : ℕ → ℕ → CardWorld → Option Answered
  unfolding load_and_store with_lock acquire cache_get
  wait_for_card zero deadline w = none
  wait_for_card (suc polls) deadline w =
      let rest = wait_for_card polls deadline (o.between_polls w) in
      if ltb w.now deadline then poll (try_lock w) w rest else some (load_and_store w)

  -- `loadOnMiss`
  unfoldable pub load_on_miss : Bool → ℕ → CardWorld → Option Answered
  unfolding wait_for_card
  load_on_miss single_flight polls w =
      if single_flight
      then wait_for_card polls (w.now + lock_wait_budget_ms) w
      else some (load_and_store w)

  -- `getCard` of a service with a cache and a lock
  unfoldable pub get_card : Bool → ℕ → CardWorld → Option Answered
  unfolding load_on_miss
  get_card single_flight polls w =
      hit_or (cache_get w.now (card_key conv i) w.cache) w (load_on_miss single_flight polls w)

-- `getCard` without Redis
unfoldable pub get_card_uncached : Conversions → ℕ → CardWorld → Answered
get_card_uncached conv i w = (load_card conv i w.db, w)

-- `invalidate`
unfoldable pub invalidate : Conversions → ℕ → CardWorld → CardWorld
invalidate conv i w = record w { cache = cache_del (card_key conv i) w.cache }
