-- ===== src/Products/Cards/Tests.antt =====
-- A shop with one product and an empty cache, whose other processes only let time pass.
use marketplace_api.Prelude.{
  Text-discrete, [], arith, none, refl, some, text, true, unary, ◌+◌, ◌∷◌, ◌≡◌, tally,
}
use marketplace_api.Store.{Product, empty_db}
use marketplace_api.Products.Cards.{
  CardWorld, Others, Answered, get_card, load_on_miss, wait_for_card, get_card_uncached, with_lock,
  load_and_store,
}
use marketplace_api.Products.Cards.Fresh.{Considerate, IsFresh, get_card-get_card_uncached}
use marketplace_api.Cache.Values.{cache_get, cache_set}
use marketplace_api.Products.Card.{
  ProductCard, card_of, card_key, card_lock_key, load_card, lock_ttl_ms,
}
use marketplace_api.Products.Cards.Wait.{get_card-ends}
use marketplace_api.Store.Tx.{ok}
use marketplace_api.Cache.Lock.{release, acquire}
use marketplace_api.Products.Controller.{get_product_card}
use marketplace_api.Products.Controller.Shown.{Card, get_product_card-Card}

abbrev lamp : Product
lamp = record { id = 3; name = text "lamp"; price_cents = 50; stock = 9; currency = text "UAH" }

abbrev world : CardWorld
world = record {
  now = 7;
  db = record empty_db { products = lamp ∷ [] };
  cache = record { answers = true; keys = λ k. none };
  locks = some (λ k. none);
}

abbrev idle : Others
idle = record { between_polls = λ w. record w { now = w.now + 25 }; during_load = λ w. w }

idle-Considerate : Considerate unary idle
idle-Considerate = record {
  polls = λ w f later i v le h. f later i v (omega (arith, le)) h;
  loads = λ w f. f;
  quiet = λ w. refl;
}

world-IsFresh : IsFresh unary world
unfolding cache_get
world-IsFresh later i v le h = absurd (ground (arith, h))

abbrev lamp_card : ProductCard
lamp_card = card_of unary lamp []

abbrev world_after : CardWorld
world_after = record world {
  cache = cache_set 7 (card_key unary 3) (some lamp_card) 310 world.cache;
  locks =
      some
        (release 7 (card_lock_key unary 3) (text "t")
          (acquire 7 (card_lock_key unary 3) (text "t") lock_ttl_ms (λ k. none)).1).1;
}

get_card-ends_example :
    (a : Answered) × (get_card unary idle 10 (text "t") 3 true 81 world ≡ some a)
get_card-ends_example = get_card-ends unary idle 10 (text "t") 3 (λ w. omega arith) true world

loaded_by_one :
    get_card unary idle 10 (text "t") 3 true 81 world ≡ some (ok (some lamp_card), world_after)
unfolding get_card load_on_miss wait_for_card with_lock load_and_store load_card cache_get cache_set
    acquire release card_key card_lock_key unary Text-discrete
loaded_by_one = refl

get_card-get_card_uncached_example :
    IsFresh unary world_after × (ok (some lamp_card) ≡ (get_card_uncached unary 3 world_after).0)
get_card-get_card_uncached_example =
    get_card-get_card_uncached unary idle idle-Considerate 10 (text "t") 3 true 81 world world_after
      (ok (some lamp_card)) world-IsFresh loaded_by_one

shown_by_one :
    get_product_card unary idle 10 (text "t") (tally 3) true 81 world
    ≡ some (ok lamp_card, world_after)
unfolding get_product_card get_card load_on_miss wait_for_card with_lock load_and_store load_card
    cache_get cache_set acquire release card_key card_lock_key unary Text-discrete
shown_by_one = refl

get_product_card-Card_example : Card unary (tally 3) world_after.db lamp_card
get_product_card-Card_example =
    get_product_card-Card unary idle idle-Considerate 10 (text "t") (tally 3) true 81 world
      world_after lamp_card world-IsFresh shown_by_one
