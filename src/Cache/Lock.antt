-- ===== src/Cache/Lock.antt =====
-- src/cache/redis-lock.ts: a lock that only its holder releases and that ends by itself.
-- `acquire`: SET name token PX ttl NX; it throws where Redis cannot be reached.
use marketplace_api.Prelude.{
  Bool, Option, Text, false, if◌then◌else◌, none, some, text_eq, true, ℕ, ◌+◌, ◌<◌, ◌≡◌, ◌≢◌, arith,
  text_eq_refl, text_eq-ne,
}
use marketplace_api.Redis.{Redis, set, get, del}

abbrev pub set_if_free : ℕ → Text → Text → ℕ → Redis Text → Option Text → Option Text × Redis Text
set_if_free now name token ttl_ms s none = (some token, set now name token ttl_ms s)
set_if_free now name token ttl_ms s (some holder) = (none, s)

unfoldable pub acquire : ℕ → Text → Text → ℕ → Redis Text → Option Text × Redis Text
acquire now name token ttl_ms s = set_if_free now name token ttl_ms s (get now name s)

abbrev pub del_if_held : Text → Text → Redis Text → Option Text → Bool × Redis Text
del_if_held name token s none = (false, s)
del_if_held name token s (some holder) =
    if text_eq holder token then (true, del name s) else (false, s)

-- `release`, RELEASE_LUA; a call while Redis cannot be reached returns false.
unfoldable pub release : ℕ → Text → Text → Redis Text → Bool × Redis Text
release now name token s = del_if_held name token s (get now name s)

-- While a lock is held and its time is not over, nobody else acquires it, a release with another
-- token removes nothing, and a release with the holder's token frees it for the next.
acquire-acquire :
    (now later : ℕ) (name token other : Text) (ttl_ms ttl_other : ℕ) (s s' : Redis Text)
    → acquire now name token ttl_ms s ≡ (some token, s')
    → later < now + ttl_ms
    → other ≢ token
    → (acquire later name other ttl_other s' ≡ (none, s'))
      × (release later name other s' ≡ (false, s'))
      × ((release later name token s').0 ≡ true)
      × ((acquire later name other ttl_other (release later name token s').1).0 ≡ some other)
unfolding acquire release
acquire-acquire now later name token other ttl_ms ttl_other s s' h lt ne =
    ground (arith, h, ne, text_eq-ne other token ne, text_eq_refl name)
