-- ===== src/Cache/Values.antt =====
-- src/cache/redis-cache.ts. A call that does not reach Redis is a miss or changes nothing; what Redis
-- keeps is still there when it answers again. `none` as a stored value is a text that JSON.parse
-- rejects.
pub mod Laws
use marketplace_api.Prelude.{Bool, Option, Text, if◌then◌else◌, none, some, ℕ, ◌*◌}
use marketplace_api.Redis.{Redis, get, set, del}

-- `CacheLookup`
pub data CacheLookup (V : Type 0) : Type 0 where
  hit : V → CacheLookup V
  miss : CacheLookup V

-- Redis, and whether it answers.
pub record Cached (V : Type 0) : Type 0 where
  pub answers : Bool
  pub keys : Redis (Option V)

module _ {V : Type 0} where
  abbrev pub found : Option (Option V) → CacheLookup V
  found none = miss
  found (some none) = miss
  found (some (some v)) = hit v

  -- What is kept under a key, to be given out when Redis answers.
  unfoldable pub cache_kept : ℕ → Text → Cached V → CacheLookup V
  cache_kept now key c = found (get now key c.keys)

  -- `get`
  unfoldable pub cache_get : ℕ → Text → Cached V → CacheLookup V
  unfolding cache_kept
  cache_get now key c = if c.answers then cache_kept now key c else miss

  -- `set`
  unfoldable pub cache_set : ℕ → Text → V → ℕ → Cached V → Cached V
  cache_set now key v ttl_sec c =
      if c.answers then record c { keys = set now key (some v) (ttl_sec * 1000) c.keys } else c

  -- `del`
  unfoldable pub cache_del : Text → Cached V → Cached V
  cache_del key c = if c.answers then record c { keys = del key c.keys } else c
