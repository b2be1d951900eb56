-- ===== src/Redis.antt =====
-- What the code uses of Redis: keys with an expiry time. A command may also fail; the callers
-- take that as an argument.
use marketplace_api.Prelude.{
  Bool, Option, Text, false, if◌then◌else◌, ltb, none, some, text_eq, ℕ, ◌+◌,
}

-- A value and the time in milliseconds from which the key is gone.
pub record Entry (V : Type 0) : Type 0 where
  pub value : V
  pub until : ℕ

abbrev pub Redis : Type 0 → Type 0
Redis V = Text → Option (Entry V)

module _ {V : Type 0} where
  -- The value of an entry, unless its time is over.
  abbrev pub live_value : ℕ → Option (Entry V) → Option V
  live_value now none = none
  live_value now (some e) = if ltb now e.until then some e.value else none

  -- GET at a time
  abbrev pub get : ℕ → Text → Redis V → Option V
  get now k s = live_value now (s k)

  -- EXISTS of one key
  abbrev pub exists : ℕ → Text → Redis V → Bool
  exists now k s = elim (s k) [ none ↦ false | some e ↦ ltb now e.until ]

  -- SET k v PX ttl_ms, at a time
  abbrev pub set : ℕ → Text → V → ℕ → Redis V → Redis V
  set now k v ttl_ms s =
      λ j. if text_eq j k then some (record { value = v; until = now + ttl_ms }) else s j

  -- DEL
  abbrev pub del : Text → Redis V → Redis V
  del k s = λ j. if text_eq j k then none else s j
