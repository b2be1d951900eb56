-- ===== src/Cache/Values/Laws.antt =====
-- What a cache gives out after a value has been set or removed.
use mathlib.Core.Path.{subst}
use marketplace_api.Prelude.{
  Bool-cases, Option, Text, arith, inl, inr, some, text_eq, text_eq_refl, text_eq→eq, ℕ, ◌≡◌, ◌≢◌,
  ◌⊎◌, if◌then◌else◌, ◌*◌, ◌+◌, true,
}
use marketplace_api.Cache.Values.{
  cache_get, cache_set, cache_del, hit, found, Cached, cache_kept, miss,
}
use marketplace_api.Redis.{Entry, live_value, set}

module _ {V : Type 0} where
  abbrev stored : ℕ → ℕ → V → Entry (Option V)
  stored now ttl v = record { value = some v; until = now + ttl * 1000 }

  was_set :
      (now later ttl : ℕ) (v u : V)
      → found (live_value later (some (stored now ttl v))) ≡ hit u
      → v ≡ u
  was_set now later ttl v u h = ground (arith, h)

  abbrev written : ℕ → ℕ → Text → V → Cached V → Cached V
  written now ttl k v c = record c { keys = set now k (some v) (ttl * 1000) c.keys }

  -- What is given out is kept.
  pub cache_get-hit :
      (now : ℕ) (k : Text) (u : V) (c : Cached V)
      → cache_get now k c ≡ hit u
      → cache_kept now k c ≡ hit u
  unfolding cache_get
  cache_get-hit now k u c h = elim (Bool-cases c.answers) [
    | inl y ↦ ground (arith, y, h)
    | inr down ↦ absurd (ground (arith, down, h))
  ]

  -- What is kept after `set` is the value set, or was kept before.
  pub cache_kept-cache_set :
      (now later ttl : ℕ) (j k : Text) (v u : V) (c : Cached V)
      → cache_kept later j (cache_set now k v ttl c) ≡ hit u
      → ((j ≡ k) × (v ≡ u)) ⊎ (cache_kept later j c ≡ hit u)
  unfolding cache_kept cache_set
  cache_kept-cache_set now later ttl j k v u c h = elim (Bool-cases c.answers) [
    | inr down ↦
        inr
          (subst (λ b. cache_kept later j (if b then written now ttl k v c else c) ≡ hit u) down h)
    | inl up ↦
        let put =
          subst (λ b. cache_kept later j (if b then written now ttl k v c else c) ≡ hit u) up h in
        elim (Bool-cases (text_eq j k)) [
          | inl same ↦ inl (
            text_eq→eq j k same,
            was_set now later ttl v u (
                subst
                  (λ b.
                    found (live_value later (if b then some (stored now ttl v) else c.keys j))
                    ≡ hit u)
                  same put),
          )
          | inr other ↦ inr (
              subst
                (λ b.
                  found (live_value later (if b then some (stored now ttl v) else c.keys j))
                  ≡ hit u)
                other put)
        ]
  ]

  -- After `del`, where Redis answers, nothing is kept under the key, and the other keys are as before.
  pub cache_kept-cache_del :
      (later : ℕ) (j k : Text) (c : Cached V)
      → c.answers ≡ true
      → ((j ≡ k) × (cache_kept later j (cache_del k c) ≡ miss))
        ⊎ ((j ≢ k) × (cache_kept later j (cache_del k c) ≡ cache_kept later j c))
  unfolding cache_kept cache_del
  cache_kept-cache_del later j k c up = elim (Bool-cases (text_eq j k)) [
    | inl same ↦ inl (text_eq→eq j k same, ground (arith, up, same))
    | inr other ↦ inr (λ e. ground (arith, other, e, text_eq_refl k), ground (arith, up, other))
  ]
