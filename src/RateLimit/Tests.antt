-- ===== src/RateLimit/Tests.antt =====
-- Calls with one key, two of them allowed in each 1,000 ms.
use marketplace_api.Prelude.{[], refl, true, ◌∷◌, ◌≡◌}
use marketplace_api.RateLimit.Bound.{serve}

log_of_five : serve true 1000 2 (0 ∷ 10 ∷ 20 ∷ 1005 ∷ 1006 ∷ []) [] [] ≡ 1005 ∷ 10 ∷ 0 ∷ []
unfolding serve
log_of_five = refl
