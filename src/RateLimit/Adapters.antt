-- ===== src/RateLimit/Adapters.antt =====
-- src/ratelimit/rate-limit.guard.ts, src/ratelimit/rate-limit-middleware.ts,
-- src/auth/login-throttle.ts: what becomes of the limiter's answer. Trimming an e-mail and hashing
-- it are an argument.
use marketplace_api.Prelude.{Option, Text, if◌then◌else◌, none, some, text, ℕ, ◌++◌, ◌∷◌}
use marketplace_api.Store.Tx.{Failure, Result, err, ok, service_unavailable}
use marketplace_api.RateLimit.Window.{LimitResult}

-- What a client is told.
pub data Answer : Type 0 where
  pass : Answer
  too_many : ℕ → Answer
  failure : Failure → Answer

abbrev pub answer_of : Result LimitResult → Answer
answer_of (err e) = failure e
answer_of (ok r) = if r.allowed then pass else too_many r.retry_after_sec

-- `RateLimitGuard.canActivate`; without a limiter each request passes.
unfoldable pub rate_limit_guard : Option (Text → Result LimitResult) → Option Text → Answer
rate_limit_guard none ip = pass
rate_limit_guard (some limiter) none = answer_of (limiter (text "unknown"))
rate_limit_guard (some limiter) (some ip) = answer_of (limiter ip)

-- `rateLimitMiddleware`
unfoldable pub rate_limit_middleware :
    {A : Type 0} → (Text → Result LimitResult) → (A → Text) → A → Answer
rate_limit_middleware limiter identify request = answer_of (limiter (identify request))

-- `LoginThrottle.consume`: a limiter that fails refuses the login.
abbrev pub closed : Result LimitResult → Result LimitResult
closed (ok r) = ok r
closed (err e) = err service_unavailable

abbrev pub login_id : (Text → Text) → Text → Text → Text
login_id email_hash ip email = ip ++ b':' ∷ email_hash email

unfoldable pub throttle :
    (Text → Result LimitResult) → (Text → Text) → Text → Text → Result LimitResult
throttle limiter email_hash ip email = closed (limiter (login_id email_hash ip email))
