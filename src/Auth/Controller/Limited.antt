-- ===== src/Auth/Controller/Limited.antt =====
-- One call of the route `login`, against the limiter.
use marketplace_api.Prelude.{
  Bool, List, Text, [], false, if◌then◌else◌, text_eq, true, ℕ, ◌&&◌, ◌+◌, ◌∷◌, ◌≡◌, ◌≤◌,
  Bool-cases, arith, inl, inr, refl,
}
use marketplace_api.Store.Tx.{Result, err, too_many_requests, service_unavailable, ok}
use marketplace_api.Auth.Controller.{
  LoginCall, call_id, post_login, if_allowed, AuthDesk, login_limiter, set_scores,
}
use marketplace_api.Auth.Service.{Crypto, TokenPair}
use marketplace_api.RateLimit.Bound.{within, logged}
use marketplace_api.RateLimit.Adapters.{throttle, closed}
use marketplace_api.Auth.Constants.{login_attempt_window_ms}
use marketplace_api.RateLimit.Window.{LimitResult, consume}
use marketplace_api.Sql.{affected}

-- The throttle let the call through to the service.
abbrev pub reached_service : Result TokenPair → Bool
reached_service (err too_many_requests) = false
reached_service (err service_unavailable) = false
reached_service _ = true

-- A call under an id, within a window, that reached the service.
abbrev pub tried : (LoginCall → Text) → Text → ℕ → LoginCall × Result TokenPair → Bool
tried id_of id start (c, answer) =
    (text_eq id (id_of c) && within start login_attempt_window_ms c.at_ms) && reached_service answer

abbrev pub times : List LoginCall → List ℕ
times [] = []
times (c ∷ cs) = c.at_ms ∷ times cs

-- The limiter allowed the call.
abbrev pub is_allowed : Result LimitResult → Bool
is_allowed (ok r) = r.allowed
is_allowed (err e) = false

logged-is_allowed :
    (start window now : ℕ) (r : Result LimitResult) (log : List ℕ)
    → affected (within start window) (logged now r log)
      ≡ affected (within start window) log
        + (if is_allowed r && within start window now then 1 else 0)
logged-is_allowed start window now (ok r) log = ground arith
logged-is_allowed start window now (err e) log = omega arith

module _ (crypto : Crypto) (email_hash : Text → Text) where
  if_allowed-scores :
      (c : LoginCall) (d : AuthDesk) (v : Result LimitResult)
      → (if_allowed crypto email_hash c d v).1.scores ≡ d.scores
  unfolding if_allowed
  if_allowed-scores c d (ok r) = ground arith
  if_allowed-scores c d (err e) = refl

  if_allowed-reached_service :
      (c : LoginCall) (d : AuthDesk) (r : Result LimitResult)
      → is_allowed r ≡ false
      → reached_service (if_allowed crypto email_hash c d (closed r)).0 ≡ false
  unfolding if_allowed
  if_allowed-reached_service c d (ok r) h = ground (arith, h)
  if_allowed-reached_service c d (err e) h = refl

  -- The limiter's answer to a call, and the sets after it.
  abbrev pub limited : LoginCall → AuthDesk → Result LimitResult × List ℕ
  limited c d = login_limiter c.redis_up c.at_ms (d.scores (call_id crypto email_hash c))

  pub post_login-scores :
      (c : LoginCall) (d : AuthDesk)
      → (post_login crypto email_hash c d).1.scores
        ≡ set_scores (call_id crypto email_hash c) (limited c d).1 d.scores
  unfolding post_login
  post_login-scores c d = if_allowed-scores c _ _

  pub post_login-refused :
      (c : LoginCall) (d : AuthDesk)
      → is_allowed (limited c d).0 ≡ false
      → reached_service (post_login crypto email_hash c d).0 ≡ false
  unfolding post_login throttle
  post_login-refused c d h = if_allowed-reached_service c _ _ h

  -- What a call adds to the tries under an id.
  abbrev pub gain : Text → ℕ → LoginCall → AuthDesk → ℕ
  gain id start c d =
      if tried (call_id crypto email_hash) id start (c, (post_login crypto email_hash c d).0)
      then 1
      else 0

  -- A call adds to the tries under its id at most what it adds to the log of the limiter.
  pub gain-logged :
      (id : Text) (c : LoginCall) (d : AuthDesk) (start : ℕ) (log : List ℕ)
      → affected (within start login_attempt_window_ms) log + gain id start c d
        ≤ affected (within start login_attempt_window_ms) (logged c.at_ms (limited c d).0 log)
  gain-logged id c d start log =
      rw (logged-is_allowed start login_attempt_window_ms c.at_ms (limited c d).0 log)
        (elim (Bool-cases (is_allowed (limited c d).0)) [
          | inl y ↦ ground (arith, y)
          | inr n ↦ ground (arith, n, post_login-refused c d n)
        ])

-- Without Redis the limiter of logins allows nothing and keeps its sets.
pub login_limiter-down :
    (now : ℕ) (xs : List ℕ)
    → (is_allowed (login_limiter false now xs).0 ≡ false) × ((login_limiter false now xs).1 ≡ xs)
unfolding consume
login_limiter-down now xs = (refl, refl)
