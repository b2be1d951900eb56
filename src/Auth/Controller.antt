-- ===== src/Auth/Controller.antt =====
-- The routes of src/auth/auth.controller.ts, behind the global guards, with the limiter of logins
-- that src/auth/auth.module.ts sets up. PostgreSQL, Redis and Node.js read one clock.
-- The route `refresh` is public and only calls the service.
mod Tests
pub mod LoggedOut
pub mod Limited
pub mod Throttled
use marketplace_api.RateLimit.Adapters.{throttle, login_id}
use marketplace_api.RateLimit.Window.{LimitResult, consume}
use marketplace_api.Prelude.{
  Bool, List, Text, [], false, if◌then◌else◌, none, some, text_eq, true, ℕ, ◌/◌, ◌∷◌,
}
use marketplace_api.Auth.Service.{AuthState, Drawn, Crypto, refresh, TokenPair, logout, login}
use marketplace_api.Store.Tx.{Result, err, ok, internal_error, too_many_requests}
use marketplace_api.Auth.Guards.{Verdict, admit}
use marketplace_api.Auth.Constants.{login_attempt_window_ms, login_attempt_limit}
use marketplace_api.Auth.Tokens.{Jwt, KeyStore}

-- The service's tables and denylist, and the limiter's sets of calls, by id.
pub record AuthDesk : Type 0 where
  pub auth : AuthState
  pub scores : Text → List ℕ

-- One call of the route `login`, at a time in milliseconds.
pub record LoginCall : Type 0 where
  pub at_ms : ℕ
  pub redis_up : Bool
  pub ip : Text
  pub email : Text
  pub password : Text
  pub drawn : Drawn

abbrev pub set_scores : Text → List ℕ → (Text → List ℕ) → Text → List ℕ
set_scores id xs scores k = if text_eq k id then xs else scores k

-- The limiter of logins, on the set of one id.
abbrev pub login_limiter : Bool → ℕ → List ℕ → Result LimitResult × List ℕ
login_limiter redis_up now_ms scores =
    consume false login_attempt_window_ms login_attempt_limit redis_up now_ms scores

module _ (crypto : Crypto) (email_hash : Text → Text) where
  abbrev pub call_id : LoginCall → Text
  call_id c = login_id email_hash c.ip c.email

  -- The service is asked only where the throttle allows the call.
  unfoldable pub if_allowed :
      LoginCall → AuthDesk → Result LimitResult → Result TokenPair × AuthDesk
  if_allowed c d (err e) = (err e, d)
  if_allowed c d (ok r) =
      let (answer, auth') = login crypto (c.at_ms / 1000) c.drawn c.email c.password d.auth in
      if r.allowed then (answer, record d { auth = auth' }) else (err too_many_requests, d)

  -- `login`
  unfoldable pub post_login : LoginCall → AuthDesk → Result TokenPair × AuthDesk
  unfolding throttle if_allowed
  post_login c d =
      let limited : Text → Result LimitResult × List ℕ =
        λ id. login_limiter c.redis_up c.at_ms (d.scores id) in
      if_allowed c (record d { scores = set_scores (call_id c) (limited (call_id c)).1 d.scores })
        (throttle (λ id. (limited id).0) email_hash c.ip c.email)

  -- Calls of the route one after another, each with its answer.
  unfoldable pub post_logins :
      List LoginCall → AuthDesk → List (LoginCall × Result TokenPair) × AuthDesk
  unfolding post_login
  post_logins [] d = ([], d)
  post_logins (c ∷ cs) d =
      let (answer, d') = post_login c d in
      let (answers, d'') = post_logins cs d' in ((c, answer) ∷ answers, d'')

-- `logout` with the principal that the guards attached
abbrev pub logout_admitted : ℕ → Verdict → AuthState → Result (Unit {0}) × AuthState
logout_admitted now_ms (err e) s = (err e, s)
logout_admitted now_ms (ok none) s = (err internal_error, s)
logout_admitted now_ms (ok (some p)) s = logout now_ms p s

-- `logout`
unfoldable pub post_logout :
    {Key : Type 0} → Jwt Key → KeyStore Key → ℕ → Text → AuthState → Result (Unit {0}) × AuthState
unfolding admit logout
post_logout jwt ks now_ms authorization s =
    logout_admitted now_ms
      (admit jwt ks now_ms s.denylist s.db (record {
        is_http = true;
        is_public = false;
        required_roles = [];
        authorization = authorization;
      }))
      s
