-- ===== src/Auth/Controller/Throttled.antt =====
-- How often the passwords of one user can be tried from one address.
use marketplace_api.Prelude.{
  Bool, Bool-cases, List, Text, [], ap, arith, false, if◌then◌else◌, inl, inr, refl, sym, text_eq,
  text_eq→eq, true, ℕ, ◌&&◌, ◌+◌, ◌∙◌, ◌∷◌, ◌≡◌, ◌≤◌,
}
use marketplace_api.RateLimit.Bound.{IsForward, serve, within, logged, serve-within}
use marketplace_api.Auth.Service.{Crypto, AuthState}
use marketplace_api.Auth.Controller.{
  LoginCall, post_logins, call_id, AuthDesk, post_login, login_limiter,
}
use marketplace_api.Auth.Controller.Limited.{
  times, limited, tried, post_login-scores, login_limiter-down, gain, post_login-refused,
  gain-logged, is_allowed,
}
use marketplace_api.Sql.{affected}
use marketplace_api.Auth.Constants.{login_attempt_window_ms, login_attempt_limit}
use marketplace_api.RateLimit.Adapters.{login_id}
use mathlib.Core.Path.{subst}

IsForward-mono : (from t : ℕ) (xs : List ℕ) → from ≤ t → IsForward t xs → IsForward from xs
IsForward-mono from t [] le f = tt
IsForward-mono from t (x ∷ xs) le (le', f) = (omega arith, f)

module _ (crypto : Crypto) (email_hash : Text → Text) (id : Text) where
  -- The times of the calls under the id that meet Redis.
  abbrev counted : List LoginCall → List ℕ
  counted [] = []
  counted (c ∷ cs) =
      if text_eq id (call_id crypto email_hash c) && c.redis_up
      then c.at_ms ∷ counted cs
      else counted cs

  counted-IsForward :
      (from : ℕ) (cs : List LoginCall) → IsForward from (times cs) → IsForward from (counted cs)
  counted-IsForward from [] f = tt
  counted-IsForward from (c ∷ cs) (le, f) =
      elim (Bool-cases (text_eq id (call_id crypto email_hash c) && c.redis_up)) [
        | inl y ↦ rw y (le, counted-IsForward c.at_ms cs f)
        | inr n ↦
            rw n (IsForward-mono from c.at_ms (counted cs) le (counted-IsForward c.at_ms cs f))
      ]

  -- A call under the id finds the id's set, and leaves what the limiter makes of it.
  own-limited :
      (c : LoginCall) (d : AuthDesk) (up : Bool)
      → text_eq id (call_id crypto email_hash c) ≡ true
      → c.redis_up ≡ up
      → limited crypto email_hash c d ≡ login_limiter up c.at_ms (d.scores id)
  own-limited c d up h e =
      ap (λ k. login_limiter c.redis_up c.at_ms (d.scores k)) (sym (text_eq→eq id _ h))
      ∙ ap (λ b. login_limiter b c.at_ms (d.scores id)) e

  own-scores :
      (c : LoginCall) (d : AuthDesk) (up : Bool)
      → text_eq id (call_id crypto email_hash c) ≡ true
      → c.redis_up ≡ up
      → (post_login crypto email_hash c d).1.scores id ≡ (login_limiter up c.at_ms (d.scores id)).1
  own-scores c d up h e =
      ap (λ f. f id) (post_login-scores crypto email_hash c d)
      ∙ rw h (ap (λ p. p.1) (own-limited c d up h e))

  other-scores :
      (c : LoginCall) (d : AuthDesk)
      → text_eq id (call_id crypto email_hash c) ≡ false
      → (post_login crypto email_hash c d).1.scores id ≡ d.scores id
  other-scores c d h = ap (λ f. f id) (post_login-scores crypto email_hash c d) ∙ rw h refl

  abbrev tries : ℕ → List LoginCall → AuthDesk → ℕ
  tries start cs d =
      affected (tried (call_id crypto email_hash) id start) (post_logins crypto email_hash cs d).0

  abbrev served : ℕ → List LoginCall → List ℕ → List ℕ → ℕ
  served start cs scores log =
      affected (within start login_attempt_window_ms)
        (serve false login_attempt_window_ms login_attempt_limit (counted cs) scores log)

  tries-cons :
      (start : ℕ) (c : LoginCall) (cs : List LoginCall) (d : AuthDesk)
      → tries start (c ∷ cs) d
        ≡ gain crypto email_hash id start c d + tries start cs (post_login crypto email_hash c d).1
  unfolding post_logins
  tries-cons start c cs d = ground arith

  served-counted :
      (start : ℕ) (c : LoginCall) (cs : List LoginCall) (scores log : List ℕ)
      → text_eq id (call_id crypto email_hash c) ≡ true
      → c.redis_up ≡ true
      → let out = login_limiter true c.at_ms scores in
        served start (c ∷ cs) scores log ≡ served start cs out.1 (logged c.at_ms out.0 log)
  unfolding serve
  served-counted start c cs scores log own up = rw (own, up) refl

  served-uncounted :
      (start : ℕ) (c : LoginCall) (cs : List LoginCall) (scores log : List ℕ)
      → (text_eq id (call_id crypto email_hash c) && c.redis_up) ≡ false
      → served start (c ∷ cs) scores log ≡ served start cs scores log
  served-uncounted start c cs scores log h = rw h refl

  -- The bound for the calls behind one, carried over that one.
  abbrev IsServed : ℕ → List LoginCall → AuthDesk → List ℕ → Type 0
  IsServed start cs d log =
      affected (within start login_attempt_window_ms) log + tries start cs d
      ≤ served start cs (d.scores id) log

  counted-IsServed :
      (start : ℕ) (c : LoginCall) (cs : List LoginCall) (d : AuthDesk) (log : List ℕ)
      → text_eq id (call_id crypto email_hash c) ≡ true
      → c.redis_up ≡ true
      → ((log' : List ℕ) → IsServed start cs (post_login crypto email_hash c d).1 log')
      → IsServed start (c ∷ cs) d log
  counted-IsServed start c cs d log own up behind =
      let out = login_limiter true c.at_ms (d.scores id) in
      let one : affected (within start login_attempt_window_ms) log
            + gain crypto email_hash id start c d
          ≤ affected (within start login_attempt_window_ms) (logged c.at_ms out.0 log) =
        subst
          (λ o.
            affected (within start login_attempt_window_ms) log
              + gain crypto email_hash id start c d
            ≤ affected (within start login_attempt_window_ms) (logged c.at_ms o.0 log))
          (own-limited c d true own up) (gain-logged crypto email_hash id c d start log) in
      rw (served-counted start c cs (d.scores id) log own up, tries-cons start c cs d)
        (omega (
          arith,
          one,
          behind (logged c.at_ms out.0 log),
          ap (λ xs. served start cs xs (logged c.at_ms out.0 log)) (own-scores c d true own up),
        ))

  uncounted-IsServed :
      (start : ℕ) (c : LoginCall) (cs : List LoginCall) (d : AuthDesk) (log : List ℕ)
      → (text_eq id (call_id crypto email_hash c) && c.redis_up) ≡ false
      → (post_login crypto email_hash c d).1.scores id ≡ d.scores id
      → tried (call_id crypto email_hash) id start (c, (post_login crypto email_hash c d).0) ≡ false
      → IsServed start cs (post_login crypto email_hash c d).1 log
      → IsServed start (c ∷ cs) d log
  uncounted-IsServed start c cs d log h same untried behind =
      rw (served-uncounted start c cs (d.scores id) log h, tries-cons start c cs d, untried)
        (omega (arith, behind, ap (λ xs. served start cs xs log) same))

  cs-IsServed :
      (start : ℕ) (cs : List LoginCall) (d : AuthDesk) (log : List ℕ) → IsServed start cs d log
  unfolding post_logins serve
  cs-IsServed start [] d log = omega arith
  cs-IsServed start (c ∷ cs) d log =
      let behind = cs-IsServed start cs (post_login crypto email_hash c d).1 in
      elim (Bool-cases (text_eq id (call_id crypto email_hash c))) [
        | inl own ↦ elim (Bool-cases c.redis_up) [
          | inl up ↦ counted-IsServed start c cs d log own up behind
          | inr down ↦
              let (denied, kept) = login_limiter-down c.at_ms (d.scores id) in
              let refused =
                post_login-refused crypto email_hash c d
                  (ap (λ o. is_allowed o.0) (own-limited c d false own down) ∙ denied) in
              uncounted-IsServed start c cs d log (rw (own, down) refl)
                (own-scores c d false own down ∙ kept) (ground (arith, refused)) (behind log)
        ]
        | inr other ↦
            uncounted-IsServed start c cs d log (rw other refl) (other-scores c d other)
              (rw other refl) (behind log)
      ]

-- For logins at times that do not go back, whatever the answers and whether or not Redis is in
-- reach at each: under one address and hash of an e-mail, at most as many logins as the limit of
-- attempts reach the check of the password in each interval as long as the window. The limiter
-- starts without calls.
pub post_logins-bounded :
    (crypto : Crypto) (email_hash : Text → Text) (ip email : Text) (start : ℕ) (cs : List LoginCall)
    (s : AuthState)
    → IsForward 0 (times cs)
    → affected
        (tried (call_id crypto email_hash) (login_id email_hash ip email) start)
        (post_logins crypto email_hash cs (record { auth = s; scores = λ k. [] })).0
      ≤ login_attempt_limit
post_logins-bounded crypto email_hash ip email start cs s f =
    let id = login_id email_hash ip email in
    let counts =
      cs-IsServed crypto email_hash id start cs (record { auth = s; scores = λ k. [] }) [] in
    let few =
      serve-within false login_attempt_window_ms login_attempt_limit start
        (counted crypto email_hash id cs) (omega arith)
        (counted-IsForward crypto email_hash id 0 cs f) in
    omega (arith, counts, few)
