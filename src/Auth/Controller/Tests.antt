-- ===== src/Auth/Controller/Tests.antt =====
-- One user who logs in, calls and logs out, with tokens that spell their claims.
use marketplace_api.RateLimit.Window.{consume}
use marketplace_api.Prelude.{
  Bool, List, Text, Text-discrete, [], arith, false, map, none, refl, some, text, text_eq, true, ℕ,
  ℕ_discrete, ◌++◌, ◌∷◌, ◌≡◌, ◌≤◌,
}
use marketplace_api.Auth.Service.{
  Crypto, Drawn, AuthState, TokenPair, login, verify_password, build_pair, has_email,
}
use marketplace_api.Store.{User, seller, empty_db}
use marketplace_api.Redis.{Redis}
use marketplace_api.Auth.Guards.{Request, admit, authenticate}
use marketplace_api.Sql.{find, affected}
use marketplace_api.Auth.Denylist.{is_denied}
use marketplace_api.Auth.Tokens.{verification_key}
use marketplace_api.Auth.Controller.{LoginCall, post_logins, post_logout, call_id}
use marketplace_api.Auth.Service.Spelled.{spell, spelled_keys, spelled, spell-IsSigner}
use marketplace_api.Store.Tx.{ok, err, unauthorized, service_unavailable}
use marketplace_api.Auth.Controller.Limited.{tried}
use marketplace_api.Auth.Service.Login.{by_role, signed_principal, login-admit}
use marketplace_api.Auth.RefreshTokens.{in_live_family}
use marketplace_api.RateLimit.Adapters.{login_id}
use marketplace_api.Auth.Constants.{login_attempt_limit}
use marketplace_api.Auth.Controller.LoggedOut.{post_logout-ends}
use marketplace_api.Auth.Controller.Throttled.{post_logins-bounded}

abbrev crypto : Crypto
crypto = record { hash = λ t. t; argon2_verify = λ h p. some (text_eq h p); sign = spell }

abbrev ann : User
ann = record {
  id = 9;
  email = text "ann@x";
  name = text "Ann";
  password_hash = some (text "pw");
  role = seller;
  balance_cents = 0;
}

abbrev drawn : Drawn
drawn = record { refresh_token = text "t"; family_id = text "f"; jti = text "j" }

abbrev nobody_denied : Redis Text
nobody_denied = λ k. none

abbrev start : AuthState
start = record { db = record empty_db { users = ann ∷ [] }; denylist = some nobody_denied }

abbrev handed : TokenPair
handed = build_pair crypto 100 9 seller (text "f") (text "t") drawn

abbrev seller_request : Request
seller_request = record {
  is_http = true;
  is_public = false;
  required_roles = seller ∷ [];
  authorization = text "Bearer " ++ handed.access_token;
}

logged_in : (login crypto 100 drawn (text "ann@x") (text "pw") start).0 ≡ ok handed
unfolding login Text-discrete ℕ_discrete
logged_in = refl

ann-found : find (has_email crypto (text "ann@x")) start.db.users ≡ some ann
unfolding Text-discrete ℕ_discrete
ann-found = refl

not_denied : (now : ℕ) → is_denied (text "j") (text "f") now nobody_denied ≡ false
unfolding is_denied
not_denied now = refl

key_known : verification_key spelled_keys (some (text "k")) ≡ some 1
unfolding verification_key Text-discrete ℕ_discrete
key_known = refl

login-admit_example :
    (verify_password crypto ann.password_hash (text "pw") ≡ true)
    × (admit spelled spelled_keys 600000
          (some nobody_denied)
          (login crypto 100 drawn (text "ann@x") (text "pw") start).1.db
          seller_request
        ≡ by_role (seller ∷ []) seller (signed_principal 100 9 seller (text "f") (text "j")))
login-admit_example =
    login-admit spelled spelled_keys crypto spell-IsSigner key_known 100 600000 drawn (text "ann@x")
      (text "pw") start handed ann seller_request nobody_denied ann-found refl (omega arith)
      logged_in (omega arith) refl refl refl (not_denied 600000)

abbrev call : ℕ → Bool → LoginCall
call at_ms up = record {
  at_ms = at_ms;
  redis_up = up;
  ip = text "1";
  email = text "ann@x";
  password = text "no";
  drawn = drawn;
}

abbrev three_calls : List LoginCall
three_calls = call 5 true ∷ call 6 false ∷ call 7 true ∷ []

-- The call that Redis does not answer is refused, and the others meet the password.
three_answers :
    map
      (λ p. p.1)
      (post_logins crypto (λ e. e) three_calls (record { auth = start; scores = λ k. [] })).0
    ≡ err unauthorized ∷ err service_unavailable ∷ err unauthorized ∷ []
unfolding post_logins login Text-discrete ℕ_discrete consume
three_answers = refl

post_logins-bounded_example :
    affected
      (tried (call_id crypto (λ e. e)) (login_id (λ e. e) (text "1") (text "ann@x")) 0)
      (post_logins crypto (λ e. e) three_calls (record { auth = start; scores = λ k. [] })).0
    ≤ login_attempt_limit
post_logins-bounded_example =
    post_logins-bounded crypto (λ e. e) (text "1") (text "ann@x") 0 three_calls start
      (omega arith, (omega arith, (omega arith, tt)))

post_logout-ends_example :
    let (answer, s') =
      post_logout spelled spelled_keys 200000 (text "Bearer " ++ handed.access_token) start in
    (answer ≡ ok tt)
    × ((affected (in_live_family (text "f")) s'.db.refresh_tokens ≡ 0)
        × (authenticate spelled spelled_keys 600000 s'.denylist seller_request ≡ err unauthorized))
post_logout-ends_example =
    post_logout-ends spelled spelled_keys crypto spell-IsSigner key_known 100 200000 600000 ann
      (text "f") (text "j") start nobody_denied seller_request refl (omega arith) refl
      (not_denied 200000) (omega arith) (omega arith) refl refl refl
