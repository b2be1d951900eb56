-- ===== src/Auth/Service/Tests.antt =====
-- Requests against one user, with toy cryptography.
use marketplace_api.Auth.Guards.{Request, admit}
use marketplace_api.Auth.Guards.Laws.{Admitted, admit-Admitted}
use marketplace_api.Auth.RefreshTokens.{rejected, reused, rotate, first_row}
use marketplace_api.Auth.Service.{Crypto, Drawn, AuthState, login, build_pair}
use marketplace_api.Auth.Tokens.{verify_access, AccessPrincipal, Jwt, KeyStore, Claims}
use marketplace_api.Redis.{Redis}
use marketplace_api.Store.{User, seller, empty_db}
use marketplace_api.Store.Tx.{ok, err, unauthorized}
use marketplace_api.Prelude.{
  Option, Text, Text-discrete, [], false, if◌then◌else◌, nat, none, refl, replicate, some, text,
  text_eq, true, ℕ, ℕ_discrete, ◌&&◌, ◌/◌, ◌==◌, ◌∷◌, ◌≡◌,
}

abbrev keyed : Text → Text
keyed t = b'#' ∷ t

abbrev crypto : Crypto
crypto = record {
  hash = keyed;
  argon2_verify = λ h p. some (text_eq h p);
  sign = λ now c. text "abc";
}

abbrev claims : Claims
claims = record {
  sub = nat 9;
  role = some (text "seller");
  fid = some (text "f");
  jti = some (text "j");
  exp = some 700;
}

-- Accepts the one token `abc`, under the key 1.
abbrev jwt : Jwt ℕ
jwt = record {
  decode_kid = λ t. some (text "k");
  verify = λ now t k. if text_eq t (text "abc") && k == 1 then some claims else none;
}

abbrev keys : KeyStore ℕ
keys = record { kid = text "k"; public_key = 1; previous = none }

abbrev ann : User
ann = record {
  id = 9;
  email = text "ann@x";
  name = text "Ann";
  password_hash = some (text "pw");
  role = seller;
  balance_cents = 0;
}

abbrev token_a : Text
token_a = replicate 43 b'a'

abbrev token_b : Text
token_b = replicate 43 b'b'

abbrev drawn : Drawn
drawn = record { refresh_token = token_a; family_id = text "f"; jti = text "j" }

abbrev nobody_denied : Redis Text
nobody_denied = λ k. none

abbrev start : AuthState
start = record { db = record empty_db { users = ann ∷ [] }; denylist = some nobody_denied }

abbrev principal : AccessPrincipal
principal = record {
  user_id = 9;
  role = seller;
  jti = text "j";
  family_id = text "f";
  expires_at = 700;
}

abbrev request : Request
request = record {
  is_http = true;
  is_public = false;
  required_roles = seller ∷ [];
  authorization = text "Bearer abc";
}

login_ok :
    (login crypto 100 drawn (text "ann@x") (text "pw") start).0
    ≡ ok (build_pair crypto 100 9 seller (text "f") token_a drawn)
unfolding login Text-discrete ℕ_discrete
login_ok = refl

login_wrong : (login crypto 100 drawn (text "ann@x") (text "no") start).0 ≡ err unauthorized
unfolding login Text-discrete ℕ_discrete
login_wrong = refl

admitted : admit jwt keys 200000 (some nobody_denied) start.db request ≡ ok (some principal)
unfolding admit Text-discrete ℕ_discrete
admitted = refl

admit-Admitted_example :
    (q : AccessPrincipal) × (◌≡◌ {A = Option AccessPrincipal} (some principal) (some q))
    × Admitted jwt keys 200000 (some nobody_denied) start.db request q
admit-Admitted_example =
    admit-Admitted jwt keys 200000 (some nobody_denied) start.db request (some principal) refl refl
      admitted

verified : (now : ℕ) → verify_access jwt keys now (text "abc") ≡ some principal
unfolding verify_access Text-discrete ℕ_discrete
verified now = refl

-- The family of a login whose first token was used before.
abbrev used_up : AuthState
used_up = record start {
  db = record start.db {
    refresh_tokens =
        record (first_row 1 9 (text "f") (keyed token_a) 100) { used_at = some 150 } ∷ [];
  };
}

reuse_detected :
    (rotate keyed (200000 / 1000) token_a token_a used_up.db).0
    ≡ ok (rejected reused (some (record { user_id = 9; family_id = text "f" })) 1)
unfolding rotate Text-discrete ℕ_discrete
reuse_detected = refl
