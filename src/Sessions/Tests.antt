-- ===== src/Sessions/Tests.antt =====
-- One session of the default lifetimes.
use marketplace_api.Prelude.{
  Option, Text, Text-discrete, arith, none, refl, replicate, some, true, ℕ, ◌≡◌, All, [], false,
  if◌then◌else◌, suc, text, unary, zero, ℕ_discrete, ◌==◌, ◌∷◌, map, List,
}
use marketplace_api.Redis.{Redis}
use marketplace_api.Auth.RefreshTokens.{matches_token_pattern}
use marketplace_api.Sessions.Store.{create_session, SessionData, get_session, default_lifetimes}
use marketplace_api.Sessions.Cookie.{UriText, find_cookie, start_session, split_on}
use marketplace_api.Sessions.RoundTrip.{
  IsUri, cookie_header, kept_pair, session_middleware-start_session, visit,
}
use marketplace_api.Store.Tx.{ok}

abbrev sid : Text
sid = replicate 43 b'a'

abbrev nobody : Redis (Option (SessionData ℕ))
nobody k = none

sid_matches : matches_token_pattern sid ≡ true
unfolding matches_token_pattern
sid_matches = refl

abbrev seven : SessionData ℕ
seven = record { created_at = 5; values = 7 }

abbrev begun : Redis (Option (SessionData ℕ))
begun = create_session default_lifetimes 5 sid 7 nobody

abbrev prolonged : Redis (Option (SessionData ℕ))
prolonged = (get_session default_lifetimes 1000000 sid begun).1

read_once : get_session default_lifetimes 1000000 sid begun ≡ (some seven, prolonged)
unfolding get_session create_session Text-discrete
read_once = refl

read_again : (get_session default_lifetimes 2500000 sid prolonged).0 ≡ some seven
unfolding get_session create_session Text-discrete
read_again = refl

-- Spaces before a text are trimmed, and nothing is encoded.
abbrev trim_start : Text → Text
trim_start [] = []
trim_start (c ∷ s) = if c == b' ' then trim_start s else c ∷ s

abbrev plain : UriText
plain = record { trim = trim_start; decode_uri = λ s. some s }

All-replicate : (n : ℕ) → All (λ c. (c == b';') ≡ false) (replicate n b'a')
All-replicate zero = tt
All-replicate (suc n) = (refl, All-replicate n)

plain-IsUri : IsUri plain (λ s. s) sid
plain-IsUri = record {
  trims_name = refl;
  trims_value = refl;
  decodes = refl;
  one_part = All-replicate 43;
}

no_other_sid : find_cookie plain (text "sid") (split_on b';' (text "a=1")) ≡ ok none
unfolding Text-discrete ℕ_discrete
no_other_sid = refl

abbrev two_visits : List ℕ
two_visits = 1000000 ∷ 2500000 ∷ []

session_middleware-start_session_example :
    let (given, s') = start_session unary (λ s. s) true default_lifetimes 5 sid 7 nobody in
    visit plain default_lifetimes
      (some (cookie_header (text "a=1") (kept_pair given.1)))
      two_visits
      s'
    ≡ map (λ now. ok (some (sid, seven))) two_visits
session_middleware-start_session_example =
    session_middleware-start_session plain (λ s. s) unary true default_lifetimes 5 two_visits sid
      (text "a=1") 7 nobody plain-IsUri sid_matches no_other_sid
      (omega arith, omega arith, (omega arith, omega arith, tt))
