-- ===== src/Auth/RefreshTokens/Tests.antt =====
-- Rotations of the tokens of one login.
use marketplace_api.Auth.RefreshTokens.{
  rotate, issue, rotated, rejected, reused, revoked, matches_token_pattern, in_live_family, Owner,
}
use marketplace_api.Auth.RefreshTokens.Invariant.{IsSound}
use marketplace_api.Auth.RefreshTokens.Reuse.{rotate-reuse}
use marketplace_api.Auth.RefreshTokens.Rotation.{rotate-IsSound}
use marketplace_api.Sql.{affected}
use marketplace_api.Store.{Db, empty_db}
use marketplace_api.Store.Tx.{ok, transaction}
use marketplace_api.Prelude.{
  Text, Text-discrete, [], arith, none, refl, replicate, some, text, ℕ_discrete, ◌∷◌, ◌≡◌,
}

abbrev keyed : Text → Text
keyed t = b'#' ∷ t

abbrev token_a : Text
token_a = replicate 43 b'a'

abbrev token_b : Text
token_b = replicate 43 b'b'

abbrev logged_in : Db
logged_in = record empty_db {
  refresh_tokens =
      (record {
        id = 1;
        user_id = 9;
        family_id = text "f";
        token_hash = keyed token_a;
        used_at = none;
        revoked_at = none;
        expires_at = 604900;
        family_started_at = 100;
      })
      ∷ [];
  next_uuid = 2;
}

login_issues : (transaction (issue keyed 100 9 (text "f") token_a) empty_db).1 ≡ logged_in
unfolding transaction issue
login_issues = refl

first_use :
    (rotate keyed 200 token_a token_b logged_in).0
    ≡ ok (rotated (record { user_id = 9; family_id = text "f" }) token_b)
unfolding rotate Text-discrete ℕ_discrete
first_use = refl

rotate-IsSound_example : IsSound (rotate keyed 200 token_a token_b logged_in).1.refresh_tokens
rotate-IsSound_example =
    rotate-IsSound keyed 200 token_a token_b logged_in
      (record { bounded = (omega arith, tt); single = λ f. ground arith })

rotate-reuse_example :
    let db' = (rotate keyed 200 token_a token_b logged_in).1 in
    let o : Owner = record { user_id = 9; family_id = text "f" } in
    let again = rotate keyed 300 token_a token_a db' in
    (again.0
      ≡ ok (rejected reused (some o) (affected (in_live_family (text "f")) db'.refresh_tokens)))
    × (affected (in_live_family (text "f")) again.1.refresh_tokens ≡ 0)
    × ((rotate keyed 400 token_b token_a again.1).0 ≡ ok (rejected revoked (some o) 0))
unfolding matches_token_pattern rotate Text-discrete ℕ_discrete
rotate-reuse_example =
    rotate-reuse keyed 200 300 400 token_a token_b token_a token_a logged_in _
      (record { user_id = 9; family_id = text "f" }) refl refl
