-- ===== src/Auth/Config/Tests.antt =====
-- An environment in the middle of a change of keys. A key is its own text here.
use marketplace_api.Prelude.{Text, Text-discrete, [], none, refl, some, text, ◌≡◌, ◌≢◌}
use marketplace_api.Auth.Config.{KeyLoader, AuthEnv, validate_auth_env}
use marketplace_api.Auth.Config.Keys.{Opened, validate_auth_env-Opened}

abbrev plain : KeyLoader Text Text
plain = record {
  load_private = λ t. some t;
  load_public = λ t. some t;
  private_fingerprint = λ k. k;
  public_fingerprint = λ k. k;
}

abbrev env : AuthEnv
env = record {
  jwt_kid = text "b";
  jwt_private_key = text "x";
  jwt_public_key = text "x";
  jwt_previous_kid = some (text "a");
  jwt_previous_public_key = some (text "y");
}

kid-ne_nil : env.jwt_kid ≢ []
kid-ne_nil e = absurd (cc)

accepted : validate_auth_env plain env ≡ none
unfolding validate_auth_env Text-discrete
accepted = refl

validate_auth_env-Opened_example : Opened plain env
validate_auth_env-Opened_example = validate_auth_env-Opened plain env kid-ne_nil accepted
