-- ===== src/Auth/Config.antt =====
-- src/config/auth-env.ts, and the constructor of src/auth/key-store.ts: the keys in the environment.
-- The loading of a key and its fingerprint are the library's.
mod Tests
pub mod Keys
use marketplace_api.Prelude.{Option, Text, [], if◌then◌else◌, none, some, text_eq, ◌∷◌}
use marketplace_api.Auth.Tokens.{KeyStore}

-- The variables; an optional one may be missing or empty.
pub record AuthEnv : Type 0 where
  pub jwt_kid : Text
  pub jwt_private_key : Text
  pub jwt_public_key : Text
  pub jwt_previous_kid : Option Text
  pub jwt_previous_public_key : Option Text

-- src/config/jwt-keys.ts; a key that is none of EC P-256 does not load.
pub record KeyLoader (Private Public : Type 0) : Type 0 where
  pub load_private : Text → Option Private
  pub load_public : Text → Option Public
  pub private_fingerprint : Private → Text
  pub public_fingerprint : Public → Text

-- Which variable is refused, and why.
pub data EnvError : Type 0 where
  bad_private_key bad_public_key not_a_pair : EnvError
  missing_previous_public_key missing_previous_kid : EnvError
  same_kid bad_previous_public_key : EnvError

-- A value that is true as a condition.
abbrev pub given : Option Text → Option Text
given none = none
given (some []) = none
given (some (c ∷ cs)) = some (c ∷ cs)

module _ {Private Public : Type 0} (keys : KeyLoader Private Public) where
  abbrev pub check_previous_key : Option Public → Option EnvError
  check_previous_key none = some bad_previous_public_key
  check_previous_key (some key) = none

  abbrev pub check_previous : Text → Option Text → Option Text → Option EnvError
  check_previous kid none none = none
  check_previous kid (some k) none = some missing_previous_public_key
  check_previous kid none (some p) = some missing_previous_kid
  check_previous kid (some k) (some p) =
      if text_eq k kid then some same_kid else check_previous_key (keys.load_public p)

  abbrev pub check_pair : AuthEnv → Option Private → Option Public → Option EnvError
  check_pair env none public = some bad_private_key
  check_pair env (some private) none = some bad_public_key
  check_pair env (some private) (some public) =
      if text_eq (keys.private_fingerprint private) (keys.public_fingerprint public)
      then check_previous env.jwt_kid (given env.jwt_previous_kid)
          (given env.jwt_previous_public_key)
      else some not_a_pair

  -- `validateAuthEnv`: `none` where the environment is accepted
  unfoldable pub validate_auth_env : AuthEnv → Option EnvError
  validate_auth_env env =
      check_pair env (keys.load_private env.jwt_private_key) (keys.load_public env.jwt_public_key)

  abbrev pub with_previous : Text → Public → Text → Option Public → Option (KeyStore Public)
  with_previous kid public k none = none
  with_previous kid public k (some key) =
      some (record { kid = kid; public_key = public; previous = some (k, key) })

  abbrev pub previous_store : Text → Public → Option Text → Option Text → Option (KeyStore Public)
  previous_store kid public (some k) (some p) = with_previous kid public k (keys.load_public p)
  previous_store kid public none p =
      some (record { kid = kid; public_key = public; previous = none })
  previous_store kid public (some k) none =
      some (record { kid = kid; public_key = public; previous = none })

  abbrev pub store_of : AuthEnv → Option Private → Option Public → Option (KeyStore Public)
  store_of env none public = none
  store_of env (some private) none = none
  store_of env (some private) (some public) =
      previous_store env.jwt_kid public (given env.jwt_previous_kid)
        (given env.jwt_previous_public_key)

  -- The constructor of `KeyStore`; `none` where the loading of a key throws
  unfoldable pub open_key_store : AuthEnv → Option (KeyStore Public)
  open_key_store env =
      store_of env (keys.load_private env.jwt_private_key) (keys.load_public env.jwt_public_key)
