-- ===== src/Auth/Tokens.antt =====
-- src/auth/token.service.ts and src/auth/key-store.ts. The library `jsonwebtoken` is a parameter:
-- `decode_kid` is the `kid` that a token names, if it can be decoded at all; `verify` is
-- `jwt.verify` with ES256, the issuer and the audience, at a time, and gives the claims of a token
-- that it accepts, or nothing where it throws.
use marketplace_api.Auth.Constants.{access_ttl_sec}
use marketplace_api.Store.{UserRole, customer, seller, admin}
use marketplace_api.Prelude.{
  Number, Option, Text, [], if◌then◌else◌, none, positive?, some, text, text_eq, ℕ, ◌∷◌,
}

-- The claims as they come: each may be missing or have another type.
pub record Claims : Type 0 where
  pub sub : Number
  pub role : Option Text
  pub fid : Option Text
  pub jti : Option Text
  pub exp : Option ℕ

pub record Jwt (Key : Type 0) : Type 0 where
  pub decode_kid : Text → Option Text
  pub verify : ℕ → Text → Key → Option Claims

-- What `signAccess` hands to `jwt.sign`: the claims `role` and `fid`, and the options that depend
-- on the call. The key, its `kid`, the issuer and the audience belong to the library's function.
pub record ToSign : Type 0 where
  pub role : Text
  pub fid : Text
  pub subject : ℕ
  pub jwtid : Text
  pub expires_in : ℕ

abbrev pub role_text : UserRole → Text
role_text customer = text "customer"
role_text seller = text "seller"
role_text admin = text "admin"

-- `signAccess` at a time in seconds, over `jwt.sign` with the key and the `kid` of the store
abbrev pub sign_access : (ℕ → ToSign → Text) → ℕ → ℕ → UserRole → Text → Text → Text
sign_access sign now user_id role family_id jti = sign now (record {
  role = role_text role;
  fid = family_id;
  subject = user_id;
  jwtid = jti;
  expires_in = access_ttl_sec;
})

-- `AccessPrincipal`
pub record AccessPrincipal : Type 0 where
  pub user_id : ℕ
  pub role : UserRole
  pub jti : Text
  pub family_id : Text
  pub expires_at : ℕ

-- USER_ROLES.includes(role)
unfoldable pub role_named : Text → Option UserRole
role_named s =
    if text_eq s (text "customer")
    then some customer
    else if text_eq s (text "seller")
    then some seller
    else if text_eq s (text "admin")
    then some admin
    else none

-- `KeyStore`: the current key, and the previous one during a change of keys.
pub record KeyStore (Key : Type 0) : Type 0 where
  pub kid : Text
  pub public_key : Key
  pub previous : Option (Text × Key)

-- Map.get after `set(kid, key)` and `set(previousKid, previousKey)`: the later entry wins.
abbrev pub key_of : {Key : Type 0} → KeyStore Key → Text → Option Key
key_of ks k = elim ks.previous [
  | none ↦ (if text_eq k ks.kid then some ks.public_key else none)
  | some (pk, key) ↦
      (if text_eq k pk then some key else if text_eq k ks.kid then some ks.public_key else none)
]

-- `verificationKey`: an empty or missing kid has no key.
unfoldable pub verification_key : {Key : Type 0} → KeyStore Key → Option Text → Option Key
verification_key ks none = none
verification_key ks (some []) = none
verification_key ks (some (c ∷ cs)) = key_of ks (c ∷ cs)

-- The checks on the claims of a verified token.
unfoldable pub principal_of : Claims → Option AccessPrincipal
unfolding role_named
principal_of c = elim (positive? c.sub) [
  | none ↦ none
  | some user_id ↦ elim c.role [
    | none ↦ none
    | some role ↦ elim (role_named role) [
      | none ↦ none
      | some r ↦ elim c.fid [
        | none ↦ none
        | some fid ↦ elim c.jti [
          | none ↦ none
          | some jti ↦ elim c.exp [
            | none ↦ none
            | some exp ↦ some (record {
              user_id = user_id;
              role = r;
              jti = jti;
              family_id = fid;
              expires_at = exp;
            })
          ]
        ]
      ]
    ]
  ]
]

module _ {Key : Type 0} (jwt : Jwt Key) (ks : KeyStore Key) where
  -- `verifyAccess`; `none` is an exception.
  unfoldable pub verify_access : ℕ → Text → Option AccessPrincipal
  unfolding verification_key principal_of
  verify_access now_ms token = elim (verification_key ks (jwt.decode_kid token)) [
    | none ↦ none
    | some key ↦ elim (jwt.verify now_ms token key) [ none ↦ none | some c ↦ principal_of c ]
  ]
