-- ===== src/Auth/Service/Login.antt =====
-- The way of an access token from the login to the guards.
use marketplace_api.Auth.Bearer.{bearer_token, has_space}
use marketplace_api.Prelude.{
  Text, Text-discrete, [], arith, false, nat, refl, some, text, ℕ, ℕ_discrete, ◌++◌, ◌+◌, ◌/◌, ◌<◌,
  ◌∷◌, ◌≡◌, ◌≢◌, ap, suc, true, zero, ◌∙◌, List, List-cases, if◌then◌else◌, inl, inr, Bool-cases,
}
use marketplace_api.Auth.Tokens.{
  Jwt, role_named, KeyStore, AccessPrincipal, role_text, ToSign, verification_key, verify_access,
  principal_of, sign_access, Claims,
}
use marketplace_api.Store.{UserRole, customer, seller, admin, Db, User}
use marketplace_api.Auth.Constants.{access_ttl_sec}
use marketplace_api.Auth.Service.{
  Crypto, login, issue_pair, Drawn, AuthState, TokenPair, has_email, build_pair, verify_password,
}
use marketplace_api.Auth.Guards.{authenticate, Request, Verdict, admit, includes, authorize, has_id}
use marketplace_api.Redis.{Redis}
use marketplace_api.Auth.Denylist.{is_denied}
use marketplace_api.Store.Tx.{ok, err, forbidden, transaction}
use marketplace_api.Auth.RefreshTokens.{issue, insert_token}
use marketplace_api.Sql.{find}

-- What `jsonwebtoken` documents of the tokens that it signs with the key of the store: the header
-- names the `kid`, the token is one word, and until it expires it verifies with the claims.
pub record IsSigner {Key : Type 0} (jwt : Jwt Key) (ks : KeyStore Key) (sign : ℕ → ToSign → Text)
    : Type 0 where
  pub names_key : (now : ℕ) (c : ToSign) → jwt.decode_kid (sign now c) ≡ some ks.kid
  pub one_word : (now : ℕ) (c : ToSign) → has_space (sign now c) ≡ false
  pub not_empty : (now : ℕ) (c : ToSign) → sign now c ≢ []
  pub verifies :
      (now later_ms : ℕ) (c : ToSign)
      → later_ms / 1000 < now + c.expires_in
      → jwt.verify later_ms (sign now c) ks.public_key
        ≡ some (record {
          sub = nat c.subject;
          role = some c.role;
          fid = some c.fid;
          jti = some c.jwtid;
          exp = some (now + c.expires_in);
        })

-- The principal that a signed token stands for.
abbrev pub signed_principal : ℕ → ℕ → UserRole → Text → Text → AccessPrincipal
signed_principal now user_id role family_id jti = record {
  user_id = user_id;
  role = role;
  jti = jti;
  family_id = family_id;
  expires_at = now + access_ttl_sec;
}

role_named-role_text : (r : UserRole) → role_named (role_text r) ≡ some r
unfolding role_named Text-discrete ℕ_discrete
role_named-role_text customer = refl
role_named-role_text seller = refl
role_named-role_text admin = refl

-- A header made of the scheme and one word carries the word.
pub bearer_token-word :
    (w : Text) → has_space w ≡ false → w ≢ [] → bearer_token (text "Bearer " ++ w) ≡ some w
unfolding bearer_token
bearer_token-word [] one full = absurd (full refl)
bearer_token-word (c ∷ w) one full = ground arith

module _ {Key : Type 0} (jwt : Jwt Key) (ks : KeyStore Key) (crypto : Crypto)
    (signer : IsSigner jwt ks crypto.sign)
    (known : verification_key ks (some ks.kid) ≡ some ks.public_key) where
  verify_access-verified :
      (later : ℕ) (token : Text) (c : Claims)
      → jwt.decode_kid token ≡ some ks.kid
      → jwt.verify later token ks.public_key ≡ some c
      → verify_access jwt ks later token ≡ principal_of c
  unfolding verify_access
  verify_access-verified later token c named accepted =
      rw (verify_access, named, known, accepted) refl

  -- Until it expires, a signed access token is verified as the principal that it was signed for.
  pub verify_access-sign_access :
      (now later user_id : ℕ) (role : UserRole) (family_id jti : Text)
      → 0 < user_id
      → later / 1000 < now + access_ttl_sec
      → verify_access jwt ks later (sign_access crypto.sign now user_id role family_id jti)
        ≡ some (signed_principal now user_id role family_id jti)
  unfolding principal_of
  verify_access-sign_access now later zero role family_id jti p live = absurd (omega arith)
  verify_access-sign_access now later (suc n) role family_id jti p live =
      verify_access-verified later _ _ (signer.names_key now _) (signer.verifies now later _ live)
      ∙ rw (principal_of, role_named-role_text role) refl

  pub authenticate-signed :
      (now later user_id : ℕ) (role : UserRole) (family_id jti : Text) (r : Request)
      (redis : Redis Text)
      → 0 < user_id
      → later / 1000 < now + access_ttl_sec
      → r.is_http ≡ true
      → r.is_public ≡ false
      → r.authorization ≡ text "Bearer " ++ sign_access crypto.sign now user_id role family_id jti
      → is_denied jti family_id later redis ≡ false
      → authenticate jwt ks later (some redis) r
        ≡ ok (some (signed_principal now user_id role family_id jti))
  unfolding authenticate
  authenticate-signed now later user_id role family_id jti r redis p live http private carried
        free =
      let b : bearer_token r.authorization
          ≡ some (sign_access crypto.sign now user_id role family_id jti) =
        ap bearer_token carried
        ∙ bearer_token-word _ (signer.one_word now _) (signer.not_empty now _) in
      let v = verify_access-sign_access now later user_id role family_id jti p live in
      ground (arith, b, v)

-- What a route that requires roles answers to a verified user: with none required each passes.
abbrev pub by_role : List UserRole → UserRole → AccessPrincipal → Verdict
by_role [] role p = ok (some p)
by_role (x ∷ xs) role p = if includes (x ∷ xs) role then ok (some p) else err forbidden

module _ {Key : Type 0} (jwt : Jwt Key) (ks : KeyStore Key) where
  pub admit-by_role :
      (later : ℕ) (db : Db) (r : Request) (redis : Redis Text) (user : User) (p : AccessPrincipal)
      → r.is_http ≡ true
      → find (has_id p.user_id) db.users ≡ some user
      → authenticate jwt ks later (some redis) r ≡ ok (some p)
      → admit jwt ks later (some redis) db r ≡ by_role r.required_roles user.role p
  unfolding admit authorize
  admit-by_role later db r redis user p http listed a = elim (List-cases r.required_roles) [
    | inl e ↦ rw (admit, a, authorize, http, e) refl
    | inr (x, xs, e) ↦
        rw (admit, a, authorize, http, e, listed)
          (elim (Bool-cases (includes (x ∷ xs) user.role)) [
            | inl y ↦ rw y refl
            | inr n ↦ rw n refl
          ])
  ]

module _ (crypto : Crypto) (now : ℕ) (drawn : Drawn) (user : User) where
  -- What a login hands out.
  abbrev pub login_pair : TokenPair
  login_pair = build_pair crypto now user.id user.role drawn.family_id drawn.refresh_token drawn

  issue_pair-ok :
      (s : AuthState) (pair : TokenPair)
      → (issue_pair crypto now drawn user s).0 ≡ ok pair
      → (pair ≡ login_pair) × ((issue_pair crypto now drawn user s).1.db.users ≡ s.db.users)
  unfolding issue_pair issue transaction insert_token
  issue_pair-ok s pair h = ground (arith)

  login-ok :
      (email password : Text) (s : AuthState) (pair : TokenPair)
      → find (has_email crypto email) s.db.users ≡ some user
      → (login crypto now drawn email password s).0 ≡ ok pair
      → (verify_password crypto user.password_hash password ≡ true)
        × ((pair ≡ login_pair)
            × ((login crypto now drawn email password s).1.db.users ≡ s.db.users))
  unfolding login
  login-ok email password s pair found h =
      elim (Bool-cases (verify_password crypto user.password_hash password)) [
        | inl y ↦ rw (login, found, y) (refl, issue_pair-ok s pair (ground arith))
        | inr n ↦ absurd (ground arith)
      ]

module _ {Key : Type 0} (jwt : Jwt Key) (ks : KeyStore Key) (crypto : Crypto) where
  -- A login that succeeds has checked the password of the user with this e-mail. Until it expires,
  -- its access token lets the user through each HTTP route that requires no role or has the user's
  -- role among those it requires, and through no other, unless the denylist has the token or its
  -- family.
  pub login-admit :
      IsSigner jwt ks crypto.sign
      → verification_key ks (some ks.kid) ≡ some ks.public_key
      → (now later : ℕ) (drawn : Drawn) (email password : Text) (s : AuthState) (pair : TokenPair)
        (user : User) (r : Request) (redis : Redis Text)
      → find (has_email crypto email) s.db.users ≡ some user
      → find (has_id user.id) s.db.users ≡ some user
      → 0 < user.id
      → (login crypto now drawn email password s).0 ≡ ok pair
      → later / 1000 < now + access_ttl_sec
      → r.is_http ≡ true
      → r.is_public ≡ false
      → r.authorization ≡ text "Bearer " ++ pair.access_token
      → is_denied drawn.jti drawn.family_id later redis ≡ false
      → (verify_password crypto user.password_hash password ≡ true)
        × (admit jwt ks later (some redis) (login crypto now drawn email password s).1.db r
            ≡ by_role r.required_roles user.role
                (signed_principal now user.id user.role drawn.family_id drawn.jti))
  login-admit signer known now later drawn email password s pair user r redis found listed positive
        h live http private carried free =
      let (checked, (handed, kept)) =
        login-ok crypto now drawn user email password s pair found h in
      let bearer : r.authorization
          ≡ text "Bearer "
            ++ sign_access crypto.sign now user.id user.role drawn.family_id drawn.jti =
        carried ∙ ap (λ q. text "Bearer " ++ q.access_token) handed in
      (
        checked,
        admit-by_role jwt ks later _ r redis user _ http (ap (find (has_id user.id)) kept ∙ listed)
            (authenticate-signed jwt ks crypto signer known now later user.id user.role
              drawn.family_id drawn.jti r redis positive live http private bearer free),
      )
