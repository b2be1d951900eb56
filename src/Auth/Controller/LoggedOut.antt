-- ===== src/Auth/Controller/LoggedOut.antt =====
-- What the route `logout` ends, for the access tokens that the service signs.
use marketplace_api.Prelude.{
  Text, [], ap, arith, false, refl, some, text, true, ℕ, ◌*◌, ◌++◌, ◌+◌, ◌<◌, ◌∙◌, ◌≡◌, ◌≤◌, sym,
}
use marketplace_api.Auth.Tokens.{Jwt, KeyStore, verification_key, sign_access, AccessPrincipal}
use marketplace_api.Auth.Service.{Crypto, AuthState, logout}
use marketplace_api.Auth.Controller.{post_logout, logout_admitted}
use marketplace_api.Auth.Service.Login.{
  IsSigner, signed_principal, authenticate-signed, admit-by_role, bearer_token-word,
  verify_access-sign_access,
}
use marketplace_api.Store.{User}
use marketplace_api.Redis.{Redis}
use marketplace_api.Auth.Service.Laws.{logout-authenticate}
use marketplace_api.Sql.{affected}
use marketplace_api.Auth.Guards.{Request, has_id, authenticate, admit}
use marketplace_api.Sql.{find}
use marketplace_api.Auth.Denylist.{is_denied}
use marketplace_api.Auth.Constants.{access_ttl_sec}
use marketplace_api.Store.Tx.{ok, err, unauthorized}
use marketplace_api.Auth.RefreshTokens.{in_live_family}
use marketplace_api.Auth.Bearer.{bearer_token}
use mathlib.Core.Path.{subst}

logout-reachable :
    (now : ℕ) (p : AccessPrincipal) (s : AuthState) (redis : Redis Text)
    → s.denylist ≡ some redis
    → (logout now p s).0 ≡ ok tt
unfolding logout
logout-reachable now p s redis up = rw (logout, up) refl

module _ {Key : Type 0} (jwt : Jwt Key) (ks : KeyStore Key) (crypto : Crypto) where
  -- A signed access token that has not expired and is not denied, of a user in the table, can log
  -- out while Redis is in reach: the answer is a success, no refresh token of the family stays
  -- unrevoked, and from then until its expiry the access token is refused on every protected HTTP
  -- route.
  pub post_logout-ends :
      IsSigner jwt ks crypto.sign
      → verification_key ks (some ks.kid) ≡ some ks.public_key
      → (issued now later : ℕ) (user : User) (family_id jti : Text) (s : AuthState)
        (redis : Redis Text) (r : Request)
      → let token = sign_access crypto.sign issued user.id user.role family_id jti in
        find (has_id user.id) s.db.users ≡ some user
        → 0 < user.id
        → s.denylist ≡ some redis
        → is_denied jti family_id now redis ≡ false
        → now ≤ later
        → later < (issued + access_ttl_sec) * 1000
        → r.is_http ≡ true
        → r.is_public ≡ false
        → r.authorization ≡ text "Bearer " ++ token
        → let (answer, s') = post_logout jwt ks now (text "Bearer " ++ token) s in
          (answer ≡ ok tt)
          × ((affected (in_live_family family_id) s'.db.refresh_tokens ≡ 0)
              × (authenticate jwt ks later s'.denylist r ≡ err unauthorized))
  unfolding post_logout
  post_logout-ends signer known issued now later user family_id jti s redis r listed positive up
        free le live http private carried =
      let p = signed_principal issued user.id user.role family_id jti in
      let token = sign_access crypto.sign issued user.id user.role family_id jti in
      let out : Request = record {
        is_http = true;
        is_public = false;
        required_roles = [];
        authorization = text "Bearer " ++ token;
      } in
      let a =
        authenticate-signed jwt ks crypto signer known issued now user.id user.role family_id jti
          out redis positive (omega arith) refl refl refl free in
      let admitted : admit jwt ks now s.denylist s.db out ≡ ok (some p) =
        ap (λ d. admit jwt ks now d s.db out) up
        ∙ admit-by_role jwt ks now s.db out redis user p refl listed a in
      let gone =
        logout-authenticate jwt ks now later s r token p redis up le live http private
          (ap bearer_token carried
            ∙ bearer_token-word token (signer.one_word issued _) (signer.not_empty issued _))
          (verify_access-sign_access jwt ks crypto signer known issued later user.id user.role
            family_id jti positive (omega arith)) in
      subst
        (λ o.
          (o.0 ≡ ok tt)
          × ((affected (in_live_family family_id) o.1.db.refresh_tokens ≡ 0)
              × (authenticate jwt ks later o.1.denylist r ≡ err unauthorized)))
        (sym (ap (λ v. logout_admitted now v s) admitted))
        (logout-reachable now p s redis up, (gone.1, gone.0))
