-- ===== src/Auth/Service/Laws.antt =====
-- Logout and a detected reuse end the access tokens of a family; a login starts one.
use marketplace_api.Auth.Bearer.{bearer_token}
use marketplace_api.Auth.Constants.{access_ttl_sec}
use marketplace_api.Auth.Denylist.{
  is_denied, is_denied-revoke_access, is_denied-revoke_family, revoke_access,
}
use marketplace_api.Auth.Denylist
use marketplace_api.Auth.Guards.{Request, authenticate}
use marketplace_api.Auth.RefreshTokens.{
  in_live_family, set_revoked, Owner, rejected, reused, rotate, RotationResult,
}
use marketplace_api.Auth.Service.{Crypto, Drawn, AuthState, refresh, logout, after_rotation}
use marketplace_api.Auth.Tokens.{AccessPrincipal, Jwt, KeyStore, verify_access}
use marketplace_api.Redis.{Redis}
use marketplace_api.Sql.{affected, affected-update_self}
use marketplace_api.Store.{Db}
use marketplace_api.Store.Tx.{ok, err, unauthorized, Result}
use marketplace_api.Prelude.{Text, arith, false, some, true, ℕ, ◌*◌, ◌+◌, ◌/◌, ◌<◌, ◌≡◌, ◌≤◌, refl}

module _ {Key : Type 0} (jwt : Jwt Key) (ks : KeyStore Key) where
  -- A request of a protected route whose token verifies, against a denylist that has it.
  denied-unauthorized :
      (later : ℕ) (r : Request) (token : Text) (p : AccessPrincipal) (redis : Redis Text)
      → r.is_http ≡ true
      → r.is_public ≡ false
      → bearer_token r.authorization ≡ some token
      → verify_access jwt ks later token ≡ some p
      → is_denied p.jti p.family_id later redis ≡ true
      → authenticate jwt ks later (some redis) r ≡ err unauthorized
  unfolding authenticate
  denied-unauthorized later r token p redis http private b v d = ground arith

  -- After a logout that reached Redis, the access token that was logged out is refused on every
  -- protected HTTP route from then until it expires, and no refresh token of its family stays
  -- unrevoked.
  pub logout-authenticate :
      (now later : ℕ) (s : AuthState) (r : Request) (token : Text) (p : AccessPrincipal)
      (redis : Redis Text)
      → s.denylist ≡ some redis
      → now ≤ later
      → later < p.expires_at * 1000
      → r.is_http ≡ true
      → r.is_public ≡ false
      → bearer_token r.authorization ≡ some token
      → verify_access jwt ks later token ≡ some p
      → let s' = (logout now p s).1 in
        (authenticate jwt ks later s'.denylist r ≡ err unauthorized)
        × (affected (in_live_family p.family_id) s'.db.refresh_tokens ≡ 0)
  unfolding logout
  logout-authenticate now later s r token p redis up le lt http private b v = ground (
    arith,
    denied-unauthorized later r token p (revoke_access p.jti p.expires_at now redis).0 http private
        b v (is_denied-revoke_access p.jti p.family_id p.expires_at now later redis lt le),
    affected-update_self (in_live_family p.family_id) (set_revoked (now / 1000)) (λ t. ground arith)
        s.db.refresh_tokens,
  )

  module _ (crypto : Crypto) where
    after_reused :
        (now : ℕ) (drawn : Drawn) (res : Result RotationResult) (db' : Db) (s : AuthState)
        (o : Owner) (n : ℕ) (redis : Redis Text)
        → res ≡ ok (rejected reused (some o) n)
        → s.denylist ≡ some redis
        → after_rotation crypto now drawn res db' s ≡ (
          err unauthorized,
          record { db = db'; denylist = some (Denylist.revoke_family o.family_id now redis) },
        )
    unfolding after_rotation
    after_reused now drawn res db' s o n redis e up = rw (e, up)

    -- When a refresh meets a reused token and Redis answers, the refresh is refused, and every access
    -- token of the family that was issued by then and lives at most the access lifetime is refused
    -- on every protected HTTP route, as long as it would live.
    refresh-reused-authenticate :
        (now later issued : ℕ) (drawn : Drawn) (presented : Text) (s : AuthState) (o : Owner)
        (n : ℕ) (r : Request) (token : Text) (p : AccessPrincipal) (redis : Redis Text)
        → (rotate crypto.hash (now / 1000) presented drawn.refresh_token s.db).0
          ≡ ok (rejected reused (some o) n)
        → s.denylist ≡ some redis
        → p.family_id ≡ o.family_id
        → issued ≤ now
        → p.expires_at * 1000 ≤ issued + access_ttl_sec * 1000
        → later < p.expires_at * 1000
        → r.is_http ≡ true
        → r.is_public ≡ false
        → bearer_token r.authorization ≡ some token
        → verify_access jwt ks later token ≡ some p
        → let (answer, s') = refresh crypto now drawn presented s in
          (answer ≡ err unauthorized) × (authenticate jwt ks later s'.denylist r ≡ err unauthorized)
    unfolding refresh
    refresh-reused-authenticate now later issued drawn presented s o n r token p redis rot up fam le
          ttl lt http private b v =
        let q =
          denied-unauthorized later r token p (Denylist.revoke_family o.family_id now redis) http
            private b v
            (rw fam (
              is_denied-revoke_family p.jti o.family_id issued (p.expires_at * 1000) now later redis
                le ttl lt)) in
        rw
          (after_reused now drawn _
            (rotate crypto.hash (now / 1000) presented drawn.refresh_token s.db).1 s o n redis rot
            up)
          (refl, q)
