-- ===== src/Auth/Service.antt =====
-- src/auth/auth.service.ts, src/auth/password.ts and the routes of src/auth/auth.controller.ts:
-- login, refresh and logout over the tables and the denylist.
pub mod Spelled
mod Tests
pub mod Laws
pub mod Login
use marketplace_api.Auth.Constants.{access_ttl_sec}
use marketplace_api.Auth.Denylist.{revoke_access}
use marketplace_api.Auth.Denylist
use marketplace_api.Auth.RefreshTokens.{
  RotationResult, RejectReason, Owner, rotated, rejected, reused, unknown, revoked, expired, issue,
  rotate,
}
use marketplace_api.Auth.RefreshTokens
use marketplace_api.Auth.Guards.{Denylist, has_id}
use marketplace_api.Auth.Tokens.{AccessPrincipal, ToSign, sign_access}
use marketplace_api.Store.{Db, User, UserRole}
use marketplace_api.Store.Tx.{Result, ok, err, unauthorized, service_unavailable, transaction}
use marketplace_api.Prelude.{
  Bool, Option, Text, [], false, if◌then◌else◌, none, some, text_eq, ℕ, ◌/◌, ◌∷◌,
}
use marketplace_api.Sql.{find}

-- What the service takes from libraries and from the random source: the keyed hash of refresh
-- tokens, `argon2.verify` (`none` where it throws), and `jwt.sign` at a time in seconds.
pub record Crypto : Type 0 where
  pub hash : Text → Text
  pub argon2_verify : Text → Text → Option Bool
  pub sign : ℕ → ToSign → Text

-- The values that one request draws at random.
pub record Drawn : Type 0 where
  pub refresh_token : Text
  pub family_id : Text
  pub jti : Text

-- `TokenPairDto`
pub record TokenPair : Type 0 where
  pub access_token : Text
  pub refresh_token : Text
  pub expires_in : ℕ

-- The tables and the denylist, `none` while Redis is out of reach.
pub record AuthState : Type 0 where
  pub db : Db
  pub denylist : Denylist

module _ (crypto : Crypto) where
  -- `verifyPassword`: a missing or an empty hash matches no password.
  unfoldable pub verify_password : Option Text → Text → Bool
  verify_password none password = false
  verify_password (some []) password = false
  verify_password (some (c ∷ cs)) password = elim (crypto.argon2_verify (c ∷ cs) password) [
    | none ↦ false
    | some b ↦ b
  ]

  -- `buildPair`, over `TokenService.signAccess`
  abbrev pub build_pair : ℕ → ℕ → UserRole → Text → Text → Drawn → TokenPair
  build_pair now user_id role family_id refresh_token drawn = record {
    access_token = sign_access crypto.sign now user_id role family_id drawn.jti;
    refresh_token = refresh_token;
    expires_in = access_ttl_sec;
  }

  abbrev pub has_email : Text → User → Bool
  has_email e u = text_eq u.email e

  -- A new family for a user who has shown the password.
  unfoldable pub issue_pair : ℕ → Drawn → User → AuthState → Result TokenPair × AuthState
  unfolding issue transaction
  issue_pair now drawn user s =
      let (r, db') =
        transaction (issue crypto.hash now user.id drawn.family_id drawn.refresh_token) s.db in
      elim r [
        | err e ↦ (err e, s)
        | ok done ↦ (
          ok (build_pair now user.id user.role drawn.family_id drawn.refresh_token drawn),
          record s { db = db' },
        )
      ]

  -- `login`
  unfoldable pub login : ℕ → Drawn → Text → Text → AuthState → Result TokenPair × AuthState
  unfolding verify_password issue_pair
  login now drawn email password s = elim (find (has_email email) s.db.users) [
    | none ↦ (err unauthorized, s)
    | some user ↦
        if verify_password user.password_hash password
        then issue_pair now drawn user s
        else (err unauthorized, s)
  ]

  -- The denylist after a rejected refresh: a detected reuse enters the family, if Redis answers.
  abbrev pub note_reuse : ℕ → RejectReason → Option Owner → Denylist → Denylist
  note_reuse now_ms reused (some o) (some redis) =
      some (Denylist.revoke_family o.family_id now_ms redis)
  note_reuse now_ms _ _ d = d

  -- What `refresh` answers to the result of the rotation. A missing user comes too late to take
  -- the rotation back.
  unfoldable pub answer_refresh :
      ℕ → Drawn → RotationResult → AuthState → Result TokenPair × AuthState
  answer_refresh now_ms drawn (rejected reason owner n) s =
      (err unauthorized, record s { denylist = note_reuse now_ms reason owner s.denylist })
  answer_refresh now_ms drawn (rotated o token) s = elim (find (has_id o.user_id) s.db.users) [
    | none ↦ (err unauthorized, s)
    | some user ↦ (ok (build_pair (now_ms / 1000) user.id user.role o.family_id token drawn), s)
  ]

  unfoldable pub after_rotation :
      ℕ → Drawn → Result RotationResult → Db → AuthState → Result TokenPair × AuthState
  unfolding answer_refresh
  after_rotation now_ms drawn (err e) db' s = (err e, record s { db = db' })
  after_rotation now_ms drawn (ok result) db' s =
      answer_refresh now_ms drawn result (record s { db = db' })

  -- `refresh`
  unfoldable pub refresh : ℕ → Drawn → Text → AuthState → Result TokenPair × AuthState
  unfolding after_rotation
  refresh now_ms drawn token s =
      let (r, db') = rotate crypto.hash (now_ms / 1000) token drawn.refresh_token s.db in
      after_rotation now_ms drawn r db' s

-- `logout`: the family in the tables first, then the access token in the denylist.
unfoldable pub logout : ℕ → AccessPrincipal → AuthState → Result (Unit {0}) × AuthState
unfolding revoke_access transaction RefreshTokens.revoke_family
logout now_ms p s =
    let db' = (transaction (RefreshTokens.revoke_family (now_ms / 1000) p.family_id) s.db).1 in
    elim s.denylist [
      | none ↦ (err service_unavailable, record s { db = db' })
      | some redis ↦ (
        ok tt,
        record { db = db'; denylist = some (revoke_access p.jti p.expires_at now_ms redis).0 },
      )
    ]
