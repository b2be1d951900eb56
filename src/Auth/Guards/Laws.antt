-- ===== src/Auth/Guards/Laws.antt =====
-- What a request that the guards admit has shown.
use marketplace_api.Auth.Bearer.{bearer_token}
use marketplace_api.Auth.Denylist.{is_denied}
use marketplace_api.Auth.Guards.{Request, Denylist, authorize, admit, includes, has_id}
use marketplace_api.Auth.Tokens.{AccessPrincipal, Jwt, KeyStore, verify_access}
use marketplace_api.Redis.{Redis}
use marketplace_api.Store.{Db, User}
use marketplace_api.Store.Tx.{ok}
use marketplace_api.Prelude.{
  Option-cases, Text, [], arith, false, inl, inr, some, true, ℕ, ◌≡◌, ◌⊎◌, List-cases, Option, none,
  ◌≢◌,
}
use marketplace_api.Sql.{find}

module _ {Key : Type 0} (jwt : Jwt Key) (ks : KeyStore Key) (now_ms : ℕ) where
  -- What an admitted request of a protected route has shown.
  pub record Admitted (d : Denylist) (db : Db) (r : Request) (p : AccessPrincipal) : Type 0 where
    pub token : Text
    pub revoked : Redis Text
    pub presented : bearer_token r.authorization ≡ some token
    pub verified : verify_access jwt ks now_ms token ≡ some p
    pub reachable : d ≡ some revoked
    pub allowed : is_denied p.jti p.family_id now_ms revoked ≡ false
    pub entitled :
        (r.required_roles ≡ [])
        ⊎ ((u : User) × (find (has_id p.user_id) db.users ≡ some u)
            × (includes r.required_roles u.role ≡ true))

  authorize-ok :
      (db : Db) (r : Request) (p : AccessPrincipal)
      → r.is_http ≡ true
      → authorize db r (some p) ≡ ok tt
      → (r.required_roles ≡ [])
        ⊎ ((u : User) × (find (has_id p.user_id) db.users ≡ some u)
            × (includes r.required_roles u.role ≡ true))
  unfolding authorize
  authorize-ok db r p http h = elim (Option-cases (find (has_id p.user_id) db.users)) [
    | inl e ↦ inl (ground arith)
    | inr (u, e) ↦ elim (List-cases r.required_roles) [
      | inl none_required ↦ inl none_required
      | inr (x, xs, q) ↦ inr (u, e, ground arith)
    ]
  ]

  -- A protected HTTP request is admitted only with a bearer token that verifies, a denylist that
  -- can be reached and denies neither the token nor its family, and, where the route requires
  -- roles, a user in the table whose role is one of them.
  pub admit-Admitted :
      (d : Denylist) (db : Db) (r : Request) (p : Option AccessPrincipal)
      → r.is_http ≡ true
      → r.is_public ≡ false
      → admit jwt ks now_ms d db r ≡ ok p
      → (q : AccessPrincipal) × (p ≡ some q) × Admitted d db r q
  unfolding admit
  admit-Admitted d db r p http private h = elim (Option-cases (bearer_token r.authorization)) [
    | inl e ↦ absurd (ground arith)
    | inr (token, e) ↦ elim (Option-cases (verify_access jwt ks now_ms token)) [
      | inl v ↦ absurd (ground arith)
      | inr (q, v) ↦ elim (Option-cases d) [
        | inl x ↦ absurd (ground arith)
        | inr (s, x) ↦ (
          q,
          ground arith,
          record {
            token = token;
            revoked = s;
            presented = e;
            verified = v;
            reachable = x;
            allowed = ground arith;
            entitled = authorize-ok db r q http (ground arith);
          },
        )
      ]
    ]
  ]

  -- With the denylist out of reach no protected HTTP request is admitted.
  admit-fail_closed :
      (db : Db) (r : Request) (p : Option AccessPrincipal)
      → r.is_http ≡ true
      → r.is_public ≡ false
      → admit jwt ks now_ms none db r ≢ ok p
  unfolding admit
  admit-fail_closed db r p http private h = ground arith
