-- ===== src/Auth/Guards.antt =====
-- src/auth/auth.guard.ts and src/auth/roles.guard.ts, the two global guards.

use marketplace_api.Auth.Denylist.{is_denied}
use marketplace_api.Auth.Tokens.{AccessPrincipal, Jwt, KeyStore, verify_access}
use marketplace_api.Redis.{Redis}
use marketplace_api.Store.{Db, User, UserRole, customer, seller, admin}
use marketplace_api.Store.Tx.{Result, ok, err, unauthorized, forbidden, service_unavailable}
use marketplace_api.Prelude.{
  Bool, List, Option, Text, [], false, if◌then◌else◌, none, not, some, true, ℕ, ◌==◌, ◌||◌, ◌∷◌,
}
use marketplace_api.Sql.{find}
pub mod Laws
use marketplace_api.Auth.Bearer.{bearer_token}

-- What the guards read of a request: whether it is HTTP, the metadata of its route, and its
-- header `Authorization`, empty where there is none.
pub record Request : Type 0 where
  pub is_http : Bool
  pub is_public : Bool
  pub required_roles : List UserRole
  pub authorization : Text

-- A guard lets a request pass, with the principal that it attaches, or throws.
abbrev pub Verdict : Type 0
Verdict = Result (Option AccessPrincipal)

-- The denylist as the guard meets it: it can be out of reach.
abbrev pub Denylist : Type 0
Denylist = Option (Redis Text)

module _ {Key : Type 0} (jwt : Jwt Key) (ks : KeyStore Key) (now_ms : ℕ) where
  -- `AuthGuard.canActivate`; a denylist out of reach refuses the request.
  unfoldable pub authenticate : Denylist → Request → Verdict
  unfolding verify_access bearer_token is_denied
  authenticate d r =
      if not r.is_http
      then ok none
      else if r.is_public
      then ok none
      else elim (bearer_token r.authorization) [
        | none ↦ err unauthorized
        | some token ↦ elim (verify_access jwt ks now_ms token) [
          | none ↦ err unauthorized
          | some p ↦ elim d [
            | none ↦ err service_unavailable
            | some s ↦
                (if is_denied p.jti p.family_id now_ms s then err unauthorized else ok (some p))
          ]
        ]
      ]

abbrev pub same_role : UserRole → UserRole → Bool
same_role customer customer = true
same_role seller seller = true
same_role admin admin = true
same_role _ _ = false

-- required.includes(role)
abbrev pub includes : List UserRole → UserRole → Bool
includes [] r = false
includes (x ∷ xs) r = same_role x r || includes xs r

abbrev pub has_id : ℕ → User → Bool
has_id i u = u.id == i

-- `RolesGuard.canActivate`: the role is the one in the table, not the one in the token.
unfoldable pub authorize : Db → Request → Option AccessPrincipal → Result (Unit {0})
authorize db r p = if not r.is_http then ok tt else elim r.required_roles [
  | [] ↦ ok tt
  | x ∷ xs ↦ elim p [
    | none ↦ err unauthorized
    | some q ↦ elim (find (has_id q.user_id) db.users) [
      | none ↦ err unauthorized
      | some u ↦ (if includes (x ∷ xs) u.role then ok tt else err forbidden)
    ]
  ]
]

module _ {Key : Type 0} (jwt : Jwt Key) (ks : KeyStore Key) (now_ms : ℕ) where
  -- Both guards, in the order of the module's providers.
  unfoldable pub admit : Denylist → Db → Request → Verdict
  unfolding authenticate authorize
  admit d db r = elim (authenticate jwt ks now_ms d r) [
    | err e ↦ err e
    | ok p ↦ elim (authorize db r p) [ err e ↦ err e | ok u ↦ ok p ]
  ]
