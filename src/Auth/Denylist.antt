-- ===== src/Auth/Denylist.antt =====
-- src/auth/access-denylist.ts. Times of tokens are in seconds, the clock is in milliseconds.
use marketplace_api.Auth.Constants.{access_ttl_sec}
use marketplace_api.Redis.{Redis, exists, set}
use marketplace_api.Prelude.{
  Bool, Text, arith, false, if◌then◌else◌, text, true, ℕ, ◌*◌, ◌++◌, ◌+◌, ◌-◌, ◌/◌, ◌<◌, ◌==◌, ◌||◌,
  ◌≡◌, ◌≤◌,
}

abbrev pub deny_jti_key : Text → Text
deny_jti_key jti = text "deny:jti:" ++ jti

abbrev pub deny_family_key : Text → Text
deny_family_key family_id = text "deny:fam:" ++ family_id

-- Math.ceil(expiresAtSec - nowMs / 1000), or 0 where that is not positive
abbrev pub remaining_sec : ℕ → ℕ → ℕ
remaining_sec expires_at_sec now_ms = (expires_at_sec * 1000 - now_ms + 999) / 1000

-- `revokeAccess`
unfoldable pub revoke_access : Text → ℕ → ℕ → Redis Text → Redis Text × Bool
revoke_access jti expires_at_sec now_ms s =
    if remaining_sec expires_at_sec now_ms == 0 then (s, false) else (
      set now_ms (deny_jti_key jti) (text "1") (remaining_sec expires_at_sec now_ms * 1000) s,
      true,
    )

-- `revokeFamily`
unfoldable pub revoke_family : Text → ℕ → Redis Text → Redis Text
revoke_family family_id now_ms s =
    set now_ms (deny_family_key family_id) (text "1") (access_ttl_sec * 1000) s

-- `isDenied`
unfoldable pub is_denied : Text → Text → ℕ → Redis Text → Bool
is_denied jti family_id now_ms s =
    exists now_ms (deny_jti_key jti) s || exists now_ms (deny_family_key family_id) s

-- A revoked access token is denied for the rest of its life, whatever its family: at each moment
-- from the revocation until the token's own expiry.
pub is_denied-revoke_access :
    (jti family_id : Text) (expires_at_sec now_ms later : ℕ) (s : Redis Text)
    → later < expires_at_sec * 1000
    → now_ms ≤ later
    → is_denied jti family_id later (revoke_access jti expires_at_sec now_ms s).0 ≡ true
unfolding is_denied revoke_access
is_denied-revoke_access jti family_id expires_at_sec now_ms later s h k = ground (arith)

-- A revoked family denies each access token of the family that was issued by then, for the rest of
-- its life: such a token ends at most the access lifetime after the revocation.
pub is_denied-revoke_family :
    (jti family_id : Text) (issued_ms expires_at_ms now_ms later : ℕ) (s : Redis Text)
    → issued_ms ≤ now_ms
    → expires_at_ms ≤ issued_ms + access_ttl_sec * 1000
    → later < expires_at_ms
    → is_denied jti family_id later (revoke_family family_id now_ms s) ≡ true
unfolding is_denied revoke_family
is_denied-revoke_family jti family_id issued_ms expires_at_ms now_ms later s h k l = ground (arith)
