-- ===== src/Auth/RefreshTokens.antt =====
-- src/auth/refresh-token.service.ts: one-use refresh tokens in families. `hash` is the keyed hash
-- that the service stores in place of a token; new tokens and family ids are arguments, since they
-- come from the random source.
pub mod RoundTrip
pub mod Invariant
pub mod Rotation
pub mod Reuse
mod Tests
use marketplace_api.Auth.Constants.{refresh_ttl_sec, refresh_absolute_ttl_sec}
use marketplace_api.Store.{Db, RefreshToken}
use marketplace_api.Store.Tx.{Tx, Result, ok, err, database_error, ◌>>=◌, ◌>>◌, transaction}
use marketplace_api.Prelude.{
  Bool, Option, Text, [], false, if◌then◌else◌, leb, length, min, none, not, some, suc, text_eq,
  true, ℕ, ◌&&◌, ◌++◌, ◌+◌, ◌==◌, ◌||◌, ◌∷◌,
}
use marketplace_api.Sql.{contains, affected, update, find}

-- `RejectReason`
pub data RejectReason : Type 0 where
  unknown revoked reused expired : RejectReason

pub record Owner : Type 0 where
  pub user_id : ℕ
  pub family_id : Text

-- `RotationResult`
pub data RotationResult : Type 0 where
  rotated : Owner → Text → RotationResult
  rejected : RejectReason → Option Owner → ℕ → RotationResult

-- [A-Za-z0-9_-]
abbrev pub is_base64url : ℕ → Bool
is_base64url c =
    (leb b'A' c && leb c b'Z')
    || ((leb b'a' c && leb c b'z') || ((leb b'0' c && leb c b'9') || (c == b'_' || c == b'-')))

abbrev pub all_base64url : Text → Bool
all_base64url [] = true
all_base64url (c ∷ cs) = is_base64url c && all_base64url cs

-- TOKEN_PATTERN, /^[A-Za-z0-9_-]{43}$/
unfoldable pub matches_token_pattern : Text → Bool
matches_token_pattern s = length s == 43 && all_base64url s

abbrev pub is_used : RefreshToken → Bool
is_used r = elim r.used_at [ none ↦ false | some t ↦ true ]

abbrev pub is_revoked : RefreshToken → Bool
is_revoked r = elim r.revoked_at [ none ↦ false | some t ↦ true ]

abbrev pub owner_of : RefreshToken → Owner
owner_of r = record { user_id = r.user_id; family_id = r.family_id }

-- WHERE family_id = $1 AND revoked_at IS NULL
abbrev pub in_live_family : Text → RefreshToken → Bool
in_live_family f r = text_eq r.family_id f && not (is_revoked r)

abbrev pub set_revoked : ℕ → RefreshToken → RefreshToken
set_revoked now r = record r { revoked_at = some now }

abbrev pub set_used : ℕ → RefreshToken → RefreshToken
set_used now r = record r { used_at = some now }

abbrev pub has_hash : Text → RefreshToken → Bool
has_hash h r = text_eq r.token_hash h

-- An INSERT into `refresh_tokens`, whose column `token_hash` is UNIQUE.
unfoldable pub insert_token : RefreshToken → Tx (Unit {0})
insert_token r db =
    if contains (has_hash r.token_hash) db.refresh_tokens
    then err database_error
    else ok (
      tt,
      record db { refresh_tokens = db.refresh_tokens ++ r ∷ []; next_uuid = suc db.next_uuid },
    )

-- `revokeFamily`: the number of rows that it revoked.
unfoldable pub revoke_family : ℕ → Text → Tx ℕ
revoke_family now f db = ok (
  affected (in_live_family f) db.refresh_tokens,
  record db { refresh_tokens = update (in_live_family f) (set_revoked now) db.refresh_tokens },
)

-- The row that a login adds.
abbrev pub first_row : ℕ → ℕ → Text → Text → ℕ → RefreshToken
first_row id user_id family_id token_hash now = record {
  id = id;
  user_id = user_id;
  family_id = family_id;
  token_hash = token_hash;
  used_at = none;
  revoked_at = none;
  expires_at = now + refresh_ttl_sec;
  family_started_at = now;
}

-- The row that a rotation adds: LEAST(now() + ttl, family_started_at + absolute ttl).
abbrev pub next_row : ℕ → RefreshToken → Text → ℕ → RefreshToken
next_row id old token_hash now = record {
  id = id;
  user_id = old.user_id;
  family_id = old.family_id;
  token_hash = token_hash;
  used_at = none;
  revoked_at = none;
  expires_at = min (now + refresh_ttl_sec) (old.family_started_at + refresh_absolute_ttl_sec);
  family_started_at = old.family_started_at;
}

module _ (hash : Text → Text) where
  -- `issue`
  unfoldable pub issue : ℕ → ℕ → Text → Text → Tx (Unit {0})
  unfolding insert_token
  issue now user_id family_id token db =
      insert_token (first_row db.next_uuid user_id family_id (hash token) now) db

  -- The two statements of a successful rotation.
  unfoldable pub replace_token : ℕ → RefreshToken → Text → Tx RotationResult
  unfolding insert_token
  replace_token now row next db =
      let used = record db {
        refresh_tokens = update (λ r. r.id == row.id) (set_used now) db.refresh_tokens;
      } in
      (insert_token (next_row db.next_uuid row (hash next) now) >> λ d.
      ok (rotated (owner_of row) next, d))
        used

  -- What becomes of the row that holds the presented token's hash.
  unfoldable pub rotate_row : ℕ → RefreshToken → Text → Tx RotationResult
  unfolding replace_token revoke_family
  rotate_row now row next db =
      if is_revoked row
      then ok (rejected revoked (some (owner_of row)) 0, db)
      else if is_used row
      then (revoke_family now row.family_id >>= λ n d.
            ok (rejected reused (some (owner_of row)) n, d))
          db
      else if leb row.expires_at now
      then ok (rejected expired (some (owner_of row)) 0, db)
      else replace_token now row next db

  -- `rotate`: a rejection is a value, so what it wrote is committed.
  unfoldable pub rotate : ℕ → Text → Text → Db → Result RotationResult × Db
  unfolding rotate_row matches_token_pattern transaction
  rotate now token next db =
      if matches_token_pattern token
      then transaction
          (λ d. elim (find (has_hash (hash token)) d.refresh_tokens) [
            | none ↦ ok (rejected unknown none 0, d)
            | some row ↦ rotate_row now row next d
          ])
          db
      else (ok (rejected unknown none 0), db)
