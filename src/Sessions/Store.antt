-- ===== src/Sessions/Store.antt =====
-- src/sessions/session-store.ts. What Redis keeps of a session is JSON; `none` stands for a stored
-- text that JSON.parse rejects. The random id is an argument.
use marketplace_api.Prelude.{Option, Text, if◌then◌else◌, ltb, none, some, text, ℕ, ◌*◌, ◌++◌, ◌+◌}
use marketplace_api.Redis.{Redis, set, del, get}
use marketplace_api.Auth.RefreshTokens.{matches_token_pattern}

abbrev pub session_ttl_sec : ℕ
session_ttl_sec = 1800

abbrev pub session_absolute_ttl_sec : ℕ
session_absolute_ttl_sec = 86400

-- `SessionData`
pub record SessionData (V : Type 0) : Type 0 where
  pub created_at : ℕ
  pub values : V

-- `SessionStoreOptions` with the defaults applied
pub record Lifetimes : Type 0 where
  pub ttl_sec : ℕ
  pub absolute_ttl_sec : ℕ

abbrev pub default_lifetimes : Lifetimes
default_lifetimes = record {
  ttl_sec = session_ttl_sec;
  absolute_ttl_sec = session_absolute_ttl_sec;
}

abbrev pub session_key : Text → Text
session_key sid = text "sess:" ++ sid

module _ {V : Type 0} (l : Lifetimes) where
  -- `create`, at a time in milliseconds
  unfoldable pub create_session :
      ℕ → Text → V → Redis (Option (SessionData V)) → Redis (Option (SessionData V))
  create_session now sid values s =
      set now (session_key sid) (some (record { created_at = now; values = values }))
        (l.ttl_sec * 1000) s

  -- What `get` does with a stored session that GETEX has prolonged.
  abbrev pub read_session :
      ℕ
      → Text
      → Option (Option (SessionData V))
      → Redis (Option (SessionData V))
      → Option (SessionData V) × Redis (Option (SessionData V))
  read_session now sid none s = (none, s)
  read_session now sid (some none) s = (none, del (session_key sid) s)
  read_session now sid (some (some d)) s =
      if ltb (d.created_at + l.absolute_ttl_sec * 1000) now
      then (none, del (session_key sid) s)
      else (some d, set now (session_key sid) (some d) (l.ttl_sec * 1000) s)

  -- `get`
  unfoldable pub get_session :
      ℕ
      → Text
      → Redis (Option (SessionData V))
      → Option (SessionData V) × Redis (Option (SessionData V))
  unfolding matches_token_pattern
  get_session now sid s =
      if matches_token_pattern sid
      then read_session now sid (get now (session_key sid) s) s
      else (none, s)

  -- `destroy`
  unfoldable pub destroy_session :
      Text → Redis (Option (SessionData V)) → Redis (Option (SessionData V))
  unfolding matches_token_pattern
  destroy_session sid s = if matches_token_pattern sid then del (session_key sid) s else s
