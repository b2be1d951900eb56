-- ===== src/Sessions/Lifetime.antt =====
-- How long a session can be read.
use marketplace_api.Prelude.{Text, none, some, true, ℕ, ◌*◌, ◌+◌, ◌<◌, ◌≡◌, ◌≤◌, Option, arith}
use marketplace_api.Sessions.Store.{
  Lifetimes, get_session, SessionData, create_session, destroy_session,
}
use marketplace_api.Auth.RefreshTokens.{matches_token_pattern}
use marketplace_api.Redis.{Redis}

module _ {V : Type 0} (l : Lifetimes) where
  -- A session that is read is not older than the absolute lifetime, and reading it prolongs it: it
  -- can be read again, with the same data, for a further lifetime, as long as it is not older than
  -- the absolute lifetime then.
  pub get_session-get_session :
      (now later : ℕ) (sid : Text) (d : SessionData V) (s s' : Redis (Option (SessionData V)))
      → get_session l now sid s ≡ (some d, s')
      → later < now + l.ttl_sec * 1000
      → later ≤ d.created_at + l.absolute_ttl_sec * 1000
      → (now ≤ d.created_at + l.absolute_ttl_sec * 1000) × ((get_session l later sid s').0 ≡ some d)
  unfolding get_session
  get_session-get_session now later sid d s s' h lt old = ground (arith, h)

  -- A session is readable from its creation for the lifetime, if that is within the absolute
  -- lifetime, and no more after it has been destroyed. Its id has the form of an id.
  pub get_session-create_session :
      (now later : ℕ) (sid : Text) (values : V) (s : Redis (Option (SessionData V)))
      → matches_token_pattern sid ≡ true
      → later < now + l.ttl_sec * 1000
      → later ≤ now + l.absolute_ttl_sec * 1000
      → let s' = create_session l now sid values s in
        ((get_session l later sid s').0 ≡ some (record { created_at = now; values = values }))
        × ((get_session l later sid (destroy_session l sid s')).0 ≡ none)
  unfolding get_session create_session destroy_session
  get_session-create_session now later sid values s m lt old = ground (arith, m)
