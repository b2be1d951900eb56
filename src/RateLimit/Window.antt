-- ===== src/RateLimit/Window.antt =====
-- src/ratelimit/sliding-window-limiter.ts. The sorted set of a key is the list of its scores,
-- newest first; its members are random, so each call adds one. PEXPIRE drops a key when each of
-- its scores has left the window, which the next call would drop as well.
use marketplace_api.Prelude.{
  Bool, List, Option, [], false, if◌then◌else◌, length, ltb, none, some, true, ℕ, ◌+◌, ◌-◌, ◌/◌,
  ◌∷◌,
}
use marketplace_api.Sql.{select}
use marketplace_api.Store.Tx.{Result, ok, err, internal_error}

-- `LimitResult`
pub record LimitResult : Type 0 where
  pub allowed : Bool
  pub remaining : ℕ
  pub retry_after_sec : ℕ

-- What ZREMRANGEBYSCORE key -inf (now - window) leaves.
abbrev pub is_live : ℕ → ℕ → ℕ → Bool
is_live window now score = ltb now (score + window)

-- ZRANGE key 0 0
abbrev pub oldest_of : ℕ → List ℕ → ℕ
oldest_of o [] = o
oldest_of o (x ∷ xs) = oldest_of (if ltb x o then x else o) xs

abbrev pub oldest : List ℕ → Option ℕ
oldest [] = none
oldest (x ∷ xs) = some (oldest_of x xs)

-- What the script replies: 1, and how many calls are left; or 0, and the time to wait.
pub data Reply : Type 0 where
  granted : ℕ → Reply
  refused : ℕ → Reply

-- The last lines of the script; they fail on a set without a member.
abbrev pub refuse : ℕ → ℕ → Option ℕ → Option Reply
refuse window now none = none
refuse window now (some o) = some (refused (o + window - now))

-- SLIDING_WINDOW_LUA at a time in milliseconds
unfoldable pub sliding_window_lua : ℕ → ℕ → ℕ → List ℕ → Option Reply × List ℕ
sliding_window_lua window limit now scores =
    let live = select (is_live window now) scores in
    if ltb (length live) limit
    then (some (granted (limit - length live - 1)), now ∷ live)
    else (refuse window now (oldest live), live)

-- Math.max(1, Math.ceil(retryMs / 1000))
abbrev pub retry_sec : ℕ → ℕ
retry_sec ms = if ltb ((ms + 999) / 1000) 1 then 1 else (ms + 999) / 1000

-- `consume` on the reply, none where the call of Redis failed
abbrev pub limit_result : Bool → ℕ → Option Reply → Result LimitResult
limit_result fail_open limit (some (granted n)) =
    ok (record { allowed = true; remaining = n; retry_after_sec = 0 })
limit_result fail_open limit (some (refused ms)) =
    ok (record { allowed = false; remaining = 0; retry_after_sec = retry_sec ms })
limit_result fail_open limit none =
    if fail_open
    then ok (record { allowed = true; remaining = limit; retry_after_sec = 0 })
    else err internal_error

abbrev pub with_scores : Bool → ℕ → Option Reply × List ℕ → Result LimitResult × List ℕ
with_scores fail_open limit (r, scores) = (limit_result fail_open limit r, scores)

-- `consume`; a call while Redis cannot be reached changes no set.
unfoldable pub consume : Bool → ℕ → ℕ → Bool → ℕ → List ℕ → Result LimitResult × List ℕ
unfolding sliding_window_lua
consume fail_open window limit reachable now scores =
    if reachable
    then with_scores fail_open limit (sliding_window_lua window limit now scores)
    else (limit_result fail_open limit none, scores)
