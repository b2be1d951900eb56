-- ===== src/RateLimit/Bound.antt =====
-- What the sliding window promises: never more than the limit within any window.
use marketplace_api.Prelude.{
  Bool, List, [], arith, if◌then◌else◌, leb, length, ltb, true, ℕ, ◌&&◌, ◌+◌, ◌<◌, ◌∷◌, ◌≡◌, ◌≤◌,
  Bool-cases, false, inl, inr, refl, some, ◌∙◌,
}
use marketplace_api.Store.Tx.{Result, ok, err}
use marketplace_api.RateLimit.Window.{
  consume, LimitResult, is_live, oldest, sliding_window_lua, oldest_of,
}
use marketplace_api.Sql.{select, affected}
use marketplace_api.Pagination.Order.{select-select}

-- The times of the calls that were allowed, newest first.
abbrev pub logged : ℕ → Result LimitResult → List ℕ → List ℕ
logged t (ok r) log = if r.allowed then t ∷ log else log
logged t (err e) log = log

-- Calls with one key at their times.
unfoldable pub serve : Bool → ℕ → ℕ → List ℕ → List ℕ → List ℕ → List ℕ
unfolding consume
serve fail_open window limit [] scores log = log
serve fail_open window limit (t ∷ ts) scores log =
    let out = consume fail_open window limit true t scores in
    serve fail_open window limit ts out.1 (logged t out.0 log)

-- The clock of Redis does not go back.
abbrev pub IsForward : ℕ → List ℕ → Type 0
IsForward from [] = Unit
IsForward from (t ∷ ts) = (from ≤ t) × IsForward t ts

abbrev pub within : ℕ → ℕ → ℕ → Bool
within start window t = leb start t && ltb t (start + window)

-- The set and the log agree on what is in the window from now on.
record IsTracked (window limit now : ℕ) (scores log : List ℕ) : Type 0 where
  pub tracks :
      (later : ℕ)
      → now ≤ later
      → select (is_live window later) scores ≡ select (is_live window later) log
  pub bounded : (start : ℕ) → affected (within start window) log ≤ limit

affected-select-le :
    (p q : ℕ → Bool)
    → ((a : ℕ) → p a ≡ true → q a ≡ true)
    → (xs : List ℕ) → affected p xs ≤ length (select q xs)
affected-select-le p q imp [] = omega arith
affected-select-le p q imp (x ∷ xs) = ground (arith, imp x, affected-select-le p q imp xs)

later-live :
    (window now later : ℕ) (xs : List ℕ)
    → now ≤ later
    → select (is_live window later) (select (is_live window now) xs)
      ≡ select (is_live window later) xs
later-live window now later xs h =
    select-select (is_live window now) (is_live window later) (λ a k. ground arith) xs

few-within :
    (window limit now from start : ℕ) (scores log : List ℕ)
    → IsTracked window limit from scores log
    → from ≤ now
    → now < start + window
    → affected (within start window) log ≤ length (select (is_live window now) scores)
few-within window limit now from start scores log s h k =
    rw (s.tracks now h)
      (affected-select-le (within start window) (is_live window now) (λ a w. ground arith) log)

grant-IsTracked :
    (window limit now from : ℕ) (scores log : List ℕ)
    → IsTracked window limit from scores log
    → from ≤ now
    → length (select (is_live window now) scores) < limit
    → IsTracked window limit now (now ∷ select (is_live window now) scores) (now ∷ log)
grant-IsTracked window limit now from scores log s h room = record {
  tracks =
      λ later k. ground (arith, later-live window now later scores k, s.tracks later (omega arith));
  bounded = λ start. elim (Bool-cases (within start window now)) [
    | inl y ↦ ground (arith, y, few-within window limit now from start scores log s h)
    | inr n ↦ ground (arith, n, s.bounded start)
  ];
}

refuse-IsTracked :
    (window limit now from : ℕ) (scores log : List ℕ)
    → IsTracked window limit from scores log
    → from ≤ now
    → IsTracked window limit now (select (is_live window now) scores) log
refuse-IsTracked window limit now from scores log s h = record {
  tracks = λ later k. later-live window now later scores k ∙ s.tracks later (omega arith);
  bounded = s.bounded;
}

-- A set that is full has a member, so the script does not fail.
full-oldest :
    (limit : ℕ) (scores : List ℕ)
    → 0 < limit
    → ltb (length scores) limit ≡ false
    → (o : ℕ) × (oldest scores ≡ some o)
full-oldest limit [] h k = absurd (ground arith)
full-oldest limit (x ∷ xs) h k = (oldest_of x xs, refl)

consume-IsTracked :
    (fail_open : Bool) (window limit now from : ℕ) (scores log : List ℕ)
    → 0 < limit
    → IsTracked window limit from scores log
    → from ≤ now
    → let out = consume fail_open window limit true now scores in
      IsTracked window limit now out.1 (logged now out.0 log)
unfolding consume sliding_window_lua
consume-IsTracked fail_open window limit now from scores log positive s h =
    elim (Bool-cases (ltb (length (select (is_live window now) scores)) limit)) [
      | inl room ↦ rw room (grant-IsTracked window limit now from scores log s h (ground arith))
      | inr full ↦
          let (o, e) = full-oldest limit (select (is_live window now) scores) positive full in
          rw (full, e) (refuse-IsTracked window limit now from scores log s h)
    ]

serve-bounded :
    (fail_open : Bool) (window limit from start : ℕ) (ts scores log : List ℕ)
    → 0 < limit
    → IsForward from ts
    → IsTracked window limit from scores log
    → affected (within start window) (serve fail_open window limit ts scores log) ≤ limit
unfolding serve
serve-bounded fail_open window limit from start [] scores log positive f s = s.bounded start
serve-bounded fail_open window limit from start (t ∷ ts) scores log positive f s =
    serve-bounded fail_open window limit t start ts _ _ positive f.1
      (consume-IsTracked fail_open window limit t from scores log positive s f.0)

-- For calls with one key at times that do not go back, with a limit of at least 1 and Redis in
-- reach: in each interval as long as the window, wherever it starts, at most `limit` calls are
-- allowed.
pub serve-within :
    (fail_open : Bool) (window limit start : ℕ) (ts : List ℕ)
    → 0 < limit
    → IsForward 0 ts
    → affected (within start window) (serve fail_open window limit ts [] []) ≤ limit
serve-within fail_open window limit start ts positive f =
    serve-bounded fail_open window limit 0 start ts [] [] positive f
      (record { tracks = λ later h. refl; bounded = λ a. omega arith })
