-- ===== src/Sessions/Cookie.antt =====
-- `readCookie`, `sessionMiddleware` and `startSession` of src/sessions/session-middleware.ts.
-- decodeURIComponent and trim are arguments; `none` where decoding throws.
use marketplace_api.Prelude.{
  List, Option, Text, [], if◌then◌else◌, none, some, text, text_eq, ℕ, ◌==◌, ◌∷◌, Bool, Conversions,
  ◌++◌,
}
use marketplace_api.Store.Tx.{Result, err, ok, internal_error}
use marketplace_api.Sessions.Store.{Lifetimes, SessionData, get_session, create_session}
use marketplace_api.Redis.{Redis}

-- header.split(';')
abbrev pub split_next : ℕ → ℕ → List Text → List Text
split_next sep c [] = (c ∷ []) ∷ []
split_next sep c (p ∷ ps) = if c == sep then [] ∷ p ∷ ps else (c ∷ p) ∷ ps

abbrev pub split_on : ℕ → Text → List Text
split_on sep [] = [] ∷ []
split_on sep (c ∷ cs) = split_next sep c (split_on sep cs)

-- The parts before and after the first '=', if there is one.
abbrev pub cons_before : ℕ → Option (Text × Text) → Option (Text × Text)
cons_before c none = none
cons_before c (some (a, b)) = some (c ∷ a, b)

abbrev pub cut_at : ℕ → Text → Option (Text × Text)
cut_at sep [] = none
cut_at sep (c ∷ cs) = if c == sep then some ([], cs) else cons_before c (cut_at sep cs)

-- The functions on texts that the code calls.
pub record UriText : Type 0 where
  pub trim : Text → Text
  pub decode_uri : Text → Option Text

module _ (u : UriText) where
  abbrev pub cookie_value : Text → Option Text → Result (Option Text)
  cookie_value raw none = err internal_error
  cookie_value raw (some v) = ok (some v)

  abbrev pub cookie_in : Text → Option (Text × Text) → Result (Option Text) → Result (Option Text)
  cookie_in name none rest = rest
  cookie_in name (some (k, v)) rest =
      if text_eq (u.trim k) name then cookie_value v (u.decode_uri (u.trim v)) else rest

  abbrev pub find_cookie : Text → List Text → Result (Option Text)
  find_cookie name [] = ok none
  find_cookie name (p ∷ ps) = cookie_in name (cut_at b'=' p) (find_cookie name ps)

  -- `readCookie`
  unfoldable pub read_cookie : Option Text → Text → Result (Option Text)
  read_cookie none name = ok none
  read_cookie (some []) name = ok none
  read_cookie (some (c ∷ cs)) name = find_cookie name (split_on b';' (c ∷ cs))

  module _ {V : Type 0} (l : Lifetimes) where
    -- The id, the session of the request, and whether the cookie is set anew.
    abbrev pub attach :
        Text
        → Option (SessionData V) × Redis (Option (SessionData V))
        → Result (Option (Text × SessionData V)) × Redis (Option (SessionData V))
    attach sid (none, s) = (ok none, s)
    attach sid (some d, s) = (ok (some (sid, d)), s)

    abbrev pub with_sid :
        ℕ
        → Result (Option Text)
        → Redis (Option (SessionData V))
        → Result (Option (Text × SessionData V)) × Redis (Option (SessionData V))
    with_sid now (err e) s = (err e, s)
    with_sid now (ok none) s = (ok none, s)
    with_sid now (ok (some [])) s = (ok none, s)
    with_sid now (ok (some (c ∷ cs))) s = attach (c ∷ cs) (get_session l now (c ∷ cs) s)

    -- `sessionMiddleware`: what it attaches to the request; a session found sets the cookie.
    unfoldable pub session_middleware :
        ℕ
        → Option Text
        → Redis (Option (SessionData V))
        → Result (Option (Text × SessionData V)) × Redis (Option (SessionData V))
    unfolding read_cookie get_session
    session_middleware now header s = with_sid now (read_cookie header (text "sid")) s

-- The header that `setSessionCookie` appends; `encode` is encodeURIComponent.
unfoldable pub session_cookie : Conversions → (Text → Text) → Bool → Text → ℕ → Text
session_cookie conv encode production sid ttl_sec =
    text "sid="
    ++ encode sid
    ++ text "; Max-Age="
    ++ conv.string ttl_sec
    ++ text "; Path=/; HttpOnly; SameSite=Lax"
    ++ (if production then text "; Secure" else [])

-- `startSession`: the id, the cookie, and the sessions; the id is random.
unfoldable pub start_session :
    {V : Type 0}
    → Conversions
    → (Text → Text)
    → Bool
    → Lifetimes
    → ℕ
    → Text
    → V
    → Redis (Option (SessionData V))
    → (Text × Text) × Redis (Option (SessionData V))
unfolding session_cookie create_session
start_session conv encode production l now sid values s =
    ((sid, session_cookie conv encode production sid l.ttl_sec), create_session l now sid values s)
