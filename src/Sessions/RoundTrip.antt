-- ===== src/Sessions/RoundTrip.antt =====
-- A session from its start to the next request of the client that holds its cookie.
use mathlib.Core.List.{append_assoc}
use marketplace_api.Sessions.Cookie.{with_sid, attach}
use marketplace_api.Redis.{Redis}
use marketplace_api.Prelude.{
  All, List, Text, [], ap, arith, false, none, refl, text, ℕ, ◌++◌, ◌==◌, ◌∙◌, ◌∷◌, ◌≡◌, Bool,
  Conversions, Option, Option-cases, inl, inr, some, text_eq_refl, true, ◌*◌, ◌+◌, ◌<◌, ◌≤◌,
  if◌then◌else◌, map,
}
use marketplace_api.Sessions.Cookie.{
  split_on, split_next, UriText, find_cookie, cut_at, session_cookie, read_cookie, cookie_in,
  session_middleware, start_session, with_sid, attach,
}
use marketplace_api.Store.Tx.{ok, Result}
use marketplace_api.Sessions.Store.{Lifetimes, SessionData, get_session, create_session}
use marketplace_api.Auth.RefreshTokens.{matches_token_pattern}
use marketplace_api.Sessions.Lifetime.{get_session-create_session, get_session-get_session}

abbrev HasNo : ℕ → Text → Type 0
HasNo sep s = All (λ c. (c == sep) ≡ false) s

abbrev first_part : List Text → Text
first_part [] = []
first_part (p ∷ ps) = p

-- The client keeps the part of the header Set-Cookie before the attributes.
abbrev pub kept_pair : Text → Text
kept_pair cookie = first_part (split_on b';' cookie)

-- A header with other cookies, and the pair that was kept.
abbrev pub cookie_header : Text → Text → Text
cookie_header others pair = others ++ (text "; " ++ pair)

split_next-append :
    (sep c : ℕ) (ps qs : List Text)
    → ¬ (ps ≡ [])
    → split_next sep c (ps ++ qs) ≡ split_next sep c ps ++ qs
split_next-append sep c [] qs full = absurd (full refl)
split_next-append sep c (p ∷ ps) qs full = ground arith

split_next-full : (sep c : ℕ) (ps : List Text) → ¬ (split_next sep c ps ≡ [])
split_next-full sep c [] e = absurd (cc)
split_next-full sep c (p ∷ ps) e = ground (arith, e)

split_on-full : (sep : ℕ) (s : Text) → ¬ (split_on sep s ≡ [])
split_on-full sep [] e = absurd (cc)
split_on-full sep (c ∷ s) e = split_next-full sep c (split_on sep s) e

split_next-separator : (sep : ℕ) (ps : List Text) → ¬ (ps ≡ []) → split_next sep sep ps ≡ [] ∷ ps
split_next-separator sep [] full = absurd (full refl)
split_next-separator sep (p ∷ ps) full = ground arith

split_on-separator : (sep : ℕ) (b : Text) → split_on sep (sep ∷ b) ≡ [] ∷ split_on sep b
split_on-separator sep b = split_next-separator sep (split_on sep b) (split_on-full sep b)

split_on-append :
    (sep : ℕ) (a b : Text) → split_on sep (a ++ sep ∷ b) ≡ split_on sep a ++ split_on sep b
split_on-append sep [] b = split_on-separator sep b
split_on-append sep (c ∷ a) b =
    ap (split_next sep c) (split_on-append sep a b)
    ∙ split_next-append sep c (split_on sep a) (split_on sep b) (split_on-full sep a)

split_on-free : (sep : ℕ) (s : Text) → HasNo sep s → split_on sep s ≡ s ∷ []
split_on-free sep [] h = refl
split_on-free sep (c ∷ s) h = rw (split_on-free sep s h.1) (ground (arith, h.0))

kept_pair-append : (a b : Text) → HasNo b';' a → kept_pair (a ++ b';' ∷ b) ≡ a
kept_pair-append a b h =
    ap first_part
      (split_on-append b';' a b ∙ ap (λ ps. ps ++ split_on b';' b) (split_on-free b';' a h))

-- The text goes on with a separator after the pair.
abbrev Begins : Text → Text → Type 0
Begins pair s = (b : Text) × (s ≡ pair ++ b';' ∷ b)

Begins-append : (pair s t : Text) → Begins pair s → Begins pair (s ++ t)
Begins-append pair s t (b, e) = (b ++ t, ap (λ x. x ++ t) e ∙ append_assoc pair (b';' ∷ b) t)

kept_pair-Begins : (pair s : Text) → HasNo b';' pair → Begins pair s → kept_pair s ≡ pair
kept_pair-Begins pair s h (b, e) = ap kept_pair e ∙ kept_pair-append pair b h

append-full : (a : Text) (c : ℕ) (b : Text) → ¬ (a ++ c ∷ b ≡ [])
append-full [] c b e = absurd (cc)
append-full (x ∷ a) c b e = absurd (cc)

read_cookie-full :
    (u : UriText) (name s : Text)
    → ¬ (s ≡ [])
    → read_cookie u (some s) name ≡ find_cookie u name (split_on b';' s)
unfolding read_cookie
read_cookie-full u name [] full = absurd (full refl)
read_cookie-full u name (c ∷ s) full = refl

module _ (u : UriText) (name : Text) where
  -- A part without the cookie hands the search on.
  cookie_in-pass :
      (o : Option (Text × Text)) (rest other : Result (Option Text))
      → cookie_in u name o rest ≡ ok none
      → (rest ≡ ok none) × (cookie_in u name o other ≡ other)
  cookie_in-pass none rest other h = (h, refl)
  cookie_in-pass (some (k, v)) rest other h = elim (Option-cases (u.decode_uri (u.trim v))) [
    | inl e ↦ ground (arith, e, h)
    | inr (d, e) ↦ ground (arith, e, h)
  ]

  -- A cookie that the first texts do not have is looked for in the others.
  find_cookie-append :
      (ps qs : List Text)
      → find_cookie u name ps ≡ ok none
      → find_cookie u name (ps ++ qs) ≡ find_cookie u name qs
  find_cookie-append [] qs h = refl
  find_cookie-append (p ∷ ps) qs h =
      let rest = cookie_in-pass (cut_at b'=' p) (find_cookie u name ps) in
      (rest (find_cookie u name (ps ++ qs)) h).1
      ∙ find_cookie-append ps qs (rest (find_cookie u name (ps ++ qs)) h).0

-- What the code relies on of trim and of the two functions on URIs: a cookie with an encoded id is
-- one part of a header, and its value is read back.
pub record IsUri (u : UriText) (encode : Text → Text) (sid : Text) : Type 0 where
  pub trims_name : u.trim (text " sid") ≡ text "sid"
  pub trims_value : u.trim (encode sid) ≡ encode sid
  pub decodes : u.decode_uri (encode sid) ≡ some sid
  pub one_part : HasNo b';' (encode sid)

module _ (u : UriText) (encode : Text → Text) (sid : Text) (uri : IsUri u encode sid) where
  kept_pair-session_cookie :
      (conv : Conversions) (production : Bool) (ttl_sec : ℕ)
      → kept_pair (session_cookie conv encode production sid ttl_sec) ≡ text "sid=" ++ encode sid
  unfolding session_cookie
  kept_pair-session_cookie conv production ttl_sec =
      kept_pair-Begins (text "sid=" ++ encode sid) _ (refl, (refl, (refl, (refl, uri.one_part))))
        (Begins-append (text "sid=" ++ encode sid) _ (if production then text "; Secure" else []) (
          Begins-append (text "sid=" ++ encode sid) _ (text "; Path=/; HttpOnly; SameSite=Lax") (
            Begins-append (text "sid=" ++ encode sid) _ (conv.string ttl_sec)
              (text " Max-Age=", refl))))

  own_part : find_cookie u (text "sid") (split_on b';' (text " sid=" ++ encode sid)) ≡ ok (some sid)
  own_part =
      ap (find_cookie u (text "sid")) (
        split_on-free b';' (text " sid=" ++ encode sid)
          (refl, (refl, (refl, (refl, (refl, uri.one_part))))))
      ∙ rw (uri.trims_name, uri.trims_value, uri.decodes)
          (ground (arith, text_eq_refl (text "sid")))

  read_cookie-kept :
      (others : Text)
      → find_cookie u (text "sid") (split_on b';' others) ≡ ok none
      → read_cookie u (some (cookie_header others (text "sid=" ++ encode sid))) (text "sid")
        ≡ ok (some sid)
  read_cookie-kept others none_there =
      read_cookie-full u (text "sid") (cookie_header others (text "sid=" ++ encode sid))
        (append-full others b';' (text " sid=" ++ encode sid))
      ∙ ap (find_cookie u (text "sid")) (split_on-append b';' others (text " sid=" ++ encode sid))
      ∙ find_cookie-append u (text "sid") (split_on b';' others) _ none_there
      ∙ own_part

-- Each request comes within the lifetime after the one before, and within the absolute lifetime.
abbrev pub Prompt : Lifetimes → ℕ → ℕ → List ℕ → Type 0
Prompt l began last [] = Unit
Prompt l began last (now ∷ later) =
    (now < last + l.ttl_sec * 1000)
    × (now ≤ began + l.absolute_ttl_sec * 1000)
    × Prompt l began now later

module _ {V : Type 0} (u : UriText) (l : Lifetimes) where
  with_sid-known :
      (now : ℕ) (sid : Text) (s : Redis (Option (SessionData V)))
      → matches_token_pattern sid ≡ true
      → (with_sid u l now (ok (some sid)) s).0 ≡ (attach u l sid (get_session l now sid s)).0
  unfolding matches_token_pattern
  with_sid-known now [] s form = absurd (ground (arith, form))
  with_sid-known now (c ∷ cs) s form = refl

  with_sid-store :
      (now : ℕ) (sid : Text) (s : Redis (Option (SessionData V)))
      → matches_token_pattern sid ≡ true
      → (with_sid u l now (ok (some sid)) s).1 ≡ (get_session l now sid s).1
  unfolding matches_token_pattern
  with_sid-store now [] s form = absurd (ground (arith, form))
  with_sid-store now (c ∷ cs) s form = attach-store (c ∷ cs) (get_session l now (c ∷ cs) s)
    where
      attach-store :
          (sid : Text) (g : Option (SessionData V) × Redis (Option (SessionData V)))
          → (attach u l sid g).1 ≡ g.1
      attach-store sid (none, r) = refl
      attach-store sid (some d, r) = refl

  -- Requests one after another with one header: what is attached to each.
  abbrev pub visit :
      Option Text
      → List ℕ
      → Redis (Option (SessionData V))
      → List (Result (Option (Text × SessionData V)))
  visit header [] s = []
  visit header (now ∷ later) s =
      (session_middleware u l now header s).0
      ∷ visit header later (session_middleware u l now header s).1

  attach-some :
      (sid : Text) (g : Option (SessionData V) × Redis (Option (SessionData V))) (d : SessionData V)
      → g.0 ≡ some d
      → (attach u l sid g).0 ≡ ok (some (sid, d))
  attach-some sid g d e = ground (arith, e)

module _ {V : Type 0} (u : UriText) (l : Lifetimes) (sid : Text) (d : SessionData V) where
  -- The session can be read for a lifetime after a time.
  abbrev Readable : ℕ → Redis (Option (SessionData V)) → Type 0
  Readable last s =
      (now : ℕ)
      → now < last + l.ttl_sec * 1000
      → now ≤ d.created_at + l.absolute_ttl_sec * 1000
      → (get_session l now sid s).0 ≡ some d

  visit-Prompt :
      (header : Option Text) (times : List ℕ) (last : ℕ) (s : Redis (Option (SessionData V)))
      → matches_token_pattern sid ≡ true
      → read_cookie u header (text "sid") ≡ ok (some sid)
      → Readable last s
      → Prompt l d.created_at last times
      → visit u l header times s ≡ map (λ now. ok (some (sid, d))) times
  unfolding session_middleware
  visit-Prompt header [] last s form there readable prompt = refl
  visit-Prompt header (now ∷ later) last s form there readable (soon, young, rest) =
      let first = readable now soon young in
      let s' = (get_session l now sid s).1 in
      let shown : (session_middleware u l now header s).0 ≡ ok (some (sid, d)) =
        ap (λ r. (with_sid u l now r s).0) there
        ∙ with_sid-known u l now sid s form
        ∙ attach-some u l sid (get_session l now sid s) d first in
      let store : (session_middleware u l now header s).1 ≡ s' =
        ap (λ r. (with_sid u l now r s).1) there ∙ with_sid-store u l now sid s form in
      let again : Readable now s' = λ next lt old.
        (get_session-get_session l now next sid d s s' (ap (λ x. (x, s')) first) lt old).1 in
      ap (λ x. x ∷ visit u l header later (session_middleware u l now header s).1) shown
      ∙ ap (λ x. ok (some (sid, d)) ∷ visit u l header later x) store
      ∙ ap (λ xs. ok (some (sid, d)) ∷ xs) (visit-Prompt header later now s' form there again rest)

-- A session that was started is attached, with the data of its start, to each request of the client
-- that carries its cookie among others, when each request comes within the lifetime after the one
-- before, and within the absolute lifetime. The id has the form of an id, and the other cookies of
-- the header are readable and none is named like it.
pub session_middleware-start_session :
    {V : Type 0} (u : UriText) (encode : Text → Text) (conv : Conversions) (production : Bool)
    (l : Lifetimes) (now : ℕ) (times : List ℕ) (sid others : Text) (values : V)
    (s : Redis (Option (SessionData V)))
    → IsUri u encode sid
    → matches_token_pattern sid ≡ true
    → find_cookie u (text "sid") (split_on b';' others) ≡ ok none
    → Prompt l now now times
    → let (given, s') = start_session conv encode production l now sid values s in
      visit u l (some (cookie_header others (kept_pair given.1))) times s'
      ≡ map (λ later. ok (some (sid, record { created_at = now; values = values }))) times
unfolding start_session
session_middleware-start_session u encode conv production l now times sid others values s uri form
      none_there prompt =
    let s' = create_session l now sid values s in
    let cookie = session_cookie conv encode production sid l.ttl_sec in
    let header : read_cookie u (some (cookie_header others (kept_pair cookie))) (text "sid")
        ≡ ok (some sid) =
      ap (λ q. read_cookie u (some (cookie_header others q)) (text "sid"))
        (kept_pair-session_cookie u encode sid uri conv production l.ttl_sec)
      ∙ read_cookie-kept u encode sid uri others none_there in
    visit-Prompt u l sid (record { created_at = now; values = values })
      (some (cookie_header others (kept_pair cookie))) times now s' form header
      (λ later lt old. (get_session-create_session l now later sid values s form lt old).0) prompt
