-- ===== src/Auth/Bearer.antt =====
-- BEARER_PATTERN, /^Bearer\s+(\S+)$/i, of src/auth/auth.guard.ts and src/orders/orders.gateway.ts.
use marketplace_api.Prelude.{
  Bool, Option, Text, [], arith, false, if◌then◌else◌, leb, none, refl, some, text, ℕ, ◌&&◌, ◌+◌,
  ◌==◌, ◌||◌, ◌∷◌, ◌≡◌, ◌≢◌, Option-cases, inl, inr,
}

-- \s, on the code points that a header can hold
abbrev pub is_space : ℕ → Bool
is_space c = (leb 9 c && leb c 13) || (c == 32 || c == 160)

-- A letter under the flag `i`: its small form is `l`.
abbrev pub same_letter : ℕ → ℕ → Bool
same_letter l c = c == l || c + 32 == l

-- The text behind a word, compared letter by letter.
abbrev pub after_word : Text → Text → Option Text
after_word [] s = some s
after_word (l ∷ ls) [] = none
after_word (l ∷ ls) (c ∷ s) = if same_letter l c then after_word ls s else none

abbrev pub skip_spaces : Text → Text
skip_spaces [] = []
skip_spaces (c ∷ s) = if is_space c then skip_spaces s else c ∷ s

abbrev pub has_space : Text → Bool
has_space [] = false
has_space (c ∷ s) = is_space c || has_space s

-- (\S+)$
abbrev pub whole_word : Text → Option Text
whole_word [] = none
whole_word (c ∷ s) = if has_space (c ∷ s) then none else some (c ∷ s)

-- \s+(\S+)$
abbrev pub spaced_word : Text → Option Text
spaced_word [] = none
spaced_word (c ∷ s) = if is_space c then whole_word (skip_spaces s) else none

unfoldable pub bearer_token : Text → Option Text
bearer_token header = elim (after_word (text "bearer") header) [
  | none ↦ none
  | some s ↦ spaced_word s
]

bearer_runs :
    (bearer_token (text "BeArer  abc") ≡ some (text "abc"))
    × (bearer_token (text "Bearer") ≡ none)
    × (bearer_token (text "Bearer a b") ≡ none)
    × (bearer_token (text "Basic abc") ≡ none)
unfolding bearer_token
bearer_runs = (refl, refl, refl, refl)

whole_word-NoSpace : (s w : Text) → whole_word s ≡ some w → (has_space w ≡ false) × (w ≢ [])
whole_word-NoSpace [] w h = absurd (cc)
whole_word-NoSpace (c ∷ s) w h = ground arith

spaced_word-NoSpace : (s w : Text) → spaced_word s ≡ some w → (has_space w ≡ false) × (w ≢ [])
spaced_word-NoSpace [] w h = absurd (cc)
spaced_word-NoSpace (c ∷ s) w h = ground (arith, whole_word-NoSpace (skip_spaces s) w)

-- A token that the pattern finds is not empty and holds no white space.
pub bearer_token-NoSpace :
    (header w : Text) → bearer_token header ≡ some w → (has_space w ≡ false) × (w ≢ [])
unfolding bearer_token
bearer_token-NoSpace header w h = elim (Option-cases (after_word (text "bearer") header)) [
  | inl e ↦ absurd (ground arith)
  | inr (s, e) ↦ spaced_word-NoSpace s w (ground arith)
]
