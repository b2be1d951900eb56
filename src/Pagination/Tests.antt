-- ===== src/Pagination/Tests.antt =====
-- Rows and cursors that a walk reads page by page.
use marketplace_api.Pagination.{Cursors}
use marketplace_api.Pagination.Walk.{walk}
use marketplace_api.Pagination.Keyset.{keyset_page}
use marketplace_api.Prelude.{Option, Text, [], none, refl, some, unary, ℕ, ◌∷◌, ◌≡◌, ◌≢◌}

abbrev strip : Text → Option Text
strip [] = none
strip (c ∷ cs) = some cs

strip-mark : (t : Text) → b'c' ∷ t ≢ []
strip-mark t e = absurd (cc)

abbrev marked : Cursors
marked = record {
  encode = λ t. b'c' ∷ t;
  decode = strip;
  decode-encode = λ t. refl;
  encode-ne-nil = strip-mark;
}

abbrev own_key : ℕ → ℕ
own_key n = n

walked : walk unary marked own_key 4 2 none (5 ∷ 2 ∷ 9 ∷ []) ≡ some (2 ∷ 5 ∷ 9 ∷ [])
unfolding walk keyset_page unary
walked = refl
