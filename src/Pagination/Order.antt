-- ===== src/Pagination/Order.antt =====
-- Rows in the strict order of their keys: what sorting and selecting make of them.
use marketplace_api.Pagination.Keyset.{insert_by_key, sort_by_key, comes_after}
use marketplace_api.Sql.{select}
use marketplace_api.Prelude.{
  All, All-mono, Bool, Conversions, List, [], arith, drop, if◌then◌else◌, last?, length, refl, some,
  suc, take, true, zero, ℕ, ◌++◌, ◌-◌, ◌<◌, ◌∷◌, ◌≡◌, ◌≢◌, ◌≤◌, ap,
}
use marketplace_api.Pagination.{Cursors}
use mathlib.Core.Option.{some-injective}
use mathlib.Core.Path.{subst}

module _ {A : Type 0} where
  pub All-select : (P : A → Type 0) (p : A → Bool) (xs : List A) → All P xs → All P (select p xs)
  All-select P p [] h = tt
  All-select P p (x ∷ xs) h = ground (arith, All-select P p xs h.1)

  pub All-take : (P : A → Type 0) (n : ℕ) (xs : List A) → All P xs → All P (take n xs)
  All-take P zero xs h = tt
  All-take P (suc n) [] h = tt
  All-take P (suc n) (x ∷ xs) h = (h.0, All-take P n xs h.1)

  pub All-last? : (P : A → Type 0) (xs : List A) (l : A) → All P xs → last? xs ≡ some l → P l
  All-last? P [] l h e = absurd (cc)
  All-last? P (x ∷ []) l h e = rw (← some-injective x l e) h.0
  All-last? P (x ∷ y ∷ ys) l h e = All-last? P (y ∷ ys) l h.1 e

  pub select-select :
      (p q : A → Bool)
      → ((a : A) → q a ≡ true → p a ≡ true)
      → (xs : List A) → select q (select p xs) ≡ select q xs
  select-select p q imp [] = refl
  select-select p q imp (x ∷ xs) = ground (arith, imp x, select-select p q imp xs)

  pub take-append-drop : (n : ℕ) (xs : List A) → take n xs ++ drop n xs ≡ xs
  take-append-drop zero xs = refl
  take-append-drop (suc n) [] = refl
  take-append-drop (suc n) (x ∷ xs) = rw (take-append-drop n xs)

  pub take-take : (n : ℕ) (xs : List A) → take n (take (suc n) xs) ≡ take n xs
  take-take zero xs = refl
  take-take (suc n) [] = refl
  take-take (suc n) (x ∷ xs) = rw (take-take n xs)

  pub length-drop : (n : ℕ) (xs : List A) → length (drop n xs) ≡ length xs - n
  length-drop zero xs = omega arith
  length-drop (suc n) [] = omega arith
  length-drop (suc n) (x ∷ xs) = omega (arith, length-drop n xs)

  pub last?-take :
      (n : ℕ) (x : A) (xs : List A) → (l : A) × (last? (take (suc n) (x ∷ xs)) ≡ some l)
  last?-take zero x xs = (x, refl)
  last?-take (suc n) x [] = (x, refl)
  last?-take (suc n) x (y ∷ ys) = last?-take n y ys

module _ (conv : Conversions) (cursors : Cursors) {A : Type 0} (key : A → ℕ) where
  abbrev sort : List A → List A
  sort = sort_by_key conv cursors key

  abbrev insert : A → List A → List A
  insert = insert_by_key conv cursors key

  abbrev after : ℕ → A → Bool
  after = comes_after conv cursors key

  abbrev pub Keyed : List A → Type 0
  Keyed [] = Unit
  Keyed (x ∷ xs) = (0 < key x) × All (λ a. key a ≢ key x) xs × Keyed xs

  abbrev pub Ascending : List A → Type 0
  Ascending [] = Unit
  Ascending (x ∷ xs) = (0 < key x) × All (λ a. key x < key a) xs × Ascending xs

  All-insert : (P : A → Type 0) (a : A) (xs : List A) → P a → All P xs → All P (insert a xs)
  All-insert P a [] h k = (h, tt)
  All-insert P a (x ∷ xs) h k = ground (arith, All-insert P a xs h k.1)

  All-sort : (P : A → Type 0) (xs : List A) → All P xs → All P (sort xs)
  All-sort P [] h = tt
  All-sort P (x ∷ xs) h = All-insert P x (sort xs) h.0 (All-sort P xs h.1)

  All-lt :
      (a x : A) (xs : List A)
      → key a ≤ key x
      → All (λ b. key x < key b) xs
      → All (λ b. key a < key b) xs
  All-lt a x xs h = All-mono (λ b. key x < key b) (λ b. key a < key b) (λ b k. omega arith) xs

  insert-Ascending :
      (a : A) (xs : List A)
      → 0 < key a
      → All (λ b. key b ≢ key a) xs
      → Ascending xs
      → Ascending (insert a xs)
  insert-Ascending a [] p d h = (p, tt, tt)
  insert-Ascending a (x ∷ xs) p d h =
      ground
        (arith, All-lt a x xs, insert-Ascending a xs p d.1, All-insert (λ b. key x < key b) a xs)

  pub sort-Ascending : (xs : List A) → Keyed xs → Ascending (sort xs)
  sort-Ascending [] h = tt
  sort-Ascending (x ∷ xs) (p, d, h) =
      insert-Ascending x (sort xs) p (All-sort (λ b. key b ≢ key x) xs d) (sort-Ascending xs h)

  All-le :
      (a x : A) (xs : List A)
      → key a ≤ key x
      → All (λ b. key x < key b) xs
      → All (λ b. key a ≤ key b) xs
  All-le a x xs h = All-mono (λ b. key x < key b) (λ b. key a ≤ key b) (λ b k. omega arith) xs

  insert-below : (a : A) (xs : List A) → All (λ b. key a ≤ key b) xs → insert a xs ≡ a ∷ xs
  insert-below a [] h = refl
  insert-below a (x ∷ xs) h = ground arith

  select-insert :
      (p : A → Bool) (a : A) (xs : List A)
      → Ascending xs
      → select p (insert a xs) ≡ (if p a then insert a (select p xs) else select p xs)
  select-insert p a [] h = refl
  select-insert p a (x ∷ xs) h = ground (
    arith,
    select-insert p a xs h.2,
    insert-below a (select p xs),
    All-select (λ b. key a ≤ key b) p xs,
    All-le a x xs,
  )

  pub select-sort :
      (p : A → Bool) (xs : List A) → Keyed xs → select p (sort xs) ≡ sort (select p xs)
  select-sort p [] h = refl
  select-sort p (x ∷ xs) h =
      rw (select-insert p x (sort xs) (sort-Ascending xs h.2))
        (ground (arith, select-sort p xs h.2))

  pub select-Ascending : (p : A → Bool) (xs : List A) → Ascending xs → Ascending (select p xs)
  select-Ascending p [] h = tt
  select-Ascending p (x ∷ xs) h =
      ground (arith, select-Ascending p xs h.2, All-select (λ b. key x < key b) p xs h.1)

  after-All : (k : ℕ) (xs : List A) → All (λ a. k < key a) xs → select (after k) xs ≡ xs
  after-All k [] h = refl
  after-All k (x ∷ xs) h = ground (arith, after-All k xs h.1)

  -- Behind the last row of a page stand exactly the rows that the page left.
  pub after-last? :
      (n : ℕ) (xs : List A) (l : A)
      → Ascending xs
      → last? (take (suc n) xs) ≡ some l
      → select (after (key l)) xs ≡ drop (suc n) xs
  after-last? n [] l h e = absurd (cc)
  after-last? zero (x ∷ xs) l h e =
      let same : x ≡ l = some-injective x l e in
      let above = subst (λ z. All (λ a. key z < key a) xs) same h.1 in
      ground (arith, same, ap key same, after-All (key l) xs above)
  after-last? (suc n) (x ∷ []) l h e =
      let same : x ≡ l = some-injective x l e in ground (arith, same, ap key same)
  after-last? (suc n) (x ∷ y ∷ ys) l h e =
      let below =
        All-last? (λ b. key x < key b) (take (suc n) (y ∷ ys)) l
          (All-take (λ b. key x < key b) (suc n) (y ∷ ys) h.1) e in
      let rest = after-last? n (y ∷ ys) l h.2 e in ground (arith, below, rest)

  pub Ascending-positive : (xs : List A) → Ascending xs → All (λ a. 0 < key a) xs
  Ascending-positive [] h = tt
  Ascending-positive (x ∷ xs) h = (h.0, Ascending-positive xs h.2)
