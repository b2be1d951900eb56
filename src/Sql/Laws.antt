-- ===== src/Sql/Laws.antt =====
-- How the statements act on one another.
use marketplace_api.Sql.Statements.{affected, find, select, update, contains}
use marketplace_api.Prelude.{
  Bool, true, false, List, [], ◌∷◌, ◌++◌, none, some, ◌≡◌, refl, arith, length, All, if◌then◌else◌,
  suc, ◌+◌, ◌≤◌, In,
}

module _ {ℓ} {A : Type ℓ} where
  pub select-append :
      (p : A → Bool) (xs ys : List A) → select p (xs ++ ys) ≡ select p xs ++ select p ys
  select-append p [] ys = refl
  select-append p (x ∷ xs) ys = ground (arith, select-append p xs ys)

  pub select-none : (p : A → Bool) (xs : List A) → contains p xs ≡ false → select p xs ≡ []
  select-none p [] h = refl
  select-none p (x ∷ xs) h = ground (arith, select-none p xs)

  pub find-append :
      (p : A → Bool) (xs ys : List A)
      → find p (xs ++ ys) ≡ elim (find p xs) [ none ↦ find p ys | some x ↦ some x ]
  find-append p [] ys = refl
  find-append p (x ∷ xs) ys = ground (arith, find-append p xs ys)

  pub find-holds : (p : A → Bool) (xs : List A) (a : A) → find p xs ≡ some a → p a ≡ true
  find-holds p [] a h = ground arith
  find-holds p (x ∷ xs) a h = ground (arith, find-holds p xs a)

  -- An update that another search does not see.
  pub find-update_other :
      (p q : A → Bool) (f : A → A)
      → ((a : A) → p (f a) ≡ p a)
      → ((a : A) → p a ≡ true → q a ≡ false)
      → (xs : List A) → find p (update q f xs) ≡ find p xs
  find-update_other p q f same apart [] = refl
  find-update_other p q f same apart (x ∷ xs) =
      ground (arith, same x, apart x, find-update_other p q f same apart xs)

  pub length-update : (p : A → Bool) (f : A → A) (xs : List A) → length (update p f xs) ≡ length xs
  length-update p f [] = refl
  length-update p f (x ∷ xs) = ground (arith, length-update p f xs)

  pub select-All : (p : A → Bool) (xs : List A) → All (λ a. p a ≡ true) (select p xs)
  select-All p [] = tt
  select-All p (x ∷ xs) = ground (arith, select-All p xs)

  -- A search that the change of the rows does not touch finds the row as it is after the update.
  pub find-update :
      (p q : A → Bool) (f : A → A)
      → ((a : A) → p (f a) ≡ p a)
      → (xs : List A)
      → find p (update q f xs)
        ≡ elim (find p xs) [ none ↦ none | some a ↦ some (if q a then f a else a) ]
  find-update p q f same [] = refl
  find-update p q f same (x ∷ xs) = ground (arith, same x, find-update p q f same xs)

  pub affected-append :
      (p : A → Bool) (xs ys : List A) → affected p (xs ++ ys) ≡ affected p xs + affected p ys
  affected-append p [] ys = omega arith
  affected-append p (x ∷ xs) ys = ground (arith, affected-append p xs ys)

  -- No row is left that meets the clause of an update which ends it.
  pub affected-update_self :
      (p : A → Bool) (f : A → A)
      → ((a : A) → p (f a) ≡ false)
      → (xs : List A) → affected p (update p f xs) ≡ 0
  affected-update_self p f ends [] = refl
  affected-update_self p f ends (x ∷ xs) = ground (arith, ends x, affected-update_self p f ends xs)

  -- An update that makes no row meet a clause does not raise its count.
  pub affected-update-le :
      (p q : A → Bool) (f : A → A)
      → ((a : A) → p (f a) ≡ true → p a ≡ true)
      → (xs : List A) → affected p (update q f xs) ≤ affected p xs
  affected-update-le p q f back [] = omega arith
  affected-update-le p q f back (x ∷ xs) = ground (arith, back x, affected-update-le p q f back xs)

  -- An update that ends the row which a search finds lowers the count.
  pub affected-update-lt :
      (s p q : A → Bool) (f : A → A) (a : A)
      → ((b : A) → p (f b) ≡ false)
      → (xs : List A) → find s xs ≡ some a
      → q a ≡ true
      → p a ≡ true
      → suc (affected p (update q f xs)) ≤ affected p xs
  affected-update-lt s p q f a ends [] e h k = absurd (cc)
  affected-update-lt s p q f a ends (x ∷ xs) e h k = ground (
    arith,
    ends x,
    affected-update-le p q f (λ b c. absurd (ground (arith, ends b))) xs,
    affected-update-lt s p q f a ends xs,
  )

  pub contains-affected : (p : A → Bool) (xs : List A) → contains p xs ≡ true → 1 ≤ affected p xs
  contains-affected p [] h = absurd (ground arith)
  contains-affected p (x ∷ xs) h = ground (arith, contains-affected p xs)

  pub free-affected : (p : A → Bool) (xs : List A) → contains p xs ≡ false → affected p xs ≡ 0
  free-affected p [] h = refl
  free-affected p (x ∷ xs) h = ground (arith, free-affected p xs)

  pub contains-append :
      (p : A → Bool) (xs : List A) (a : A)
      → contains p (xs ++ a ∷ []) ≡ (if contains p xs then true else p a)
  contains-append p [] a = ground arith
  contains-append p (x ∷ xs) a = ground (arith, contains-append p xs a)

  pub contains-append_left :
      (p : A → Bool) (xs ys : List A) → contains p xs ≡ true → contains p (xs ++ ys) ≡ true
  contains-append_left p [] ys h = absurd (ground arith)
  contains-append_left p (x ∷ xs) ys h = ground (arith, contains-append_left p xs ys)

  pub contains-update :
      (p q : A → Bool) (f : A → A)
      → ((a : A) → p (f a) ≡ p a)
      → (xs : List A) → contains p (update q f xs) ≡ contains p xs
  contains-update p q f same [] = refl
  contains-update p q f same (x ∷ xs) = ground (arith, same x, contains-update p q f same xs)

  pub All-update {κ} :
      (P : A → Type κ) (q : A → Bool) (f : A → A)
      → ((a : A) → P a → P (f a))
      → (xs : List A) → All P xs
      → All P (update q f xs)
  All-update P q f keeps [] h = tt
  All-update P q f keeps (x ∷ xs) h =
      ground (arith, keeps x h.0, h.0, All-update P q f keeps xs h.1)

module _ {A : Type 0} where
  pub In-select : (p : A → Bool) (a : A) (xs : List A) → In a (select p xs) → In a xs × (p a ≡ true)
  In-select p a [] h = absurd h
  In-select p a (x ∷ xs) h = ground (arith, In-select p a xs)

  pub In-select_intro :
      (p : A → Bool) (a : A) (xs : List A) → In a xs → p a ≡ true → In a (select p xs)
  In-select_intro p a [] h e = absurd h
  In-select_intro p a (x ∷ xs) h e = ground (arith, In-select_intro p a xs)
