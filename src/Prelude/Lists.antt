-- ===== src/Prelude/Lists.antt =====
-- Lists measured and cut by native numbers, under the library's names.
use Prim.Native.Nat.{ℕ, zero, suc, ◌+◌, min}
use mathlib.Core.List.{List, [], ◌∷◌, ◌++◌, map}
use mathlib.Core.Logic.{◌⊎◌, inl, inr}
use mathlib.Core.Option.{Option, none, some, some-injective}
use mathlib.Core.Path.{◌≡◌, refl, ap, sym}
use native.Mathlib.Omega.{arith}

module _ {ℓ} {A : Type ℓ} where
  abbrev pub length : List A → ℕ
  length [] = 0
  length (x ∷ xs) = suc (length xs)

  abbrev pub take : ℕ → List A → List A
  take zero xs = []
  take (suc n) [] = []
  take (suc n) (x ∷ xs) = x ∷ take n xs

  abbrev pub drop : ℕ → List A → List A
  drop zero xs = xs
  drop (suc n) [] = []
  drop (suc n) (x ∷ xs) = drop n xs

  abbrev pub get_elem? : List A → ℕ → Option A
  get_elem? [] n = none
  get_elem? (x ∷ xs) zero = some x
  get_elem? (x ∷ xs) (suc n) = get_elem? xs n

  -- xs[n] = a
  abbrev pub set_at : ℕ → A → List A → List A
  set_at n a [] = []
  set_at zero a (x ∷ xs) = a ∷ xs
  set_at (suc n) a (x ∷ xs) = x ∷ set_at n a xs

  abbrev pub last? : List A → Option A
  last? [] = none
  last? (x ∷ []) = some x
  last? (x ∷ y ∷ ys) = last? (y ∷ ys)

  abbrev pub replicate : ℕ → A → List A
  replicate zero a = []
  replicate (suc n) a = a ∷ replicate n a

  abbrev pub sum_of : (A → ℕ) → List A → ℕ
  sum_of f [] = 0
  sum_of f (x ∷ xs) = f x + sum_of f xs

  -- A predicate at every element.
  abbrev pub All {κ} : (A → Type κ) → List A → Type κ
  All P [] = Unit
  All P (x ∷ xs) = P x × All P xs

  pub get_elem?-set_at :
      (n : ℕ) (x a : A) (xs : List A)
      → get_elem? xs n ≡ some x
      → get_elem? (set_at n a xs) n ≡ some a
  get_elem?-set_at n x a [] h = absurd (cc)
  get_elem?-set_at zero x a (y ∷ ys) h = refl
  get_elem?-set_at (suc n) x a (y ∷ ys) h = get_elem?-set_at n x a ys h

  pub set_at_same : (n : ℕ) (a : A) (xs : List A) → get_elem? xs n ≡ some a → set_at n a xs ≡ xs
  set_at_same n a [] h = refl
  set_at_same zero a (x ∷ xs) h = ap (λ y. y ∷ xs) (sym (some-injective x a h))
  set_at_same (suc n) a (x ∷ xs) h = ap (λ ys. x ∷ ys) (set_at_same n a xs h)

  pub get_elem?-set_at_other :
      (n m : ℕ) (a : A) (xs : List A) → ¬ (m ≡ n) → get_elem? (set_at n a xs) m ≡ get_elem? xs m
  get_elem?-set_at_other n m a [] ne = refl
  get_elem?-set_at_other zero zero a (x ∷ xs) ne = absurd (ne refl)
  get_elem?-set_at_other zero (suc m) a (x ∷ xs) ne = refl
  get_elem?-set_at_other (suc n) zero a (x ∷ xs) ne = refl
  get_elem?-set_at_other (suc n) (suc m) a (x ∷ xs) ne =
      get_elem?-set_at_other n m a xs (λ e. ne (ap suc e))

  pub All-set_at {κ} :
      (P : A → Type κ) (n : ℕ) (a : A) (xs : List A) → All P xs → P a → All P (set_at n a xs)
  All-set_at P n a [] h p = tt
  All-set_at P zero a (x ∷ xs) h p = (p, h.1)
  All-set_at P (suc n) a (x ∷ xs) h p = (h.0, All-set_at P n a xs h.1 p)

  pub length-append : (xs ys : List A) → length (xs ++ ys) ≡ length xs + length ys
  length-append [] ys = omega arith
  length-append (x ∷ xs) ys = omega (arith, length-append xs ys)

  pub length-take : (n : ℕ) (xs : List A) → length (take n xs) ≡ min n (length xs)
  length-take zero xs = omega arith
  length-take (suc n) [] = omega arith
  length-take (suc n) (x ∷ xs) = omega (arith, length-take n xs)

  pub length-replicate : (n : ℕ) (a : A) → length (replicate n a) ≡ n
  length-replicate zero a = refl
  length-replicate (suc n) a = ap suc (length-replicate n a)

  pub All-append {κ} : (P : A → Type κ) (xs ys : List A) → All P xs → All P ys → All P (xs ++ ys)
  All-append P [] ys h k = k
  All-append P (x ∷ xs) ys h k = (h.0, All-append P xs ys h.1 k)

  pub All-mono {κ μ} :
      (P : A → Type κ) (Q : A → Type μ)
      → ((a : A) → P a → Q a)
      → (xs : List A) → All P xs
      → All Q xs
  All-mono P Q f [] h = tt
  All-mono P Q f (x ∷ xs) h = (f x h.0, All-mono P Q f xs h.1)

module _ {ℓ κ} {A : Type ℓ} {B : Type κ} where
  pub length-map : (f : A → B) (xs : List A) → length (map f xs) ≡ length xs
  length-map f [] = refl
  length-map f (x ∷ xs) = ap suc (length-map f xs)

-- An element of a list, with its place.
module _ {A : Type 0} where
  abbrev pub In : A → List A → Type 0
  In a [] = ⊥
  In a (x ∷ xs) = (a ≡ x) ⊎ In a xs

  pub In-take : (n : ℕ) (a : A) (xs : List A) → In a (take n xs) → In a xs
  In-take zero a xs h = absurd h
  In-take (suc n) a [] h = absurd h
  In-take (suc n) a (x ∷ xs) (inl e) = inl e
  In-take (suc n) a (x ∷ xs) (inr h) = inr (In-take n a xs h)

  pub All-In {κ} : (P : A → Type κ) (a : A) (xs : List A) → All P xs → In a xs → P a
  All-In P a [] h i = absurd i
  All-In P a (x ∷ xs) h (inl e) = rw e h.0
  All-In P a (x ∷ xs) h (inr i) = All-In P a xs h.1 i

  pub All-intro {κ} : (P : A → Type κ) (xs : List A) → ((a : A) → In a xs → P a) → All P xs
  All-intro P [] h = tt
  All-intro P (x ∷ xs) h = (h x (inl refl), All-intro P xs (λ a i. h a (inr i)))

  pub In-get_elem? : (n : ℕ) (a : A) (xs : List A) → get_elem? xs n ≡ some a → In a xs
  In-get_elem? n a [] h = absurd (cc)
  In-get_elem? zero a (x ∷ xs) h = inl (some-injective a x (sym h))
  In-get_elem? (suc n) a (x ∷ xs) h = inr (In-get_elem? n a xs h)

  pub In-append_left : (a : A) (xs ys : List A) → In a xs → In a (xs ++ ys)
  In-append_left a [] ys h = absurd h
  In-append_left a (x ∷ xs) ys (inl e) = inl e
  In-append_left a (x ∷ xs) ys (inr h) = inr (In-append_left a xs ys h)

  pub In-append_right : (a : A) (xs ys : List A) → In a ys → In a (xs ++ ys)
  In-append_right a [] ys h = h
  In-append_right a (x ∷ xs) ys h = inr (In-append_right a xs ys h)
