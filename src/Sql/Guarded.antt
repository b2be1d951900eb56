-- ===== src/Sql/Guarded.antt =====
-- A guarded decrement, UPDATE ... SET n = n - q WHERE key = k AND n >= q, over rows whose keys are
-- distinct: it lowers the amount of one row by exactly `q`, and never below zero.
use marketplace_api.Prelude.{
  ℕ, ◌+◌, ◌≤◌, Bool, ◌&&◌, List, [], ◌∷◌, Option, none, some, ◌≡◌, ◌≢◌, refl, arith, leb, ◌==◌, All,
  if◌then◌else◌,
}
use marketplace_api.Sql.Statements.{find, update}

module _ {A : Type 0} (key : A → ℕ) (amount : A → ℕ) (lower : ℕ → A → A) where
  abbrev pub has : ℕ → ℕ → A → Bool
  has k q a = key a == k && leb q (amount a)

  -- No row has the key.
  abbrev pub Absent : ℕ → List A → Type 0
  Absent k = All (λ a. key a ≢ k)

  pub Absent-eq : (j k : ℕ) (xs : List A) → j ≡ k → Absent j xs → Absent k xs
  Absent-eq j k xs e h = rw e at h

  abbrev pub Distinct : List A → Type 0
  Distinct [] = Unit
  Distinct (x ∷ xs) = Absent (key x) xs × Distinct xs

  -- The amount that the rows of one key hold.
  abbrev pub held : ℕ → List A → ℕ
  held k [] = 0
  held k (x ∷ xs) = (if key x == k then amount x else 0) + held k xs

  pub find-by_key : ℕ → List A → Option A
  find-by_key k = find (λ a. key a == k)

  module _ (keeps : (q : ℕ) (a : A) → key (lower q a) ≡ key a)
      (lowers : (q : ℕ) (a : A) → q ≤ amount a → amount (lower q a) + q ≡ amount a) where
    Absent-update : (k q : ℕ) (xs : List A) → Absent k xs → update (has k q) (lower q) xs ≡ xs
    Absent-update k q [] h = refl
    Absent-update k q (x ∷ xs) h = ground (arith, Absent-update k q xs h.1)

    Absent-find : (k q : ℕ) (xs : List A) → Absent k xs → find (has k q) xs ≡ none
    Absent-find k q [] h = refl
    Absent-find k q (x ∷ xs) h = ground (arith, Absent-find k q xs h.1)

    pub held-update_self :
        (k q : ℕ) (a : A) (xs : List A)
        → Distinct xs
        → find (has k q) xs ≡ some a
        → held k (update (has k q) (lower q) xs) + q ≡ held k xs
    held-update_self k q a [] d h = ground arith
    held-update_self k q a (x ∷ xs) d h = ground (
      arith,
      keeps q x,
      lowers q x,
      Absent-update k q xs,
      Absent-find k q xs,
      Absent-eq (key x) k xs,
      held-update_self k q a xs d.1,
    )

    pub held-update_other :
        (k j q : ℕ) (xs : List A) → j ≢ k → held j (update (has k q) (lower q) xs) ≡ held j xs
    held-update_other k j q [] h = refl
    held-update_other k j q (x ∷ xs) h = ground (arith, keeps q x, held-update_other k j q xs h)

    All-key-update :
        (j k q : ℕ) (xs : List A) → Absent j xs → Absent j (update (has k q) (lower q) xs)
    All-key-update j k q [] h = tt
    All-key-update j k q (x ∷ xs) h = ground (arith, keeps q x, All-key-update j k q xs h.1)

    pub update-Distinct :
        (k q : ℕ) (xs : List A) → Distinct xs → Distinct (update (has k q) (lower q) xs)
    update-Distinct k q [] d = tt
    update-Distinct k q (x ∷ xs) d = ground (
      arith,
      keeps q x,
      update-Distinct k q xs d.1,
      All-key-update (key x) k q xs d.0,
      Absent-eq (key x) (key (lower q x)) (update (has k q) (lower q) xs),
    )

    -- The guarded search sees the row of the key, if the row holds enough.
    pub find-has :
        (k q : ℕ) (xs : List A)
        → Distinct xs
        → find (has k q) xs ≡ elim (find (λ a. key a == k) xs) [
          | none ↦ none
          | some a ↦ (if leb q (amount a) then some a else none)
        ]
    find-has k q [] d = refl
    find-has k q (x ∷ xs) d =
        ground (arith, Absent-find k q xs, Absent-eq (key x) k xs, find-has k q xs d.1)
