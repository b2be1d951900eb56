-- ===== src/Sql/Statements.antt =====
-- Rows by a WHERE clause: SELECT, the first row, UPDATE, and their counts.
use marketplace_api.Prelude.{ℕ, suc, Bool, List, [], ◌∷◌, Option, none, some, if◌then◌else◌}

module _ {ℓ} {A : Type ℓ} where
  -- SELECT ... WHERE, in the order of the table
  abbrev pub select : (A → Bool) → List A → List A
  select p [] = []
  select p (x ∷ xs) = if p x then x ∷ select p xs else select p xs

  -- the first row of SELECT ... WHERE
  abbrev pub find : (A → Bool) → List A → Option A
  find p [] = none
  find p (x ∷ xs) = if p x then some x else find p xs

  -- UPDATE ... SET ... WHERE
  abbrev pub update : (A → Bool) → (A → A) → List A → List A
  update p f [] = []
  update p f (x ∷ xs) = if p x then f x ∷ update p f xs else x ∷ update p f xs

  -- how many rows a WHERE clause meets
  abbrev pub affected : (A → Bool) → List A → ℕ
  affected p [] = 0
  affected p (x ∷ xs) = if p x then suc (affected p xs) else affected p xs

  -- whether a WHERE clause meets a row
  abbrev pub contains : (A → Bool) → List A → Bool
  contains p xs = elim (find p xs) [ none ↦ Bool.false | some _ ↦ Bool.true ]
