-- ===== src/Pagination/Walk.antt =====
-- Following the cursors from page to page meets every row once, in the order of the ids.
use mathlib.Core.Option
use mathlib.Core.Path.{subst}
use marketplace_api.Pagination.{Cursors, PaginatedResult}
use marketplace_api.Pagination.Keyset.{
  after_id, comes_after, sort_by_key, keyset_page, page_of, cursor_at, page_after, insert_by_key,
}
use marketplace_api.Sql.{select, select-All}
use marketplace_api.Store.Tx.{ok, err, Result}
use marketplace_api.Prelude.{
  Conversions, List, List-cases, Option, Text, [], ap, arith, inl, inr, length, none, refl, some,
  suc, take, zero, ℕ, ◌++◌, ◌∷◌, ◌≡◌, ◌≤◌, drop, if◌then◌else◌, last?, length-take, ltb, sym, true,
  ◌+◌, ◌∙◌, ◌<◌, Bool-cases, All, leb, ◌^◌,
}
use marketplace_api.Pagination.Order.{
  Keyed, take-take, select-sort, sort-Ascending, select-Ascending, All-last?, All-take,
  select-select, after-last?, Ascending-positive, last?-take, length-drop, take-append-drop,
  All-select,
}

module _ (conv : Conversions) (cursors : Cursors) {A : Type 0} (key : A → ℕ) where
  -- What a client does with the answer for a page: with a cursor in it, it asks for the next.
  abbrev pub follow : (Text → Option (List A)) → Result (PaginatedResult A) → Option (List A)
  follow next (err e) = none
  follow next (ok p) = elim p.next_cursor [
    | none ↦ some p.items
    | some c ↦ Option.map (λ rest. p.items ++ rest) (next c)
  ]

  -- A client that asks for page after page; `none` where a request fails or the fuel runs out.
  unfoldable pub walk : ℕ → ℕ → Option Text → List A → Option (List A)
  walk zero limit cursor visible = none
  walk (suc fuel) limit cursor visible =
      follow (λ c. walk fuel limit (some c) visible)
        (keyset_page conv cursors key limit cursor visible)

  abbrev rest_after : ℕ → List A → List A
  rest_after k visible =
      select (comes_after conv cursors key k) (sort_by_key conv cursors key visible)

  pub after_id-cursor :
      (k : ℕ) → k < 2 ^ 31 → after_id conv cursors (some (cursors.encode (conv.string k))) ≡ ok k
  after_id-cursor k small = elim (List-cases (cursors.encode (conv.string k))) [
    | inl e ↦ absurd (cursors.encode-ne-nil (conv.string k) e)
    | inr (c, cs, e) ↦ rw e (
        ground (
          arith,
          e,
          ap cursors.decode e,
          cursors.decode-encode (conv.string k),
          conv.number-string k,
          small,
        ))
  ]

  length-take-small : (n : ℕ) (xs : List A) → length xs ≤ n → take n xs ≡ xs
  length-take-small zero [] h = refl
  length-take-small zero (x ∷ xs) h = absurd (omega arith)
  length-take-small (suc n) [] h = refl
  length-take-small (suc n) (x ∷ xs) h = rw (length-take-small n xs (omega arith))

  page : ℕ → List A → PaginatedResult A
  page n rows = record {
    items = take n rows;
    next_cursor =
        if ltb n (length rows) then cursor_at conv cursors key (last? (take n rows)) else none;
  }

  page_of-take :
      (n : ℕ) (rows : List A) → page_of conv cursors key n (take (suc n) rows) ≡ page n rows
  unfolding page_of page
  page_of-take n rows = rw (take-take n rows) (ground (arith, length-take (suc n) rows))

  keyset_page-page :
      (n k : ℕ) (cursor : Option Text) (v : List A)
      → Keyed conv cursors key v
      → after_id conv cursors cursor ≡ ok k
      → keyset_page conv cursors key n cursor v ≡ ok (page n (rest_after k v))
  unfolding keyset_page
  keyset_page-page n k cursor v d e =
      let one : n + 1 ≡ suc n = omega arith in
      let sorted = select-sort conv cursors key (comes_after conv cursors key k) v d in
      let taken = page_of-take n (rest_after k v) in
      subst (λ r. page_after conv cursors key n v r ≡ ok (page n (rest_after k v))) (sym e)
        (rw (one, ← sorted) (ap ok taken))

  next_rest :
      (n k : ℕ) (v : List A) (l : A)
      → Keyed conv cursors key v
      → last? (take (suc n) (rest_after k v)) ≡ some l
      → rest_after (key l) v ≡ drop (suc n) (rest_after k v)
  next_rest n k v l d e =
      let rows = rest_after k v in
      let sorted = sort-Ascending conv cursors key v d in
      let asc = select-Ascending conv cursors key (comes_after conv cursors key k) _ sorted in
      let positive =
        All-last? (λ a. 0 < key a) (take (suc n) rows) l
          (All-take (λ a. 0 < key a) (suc n) rows (Ascending-positive conv cursors key rows asc))
          e in
      let past =
        All-last? (λ a. comes_after conv cursors key k a ≡ true) (take (suc n) rows) l
          (All-take (λ a. comes_after conv cursors key k a ≡ true) (suc n) rows
            (select-All (comes_after conv cursors key k) (sort_by_key conv cursors key v)))
          e in
      sym (
        select-select (comes_after conv cursors key k) (comes_after conv cursors key (key l))
          (λ a h. ground (arith, past, positive)) (sort_by_key conv cursors key v))
      ∙ after-last? conv cursors key n rows l asc e

  -- The ids fit in their int4 column.
  abbrev pub AllInt4 : List A → Type 0
  AllInt4 v = All (λ a. key a < 2 ^ 31) v

  insert-AllInt4 :
      (a : A) (xs : List A)
      → key a < 2 ^ 31
      → AllInt4 xs
      → AllInt4 (insert_by_key conv cursors key a xs)
  insert-AllInt4 a [] h k = (h, tt)
  insert-AllInt4 a (x ∷ xs) h k = elim (Bool-cases (leb (key a) (key x))) [
    | inl y ↦ rw y (h, k)
    | inr n ↦ rw n (k.0, insert-AllInt4 a xs h k.1)
  ]

  sort-AllInt4 : (xs : List A) → AllInt4 xs → AllInt4 (sort_by_key conv cursors key xs)
  sort-AllInt4 [] h = tt
  sort-AllInt4 (x ∷ xs) h = insert-AllInt4 x _ h.0 (sort-AllInt4 xs h.1)

  last-int4 :
      (n k : ℕ) (v : List A) (l : A)
      → AllInt4 v
      → last? (take n (rest_after k v)) ≡ some l
      → key l < 2 ^ 31
  last-int4 n k v l small =
      All-last? (λ a. key a < 2 ^ 31) (take n (rest_after k v)) l
        (All-take _ n (rest_after k v)
          (All-select _ (comes_after conv cursors key k) _ (sort-AllInt4 v small)))

  some_last : (n : ℕ) (xs : List A) → n < length xs → (l : A) × (last? (take (suc n) xs) ≡ some l)
  some_last n [] h = absurd (omega arith)
  some_last n (x ∷ xs) h = last?-take n x xs

  walk-step :
      (fuel k n : ℕ) (v : List A)
      → Keyed conv cursors key v
      → AllInt4 v
      → ((j : ℕ) (c : Option Text)
          → after_id conv cursors c ≡ ok j
          → length (rest_after j v) < fuel
          → walk fuel (suc n) c v ≡ some (rest_after j v))
      → length (rest_after k v) < suc fuel
      → follow (λ c. walk fuel (suc n) (some c) v) (ok (page (suc n) (rest_after k v)))
        ≡ some (rest_after k v)
  unfolding page
  walk-step fuel k n v d int4 again h = elim (Bool-cases (ltb (suc n) (length (rest_after k v)))) [
    | inl more ↦
        let (l, e) = some_last n (rest_after k v) (ground arith) in
        let next = next_rest n k v l d e in
        let cut = length-drop (suc n) (rest_after k v) in
        let ih =
          again (key l) (cursor_at conv cursors key (some l))
            (after_id-cursor (key l) (last-int4 (suc n) k v l int4 e)) in
        let small : length (rest_after (key l) v) < fuel = rw next (ground (arith, cut, h, more)) in
        rw (more, e, ih small, next) (ap some (take-append-drop (suc n) (rest_after k v)))
    | inr all ↦ rw all (ap some (length-take-small (suc n) (rest_after k v) (ground arith)))
  ]

  walk-from :
      (fuel n k : ℕ) (cursor : Option Text) (v : List A)
      → Keyed conv cursors key v
      → AllInt4 v
      → after_id conv cursors cursor ≡ ok k
      → length (rest_after k v) < fuel
      → walk fuel (suc n) cursor v ≡ some (rest_after k v)
  unfolding walk
  walk-from zero n k cursor v d int4 e h = absurd (omega arith)
  walk-from (suc fuel) n k cursor v d int4 e h =
      rw (keyset_page-page (suc n) k cursor v d e)
        (walk-step fuel k n v d int4 (λ j c f s. walk-from fuel n j c v d int4 f s) h)

  select-everything : (xs : List A) → select (comes_after conv cursors key 0) xs ≡ xs
  select-everything [] = refl
  select-everything (x ∷ xs) = rw (select-everything xs)

  length-insert :
      (a : A) (xs : List A) → length (insert_by_key conv cursors key a xs) ≡ suc (length xs)
  length-insert a [] = refl
  length-insert a (x ∷ xs) = ground (arith, length-insert a xs)

  length-sort : (xs : List A) → length (sort_by_key conv cursors key xs) ≡ length xs
  length-sort [] = refl
  length-sort (x ∷ xs) =
      ground (arith, length-insert x (sort_by_key conv cursors key xs), length-sort xs)

  -- For rows whose ids are positive, pairwise different and within an int4, and a page size of at least 1: a client
  -- that follows the cursors from the first page, and may ask more often than there are rows, gets
  -- all the rows, each once, in the order of their ids.
  pub walk_complete :
      (fuel n : ℕ) (v : List A)
      → Keyed conv cursors key v
      → AllInt4 v
      → length v < fuel
      → walk fuel (suc n) none v ≡ some (sort_by_key conv cursors key v)
  walk_complete fuel n v d int4 h =
      let all = select-everything (sort_by_key conv cursors key v) in
      let small = ap length all ∙ length-sort v in
      walk-from fuel n 0 none v d int4 refl (omega (arith, small, h)) ∙ ap some all
