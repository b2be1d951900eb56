-- ===== src/Auth/RefreshTokens/Rotation.antt =====
-- Every operation on refresh tokens keeps the table sound.
use marketplace_api.Auth.RefreshTokens.{
  is_used, is_revoked, in_live_family, set_revoked, set_used, has_hash, first_row, next_row,
  insert_token, issue, replace_token, rotate_row, rotate, matches_token_pattern, RotationResult,
  rotated, owner_of,
}
use marketplace_api.Auth.RefreshTokens.Invariant.{
  IsSound, is_active_in, update-IsSound, set_used-Lowers, set_revoked-Lowers, append-IsSound,
}
use marketplace_api.Sql.{find, update, affected, affected-update-lt, contains}
use marketplace_api.Store.{Db, RefreshToken}
use marketplace_api.Store.Tx.{ok, err, Result, transaction, commit, ◌>>=◌}
use marketplace_api.Prelude.{
  Bool-cases, Text, [], false, inl, inr, leb, some, ℕ, ◌++◌, ◌∷◌, ◌≡◌, Option-cases, arith, ◌==◌,
}

-- The tables after a body, or the old ones where it fails.
abbrev pub KeepsSound : {A : Type 0} → Db → Result (A × Db) → Type 0
KeepsSound db (ok (a, db')) = IsSound db'.refresh_tokens
KeepsSound db (err e) = Unit

commit-IsSound :
    {A : Type 0} (db : Db) (r : Result (A × Db))
    → IsSound db.refresh_tokens
    → KeepsSound db r
    → IsSound (commit db r).1.refresh_tokens
commit-IsSound db (ok (a, db')) s k = k
commit-IsSound db (err e) s k = s

insert-KeepsSound :
    (r : RefreshToken) (db : Db)
    → IsSound (db.refresh_tokens ++ r ∷ [])
    → KeepsSound db (insert_token r db)
unfolding insert_token
insert-KeepsSound r db s = elim (Bool-cases (contains (has_hash r.token_hash) db.refresh_tokens)) [
  | inl c ↦ rw c tt
  | inr c ↦ rw c s
]

then-KeepsSound :
    (db : Db) (v : RotationResult) (r : Result (Unit {0} × Db))
    → KeepsSound db r
    → KeepsSound db (((λ d. r) >>= λ x d. ok (v, d)) db)
then-KeepsSound db v (ok (a, db')) k = k
then-KeepsSound db v (err e) k = tt

module _ (hash : Text → Text) (now : ℕ) where
  replace-KeepsSound :
      (row : RefreshToken) (key next : Text) (db : Db)
      → IsSound db.refresh_tokens
      → find (has_hash key) db.refresh_tokens ≡ some row
      → is_revoked row ≡ false
      → is_used row ≡ false
      → KeepsSound db (replace_token hash now row next db)
  unfolding replace_token
  replace-KeepsSound row key next db s e r u =
      let f = row.family_id in
      let rows = update (λ (t : RefreshToken). t.id == row.id) (set_used now) db.refresh_tokens in
      let lower =
        affected-update-lt (has_hash key) (is_active_in f) (λ t. t.id == row.id) (set_used now) row
          (λ t. ground arith) db.refresh_tokens e (ground arith) (ground arith) in
      let sound =
        append-IsSound (next_row db.next_uuid row (hash next) now) rows
          (update-IsSound (λ t. t.id == row.id) (set_used now) db.refresh_tokens
            (set_used-Lowers now) s)
          (omega arith) (omega (arith, lower, s.single f)) in
      then-KeepsSound db (rotated (owner_of row) next)
        (insert_token (next_row db.next_uuid row (hash next) now)
          (record db { refresh_tokens = rows }))
        (insert-KeepsSound (next_row db.next_uuid row (hash next) now)
          (record db { refresh_tokens = rows }) sound)

  rotate_row-KeepsSound :
      (row : RefreshToken) (key next : Text) (db : Db)
      → IsSound db.refresh_tokens
      → find (has_hash key) db.refresh_tokens ≡ some row
      → KeepsSound db (rotate_row hash now row next db)
  unfolding rotate_row
  rotate_row-KeepsSound row key next db s e = elim (Bool-cases (is_revoked row)) [
    | inl r ↦ rw r s
    | inr r ↦ elim (Bool-cases (is_used row)) [
      | inl u ↦
          rw (r, u)
            (update-IsSound (in_live_family row.family_id) (set_revoked now) db.refresh_tokens
              (set_revoked-Lowers now) s)
      | inr u ↦ elim (Bool-cases (leb row.expires_at now)) [
        | inl x ↦ rw (r, u, x) s
        | inr x ↦ rw (r, u, x) (replace-KeepsSound row key next db s e r u)
      ]
    ]
  ]

  -- A rotation, whatever it is given and however it ends, keeps every token within the absolute
  -- lifetime of its family, and at most one token of each family neither used nor revoked.
  pub rotate-IsSound :
      (token next : Text) (db : Db)
      → IsSound db.refresh_tokens
      → IsSound (rotate hash now token next db).1.refresh_tokens
  unfolding rotate
  rotate-IsSound token next db s = elim (Bool-cases (matches_token_pattern token)) [
    | inr n ↦ rw n s
    | inl y ↦ elim (Option-cases (find (has_hash (hash token)) db.refresh_tokens)) [
      | inl e ↦ rw (y, e) s
      | inr (row, e) ↦
          rw (y, e) (commit-IsSound db _ s (rotate_row-KeepsSound row (hash token) next db s e))
    ]
  ]

  -- The first token of a login, in a family that has no token in use, keeps every token within the
  -- absolute lifetime of its family, and at most one token of each family neither used nor revoked.
  pub issue-IsSound :
      (user : ℕ) (family token : Text) (db : Db)
      → IsSound db.refresh_tokens
      → affected (is_active_in family) db.refresh_tokens ≡ 0
      → IsSound (transaction (issue hash now user family token) db).1.refresh_tokens
  unfolding issue transaction
  issue-IsSound user family token db s fresh =
      let row = first_row db.next_uuid user family (hash token) now in
      commit-IsSound db _ s
        (insert-KeepsSound row db (append-IsSound row db.refresh_tokens s (omega arith) fresh))
