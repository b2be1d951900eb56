-- ===== src/Auth/RefreshTokens/Reuse.antt =====
-- A refresh token that is presented a second time ends its family.
use marketplace_api.Auth.RefreshTokens.{
  Owner, rotated, owner_of, is_used, is_revoked, set_used, has_hash, next_row, rotate,
  matches_token_pattern, in_live_family, rejected, set_revoked, reused, revoked,
}
use marketplace_api.Sql.{
  find, update, contains, find-append, find-update, affected, affected-update_self,
}
use marketplace_api.Store.{Db, RefreshToken}
use marketplace_api.Store.Tx.{ok}
use marketplace_api.Prelude.{
  Bool-cases, List, Option-cases, Text, [], arith, false, inl, inr, some, true, ℕ, ◌++◌, ◌==◌, ◌∷◌,
  ◌≡◌, refl, text_eq_refl,
}

module _ (hash : Text → Text) where
  abbrev used_rows : ℕ → RefreshToken → List RefreshToken → List RefreshToken
  used_rows now row = update (λ (t : RefreshToken). t.id == row.id) (set_used now)

  -- What a rotation that succeeds has found and written.
  record Rotation (now : ℕ) (token next : Text) (db : Db) (o : Owner) (db' : Db) : Type 0 where
    row : RefreshToken
    formed : matches_token_pattern token ≡ true
    found : find (has_hash (hash token)) db.refresh_tokens ≡ some row
    live : is_revoked row ≡ false
    unused : is_used row ≡ false
    fresh : contains (has_hash (hash next)) (used_rows now row db.refresh_tokens) ≡ false
    owns : o ≡ owner_of row
    rows :
        db'.refresh_tokens
        ≡ used_rows now row db.refresh_tokens ++ next_row db.next_uuid row (hash next) now ∷ []

  rotated-inv :
      (now : ℕ) (token next n : Text) (db db' : Db) (o : Owner)
      → rotate hash now token next db ≡ (ok (rotated o n), db')
      → Rotation now token next db o db'
  unfolding rotate
  rotated-inv now token next n db db' o h = elim (Bool-cases (matches_token_pattern token)) [
    | inr no_match ↦ absurd (ground arith)
    | inl m ↦ elim (Option-cases (find (has_hash (hash token)) db.refresh_tokens)) [
      | inl e ↦ absurd (ground arith)
      | inr (row, e) ↦ record {
        row = row;
        formed = m;
        found = e;
        live = ground arith;
        unused = ground arith;
        fresh = ground arith;
        owns = ground arith;
        rows = ground arith;
      }
    ]
  ]

  found_used :
      (now : ℕ) (token next : Text) (db db' : Db) (o : Owner) (r : Rotation now token next db o db')
      → find (has_hash (hash token)) db'.refresh_tokens ≡ some (set_used now r.row)
  found_used now token next db db' o r =
      rw (r.rows, find-append (has_hash (hash token)) (used_rows now r.row db.refresh_tokens))
        (ground (
          arith,
          r.found,
          find-update (has_hash (hash token)) (λ t. t.id == r.row.id) (set_used now) (λ t. refl)
              db.refresh_tokens,
        ))

  found_next :
      (now later : ℕ) (token next : Text) (db db' : Db) (o : Owner)
      (r : Rotation now token next db o db')
      → find
          (has_hash (hash next))
          (update (in_live_family o.family_id) (set_revoked later) db'.refresh_tokens)
        ≡ some (set_revoked later (next_row db.next_uuid r.row (hash next) now))
  found_next now later token next db db' o r =
      rw
        (
          find-update (has_hash (hash next)) (in_live_family o.family_id) (set_revoked later)
              (λ t. refl) db'.refresh_tokens,
          r.rows,
          find-append (has_hash (hash next)) (used_rows now r.row db.refresh_tokens),
        )
        (ground (arith, r.fresh, r.owns, text_eq_refl r.row.family_id, text_eq_refl (hash next)))

  module _ (now later last : ℕ) (token next other another : Text) (db db' : Db) (o : Owner) where
    second_use :
        (r : Rotation now token next db o db')
        → rotate hash later token other db' ≡ (
          ok (rejected reused (some o) (affected (in_live_family o.family_id) db'.refresh_tokens)),
          record db' {
            refresh_tokens =
                update (in_live_family o.family_id) (set_revoked later) db'.refresh_tokens;
          },
        )
    unfolding rotate
    second_use r = ground (arith, r.formed, r.live, r.owns, found_used now token next db db' o r)

    third_use :
        (r : Rotation now token next db o db')
        → matches_token_pattern next ≡ true
        → (rotate hash last next another (record db' {
          refresh_tokens =
              update (in_live_family o.family_id) (set_revoked later) db'.refresh_tokens;
        })).0
          ≡ ok (rejected revoked (some o) 0)
    unfolding rotate
    third_use r m = ground (arith, m, r.owns, found_next now later token next db db' o r)

    -- After a token has been rotated, presenting it again at any later time is rejected as reuse,
    -- and commits the revocation of its family: no row of the family stays unrevoked, and the
    -- token that the rotation had issued is rejected as revoked, whenever it comes. The issued
    -- token has the form of a token.
    pub rotate-reuse :
        matches_token_pattern next ≡ true
        → rotate hash now token next db ≡ (ok (rotated o next), db')
        → let again = rotate hash later token other db' in
          (again.0
            ≡ ok (
                rejected reused
                  (some o)
                  (affected (in_live_family o.family_id) db'.refresh_tokens)))
          × (affected (in_live_family o.family_id) again.1.refresh_tokens ≡ 0)
          × ((rotate hash last next another again.1).0 ≡ ok (rejected revoked (some o) 0))
    rotate-reuse m h =
        let r = rotated-inv now token next next db db' o h in
        rw (second_use r) (
          refl,
          affected-update_self (in_live_family o.family_id) (set_revoked later) (λ t. ground arith)
              db'.refresh_tokens,
          third_use r m,
        )
