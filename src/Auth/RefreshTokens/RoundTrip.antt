-- ===== src/Auth/RefreshTokens/RoundTrip.antt =====
-- A token that a login issues can be exchanged once, while it lives.
use marketplace_api.Auth.Constants.{refresh_ttl_sec}
use marketplace_api.Auth.RefreshTokens.{
  rotated, has_hash, first_row, set_used, issue, rotate, matches_token_pattern,
}
use marketplace_api.Sql.{find, update, contains, find-append, find-update}
use marketplace_api.Store.{Db, RefreshToken}
use marketplace_api.Store.Tx.{ok}
use marketplace_api.Prelude.{
  Bool, List, Text, [], arith, false, refl, some, text_eq_refl, true, ℕ, ◌++◌, ◌+◌, ◌<◌, ◌==◌, ◌∷◌,
  ◌≡◌,
}

module _ (hash : Text → Text) (now later user : ℕ) (family token next : Text) (db db' : Db) where
  abbrev issued : RefreshToken
  issued = first_row db.next_uuid user family (hash token) now

  issued_rows :
      issue hash now user family token db ≡ ok (tt, db')
      → (contains (has_hash (hash token)) db.refresh_tokens ≡ false)
        × (db'.refresh_tokens ≡ db.refresh_tokens ++ issued ∷ [])
  unfolding issue
  issued_rows h = ground arith

  found_issued :
      issue hash now user family token db ≡ ok (tt, db')
      → find (has_hash (hash token)) db'.refresh_tokens ≡ some issued
  found_issued h =
      let (a, b) = issued_rows h in
      rw (b, find-append (has_hash (hash token)) db.refresh_tokens (issued ∷ []))
        (ground (arith, a, text_eq_refl (hash token)))

  still_free :
      (q : RefreshToken → Bool) (rows : List RefreshToken)
      → contains (has_hash (hash next)) rows ≡ false
      → contains (has_hash (hash next)) (update q (set_used later) rows) ≡ false
  still_free q rows h =
      ground (arith, find-update (has_hash (hash next)) q (set_used later) (λ t. refl) rows)

  -- The token of a login is accepted before its lifetime is over, for the user and in the family
  -- of that login, if it has the form of a token and the hash of the next token is free.
  rotate-issue :
      issue hash now user family token db ≡ ok (tt, db')
      → matches_token_pattern token ≡ true
      → later < now + refresh_ttl_sec
      → contains (has_hash (hash next)) db'.refresh_tokens ≡ false
      → (rotate hash later token next db').0
        ≡ ok (rotated (record { user_id = user; family_id = family }) next)
  unfolding rotate
  rotate-issue h m lt free =
      ground (arith, found_issued h, still_free (λ t. t.id == issued.id) db'.refresh_tokens free)
