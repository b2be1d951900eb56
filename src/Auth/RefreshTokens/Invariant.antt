-- ===== src/Auth/RefreshTokens/Invariant.antt =====
-- What holds of the table of refresh tokens through every operation.
use marketplace_api.Auth.Constants.{refresh_absolute_ttl_sec}
use marketplace_api.Auth.RefreshTokens.{
  is_used, is_revoked, set_used, set_revoked, insert_token, has_hash,
}
use marketplace_api.Sql.{find, update, affected, affected-update-le, affected-append, contains}
use marketplace_api.Store.{RefreshToken, Db}
use marketplace_api.Prelude.{
  All, Bool, List, Text, [], arith, not, some, text_eq, ◌&&◌, ◌+◌, ◌∷◌, ◌≡◌, ◌≤◌, All-append,
  Bool-cases, Text-discrete, inl, inr, true, ℕ, ◌++◌,
}
use marketplace_api.Store.Tx.{ok}

-- A token that a rotation would still accept, but for its expiry.
abbrev pub is_active_in : Text → RefreshToken → Bool
is_active_in f r = text_eq r.family_id f && (not (is_used r) && not (is_revoked r))

abbrev pub IsBounded : RefreshToken → Type 0
IsBounded r = r.expires_at ≤ r.family_started_at + refresh_absolute_ttl_sec

-- No family outlives its absolute limit, and none has two active tokens.
pub record IsSound (rows : List RefreshToken) : Type 0 where
  pub bounded : All IsBounded rows
  pub single : (f : Text) → affected (is_active_in f) rows ≤ 1

IsBounded-update :
    (q : RefreshToken → Bool) (g : RefreshToken → RefreshToken)
    → ((r : RefreshToken) → IsBounded r → IsBounded (g r))
    → (rows : List RefreshToken) → All IsBounded rows
    → All IsBounded (update q g rows)
IsBounded-update q g keep [] h = tt
IsBounded-update q g keep (r ∷ rows) h =
    ground (arith, keep r h.0, IsBounded-update q g keep rows h.1)

All-find :
    (p : RefreshToken → Bool) (r : RefreshToken) (rows : List RefreshToken)
    → All IsBounded rows
    → find p rows ≡ some r
    → IsBounded r
All-find p r [] h e = absurd (cc)
All-find p r (x ∷ rows) h e = ground (arith, h.0, All-find p r rows h.1)

-- A change of rows that raises no bound and makes no row active.
pub record Lowers (g : RefreshToken → RefreshToken) : Type 0 where
  pub keeps_bound : (r : RefreshToken) → IsBounded r → IsBounded (g r)
  pub keeps_inactive :
      (f : Text) (r : RefreshToken) → is_active_in f (g r) ≡ true → is_active_in f r ≡ true

pub set_used-Lowers : (now : ℕ) → Lowers (set_used now)
set_used-Lowers now = record { keeps_bound = λ r h. h; keeps_inactive = λ f r h. ground arith }

pub set_revoked-Lowers : (now : ℕ) → Lowers (set_revoked now)
set_revoked-Lowers now = record { keeps_bound = λ r h. h; keeps_inactive = λ f r h. ground arith }

pub update-IsSound :
    (q : RefreshToken → Bool) (g : RefreshToken → RefreshToken) (rows : List RefreshToken)
    → Lowers g
    → IsSound rows
    → IsSound (update q g rows)
update-IsSound q g rows l s = record {
  bounded = IsBounded-update q g l.keeps_bound rows s.bounded;
  single = λ f.
      omega (arith, affected-update-le (is_active_in f) q g (l.keeps_inactive f) rows, s.single f);
}

pub append-IsSound :
    (r : RefreshToken) (rows : List RefreshToken)
    → IsSound rows
    → IsBounded r
    → affected (is_active_in r.family_id) rows ≡ 0
    → IsSound (rows ++ r ∷ [])
append-IsSound r rows s b free = record {
  bounded = All-append IsBounded rows (r ∷ []) s.bounded (b, tt);
  single = single;
}
  where
    single : (f : Text) → affected (is_active_in f) (rows ++ r ∷ []) ≤ 1
    single f = elim (Text-discrete r.family_id f) [
      | yes e ↦ rw (affected-append (is_active_in f) rows (r ∷ []), ← e) (ground (arith, free))
      | no n ↦ rw (affected-append (is_active_in f) rows (r ∷ [])) (ground (arith, s.single f))
    ]

pub insert_token-IsSound :
    (r : RefreshToken) (db : Db) (db' : Db)
    → IsSound db.refresh_tokens
    → IsBounded r
    → affected (is_active_in r.family_id) db.refresh_tokens ≡ 0
    → insert_token r db ≡ ok (tt, db')
    → IsSound db'.refresh_tokens
unfolding insert_token
insert_token-IsSound r db db' s b free e =
    elim (Bool-cases (contains (has_hash r.token_hash) db.refresh_tokens)) [
      | inl c ↦ absurd (ground arith)
      | inr c ↦
          let same : db'.refresh_tokens ≡ db.refresh_tokens ++ r ∷ [] = ground arith in
          rw same (append-IsSound r db.refresh_tokens s b free)
    ]
