-- ===== src/Retry/Serial.antt =====
-- What the changes keep, in whatever order they move.
use marketplace_api.Prelude.{
  All, All-set_at, Bool, Bool-cases, arith, false, get_elem?, get_elem?-set_at_other, if◌then◌else◌,
  inl, inr, ltb, some, sym, true, ℕ, ℕ_discrete, ◌&&◌, ◌==◌, ◌∙◌, ◌≡◌, ◌≤◌, ◌⊎◌, All-mono, ap,
  get_elem?-set_at, set_at, suc, ◌∷◌,
}
use marketplace_api.Retry.{
  Spot, ℤ, SqlState, waiting, thinking, Ledger, max_attempts, caught, thrown, one_by_one,
  is_retryable, put_spot, finished, ◌+ℤ◌, delta_of,
}
use marketplace_api.Sql.{affected}
use mathlib.Core.Option.{some-injective}

abbrev pub is_finished : Spot → Bool
is_finished finished = true
is_finished (waiting k) = false
is_finished (thinking k current seen) = false
is_finished (thrown k code) = false

-- What a snapshot says of the row now.
abbrev pub IsSeen : ℤ → ℕ → Spot → Type 0
IsSeen balance version (thinking k current seen) =
    (seen ≤ version) × (seen ≡ version → current ≡ balance)
IsSeen balance version (waiting k) = Unit
IsSeen balance version finished = Unit
IsSeen balance version (thrown k code) = Unit

-- How often a change was tried, and that it gives up an error to repeat only after the last attempt.
abbrev pub IsTried : Spot → Type 0
IsTried (waiting k) = k ≤ max_attempts
IsTried (thinking k current seen) = k ≤ max_attempts
IsTried finished = Unit
IsTried (thrown k code) = (k ≤ max_attempts) × ((is_retryable code ≡ false) ⊎ (k ≡ max_attempts))

pub record IsLedger (start : ℤ) (l : Ledger) : Type 0 where
  pub serial : l.balance ≡ one_by_one start l.deltas l.committed
  pub seen : All (IsSeen l.balance l.version) l.spots
  pub tried : All IsTried l.spots
  pub once :
      (n : ℕ) (s : Spot)
      → get_elem? l.spots n ≡ some s
      → affected (λ k. k == n) l.committed ≡ (if is_finished s then 1 else 0)

pub caught-IsTried : (k : ℕ) (code : SqlState) → k ≤ max_attempts → IsTried (caught k code)
caught-IsTried k code h = elim (Bool-cases (is_retryable code)) [
  | inl y ↦ elim (Bool-cases (ltb k max_attempts)) [
    | inl less ↦ rw (y, less) (ground (arith, less))
    | inr last ↦ rw (y, last) (h, inr (ground (arith, last, h)))
  ]
  | inr n ↦ rw n (h, inl n)
]

pub caught-unfinished : (k : ℕ) (code : SqlState) → is_finished (caught k code) ≡ false
caught-unfinished k code = ground arith

pub caught-IsSeen : (b : ℤ) (v k : ℕ) (code : SqlState) → IsSeen b v (caught k code)
caught-IsSeen b v k code = elim (Bool-cases (is_retryable code && ltb k max_attempts)) [
  | inl y ↦ rw y tt
  | inr n ↦ rw n tt
]

-- After a commit no snapshot that was taken before is the current version.
later-IsSeen : (b c : ℤ) (v : ℕ) (s : Spot) → IsSeen b v s → IsSeen c (suc v) s
later-IsSeen b c v (waiting k) h = tt
later-IsSeen b c v (thinking k current seen) (le, same) = (omega arith, λ e. absurd (omega arith))
later-IsSeen b c v finished h = tt
later-IsSeen b c v (thrown k code) h = tt

module _ (start : ℤ) (l : Ledger) (inv : IsLedger start l) (n : ℕ) (s : Spot)
    (here : get_elem? l.spots n ≡ some s) (open_still : is_finished s ≡ false) where
  -- What stands at the place after the move.
  placed : (s' t : Spot) (m : ℕ) → get_elem? (set_at n s' l.spots) m ≡ some t → m ≡ n → t ≡ s'
  placed s' t m at e =
      some-injective t s'
        (sym at ∙ ap (get_elem? (set_at n s' l.spots)) e ∙ get_elem?-set_at n s s' l.spots here)

  uncommitted : (m : ℕ) → m ≡ n → affected (λ k. k == m) l.committed ≡ 0
  uncommitted m e =
      ap (λ i. affected (λ k. k == i) l.committed) e
      ∙ inv.once n s here
      ∙ ap (λ b. if b then 1 else 0) open_still

  pub moved-IsLedger :
      (s' : Spot)
      → is_finished s' ≡ false
      → IsSeen l.balance l.version s'
      → IsTried s'
      → IsLedger start (put_spot n s' l)
  moved-IsLedger s' goes sees tries = record {
    serial = inv.serial;
    seen = All-set_at (IsSeen l.balance l.version) n s' l.spots inv.seen sees;
    tried = All-set_at IsTried n s' l.spots inv.tried tries;
    once = λ m t at. elim (ℕ_discrete m n) [
      | yes e ↦
          uncommitted m e
          ∙ sym (ap (λ b. if b then 1 else 0) (ap is_finished (placed s' t m at e) ∙ goes))
      | no ne ↦ inv.once m t (sym (get_elem?-set_at_other n m s' l.spots ne) ∙ at)
    ];
  }

  pub committed-IsLedger :
      (sum : ℤ)
      → sum ≡ l.balance +ℤ delta_of l.deltas n
      → IsLedger start (record {
        balance = sum;
        version = suc l.version;
        deltas = l.deltas;
        spots = set_at n finished l.spots;
        committed = n ∷ l.committed;
      })
  committed-IsLedger sum e = record {
    serial = e ∙ ap (λ b. b +ℤ delta_of l.deltas n) inv.serial;
    seen =
        All-set_at (IsSeen sum (suc l.version)) n finished l.spots
          (All-mono (IsSeen l.balance l.version) (IsSeen sum (suc l.version))
            (later-IsSeen l.balance sum l.version) l.spots inv.seen)
          tt;
    tried = All-set_at IsTried n finished l.spots inv.tried tt;
    once = λ m t at. elim (ℕ_discrete m n) [
      | yes e ↦ ground (arith, uncommitted m e, ap is_finished (placed finished t m at e))
      | no ne ↦
          ground
            (arith, ne, inv.once m t (sym (get_elem?-set_at_other n m finished l.spots ne) ∙ at))
    ];
  }
