-- ===== src/Retry/Settled.antt =====
-- A change that moves often enough comes to an end.
use marketplace_api.Prelude.{
  Bool, Option, arith, false, get_elem?, get_elem?-set_at, get_elem?-set_at_other, none, refl, some,
  true, ℕ, ◌*◌, ◌+◌, ◌-◌, ◌≡◌, ◌≤◌, Bool-cases, List, Option-cases, [], ap, inl, inr, length,
  set_at, ℕ_discrete, ◌<◌, ◌==◌, ◌∙◌, ◌∷◌, map, suc, zero,
}
use marketplace_api.Retry.{
  Spot, SqlState, Ledger, waiting, thrown, caught, put_spot, move_spot, max_attempts, thinking,
  finished, ℤ, move_change, run_changes, write_back, ◌+ℤ◌, in_int4, delta_of, bumps, other_state,
  serialization_failure,
}
use marketplace_api.Retry.Serial.{IsTried}
use marketplace_api.Sql.{affected}
use mathlib.Core.Path.{subst}
use marketplace_api.Retry.Outcome.{run_changes-IsLedger, bumps-IsLedger, All-at}

-- The moves that a change may still need.
abbrev left : Spot → ℕ
left (waiting k) = 2 * (max_attempts + 1 - k)
left (thinking k current seen) = 2 * (max_attempts + 1 - k) - 1
left finished = 0
left (thrown k code) = 0

-- `withRetry` has returned or thrown.
abbrev pub is_settled : Spot → Bool
is_settled finished = true
is_settled (thrown k code) = true
is_settled (waiting k) = false
is_settled (thinking k current seen) = false

left-caught : (k : ℕ) (code : SqlState) → left (caught k code) ≤ 2 * (max_attempts + 1 - k) - 2
left-caught k code = ground arith

settled-left : (s : Spot) → IsTried s → left s ≡ 0 → is_settled s ≡ true
settled-left (waiting k) few h = absurd (omega arith)
settled-left (thinking k current seen) few h = absurd (omega arith)
settled-left finished few h = refl
settled-left (thrown k code) few h = refl

-- What the write-back of a change leaves at its place.
write_back-spot :
    (m k : ℕ) (sum : ℤ) (l : Ledger)
    → (s : Spot) × ((write_back m k sum l).spots ≡ set_at m s l.spots)
      × (left s ≤ 2 * (max_attempts + 1 - k) - 2)
write_back-spot m k sum l = elim (Bool-cases (in_int4 sum)) [
  | inl y ↦ rw y (finished, refl, omega arith)
  | inr f ↦ rw f (caught k other_state, refl, left-caught k other_state)
]

thinking-spot :
    (m k : ℕ) (current : ℤ) (seen : ℕ) (l : Ledger)
    → (s : Spot) × ((move_spot m none l (thinking k current seen)).spots ≡ set_at m s l.spots)
      × (left s ≤ 2 * (max_attempts + 1 - k) - 2)
thinking-spot m k current seen l = elim (Bool-cases (seen == l.version)) [
  | inl y ↦ rw y (write_back-spot m k (current +ℤ delta_of l.deltas m) l)
  | inr f ↦ rw f (caught k serialization_failure, refl, left-caught k serialization_failure)
]

module _ (n : ℕ) where
  -- The spot of the change, with at most so many moves left.
  abbrev Left : ℕ → Ledger → Type 0
  Left r l = (s : Spot) × (get_elem? l.spots n ≡ some s) × (left s ≤ r)

  put_spot-Left :
      (r : ℕ) (l : Ledger) (s s' : Spot)
      → get_elem? l.spots n ≡ some s
      → left s' ≤ r
      → Left r (put_spot n s' l)
  put_spot-Left r l s s' here h = (s', get_elem?-set_at n s s' l.spots here, h)

  own-Left :
      (fault : Option SqlState) (l : Ledger) (s : Spot)
      → get_elem? l.spots n ≡ some s
      → Left (left s - 1) (move_spot n fault l s)
  own-Left (some code) l (waiting k) here =
      put_spot-Left _ l _ _ here (omega (arith, left-caught k code))
  own-Left none l (waiting k) here = put_spot-Left _ l _ _ here (omega arith)
  own-Left (some code) l (thinking k current seen) here =
      put_spot-Left _ l _ _ here (omega (arith, left-caught k code))
  own-Left none l (thinking k current seen) here =
      let (s', e, h) = thinking-spot n k current seen l in
      (s', ap (λ ss. get_elem? ss n) e ∙ get_elem?-set_at n _ s' l.spots here, omega (arith, h))
  own-Left fault l finished here = (finished, here, omega arith)
  own-Left fault l (thrown k code) here = (thrown k code, here, omega arith)

  other-spot :
      (m : ℕ) (fault : Option SqlState) (l : Ledger) (s : Spot)
      → ¬ (n ≡ m)
      → get_elem? (move_spot m fault l s).spots n ≡ get_elem? l.spots n
  other-spot m (some code) l (waiting k) ne = get_elem?-set_at_other m n _ l.spots ne
  other-spot m none l (waiting k) ne = get_elem?-set_at_other m n _ l.spots ne
  other-spot m (some code) l (thinking k current seen) ne = get_elem?-set_at_other m n _ l.spots ne
  other-spot m none l (thinking k current seen) ne =
      let (s', e, _) = thinking-spot m k current seen l in
      ap (λ ss. get_elem? ss n) e ∙ get_elem?-set_at_other m n s' l.spots ne
  other-spot m fault l finished ne = refl
  other-spot m fault l (thrown k code) ne = refl

  move_change-own :
      (r : ℕ) (fault : Option SqlState) (l : Ledger)
      → Left r l
      → Left (r - 1) (move_change (n, fault) l)
  unfolding move_change
  move_change-own r fault l (s, here, h) =
      let (s', e, k) = own-Left fault l s here in
      rw (move_change, here) (s', e, omega (arith, h, k))

  move_change-other :
      (r m : ℕ) (fault : Option SqlState) (l : Ledger)
      → ¬ (n ≡ m)
      → Left r l
      → Left r (move_change (m, fault) l)
  unfolding move_change
  move_change-other r m fault l ne (s, here, h) = elim (Option-cases (get_elem? l.spots m)) [
    | inl e ↦ rw (move_change, e) (s, here, h)
    | inr (t, e) ↦ rw (move_change, e) (s, other-spot m fault l t ne ∙ here, h)
  ]

  run_changes-Left :
      (ms : List (ℕ × Option SqlState)) (r : ℕ) (l : Ledger)
      → Left r l
      → Left (r - affected (λ m. m.0 == n) ms) (run_changes ms l)
  unfolding run_changes
  run_changes-Left [] r l h = let (s, here, k) = h in (s, here, omega (arith, k))
  run_changes-Left ((m, fault) ∷ ms) r l h = elim (ℕ_discrete n m) [
    | yes e ↦
        let next =
          subst (λ i. Left (r - 1) (move_change (i, fault) l)) e (move_change-own r fault l h) in
        let (s, here, k) = run_changes-Left ms (r - 1) (move_change (m, fault) l) next in
        (s, here, ground (arith, e, k))
    | no ne ↦
        let (s, here, k) =
          run_changes-Left ms r (move_change (m, fault) l) (move_change-other r m fault l ne h) in
        (s, here, ground (arith, ne, k))
  ]

bumps-waiting :
    (n : ℕ) (deltas : List ℤ)
    → n < length deltas
    → get_elem? (map (λ d. waiting 1) deltas) n ≡ some (waiting 1)
bumps-waiting n [] h = absurd (omega arith)
bumps-waiting zero (d ∷ ds) h = refl
bumps-waiting (suc n) (d ∷ ds) h = bumps-waiting n ds (omega arith)

-- A change that has moved twice for each attempt has returned or thrown, whatever the moves of the
-- others and the errors.
pub run_changes-settled :
    (balance : ℤ) (deltas : List ℤ) (ms : List (ℕ × Option SqlState)) (n : ℕ)
    → n < length deltas
    → 2 * max_attempts ≤ affected (λ m. m.0 == n) ms
    → (s : Spot) × (get_elem? (run_changes ms (bumps balance deltas)).spots n ≡ some s)
      × (is_settled s ≡ true)
unfolding bumps
run_changes-settled balance deltas ms n within enough =
    let inv = run_changes-IsLedger balance ms _ (bumps-IsLedger balance deltas) in
    let (s, here, few) =
      run_changes-Left n ms (2 * max_attempts) (bumps balance deltas)
        (waiting 1, bumps-waiting n deltas within, omega arith) in
    (s, here, settled-left s (All-at IsTried n s _ inv.tried here) (omega (arith, few, enough)))
