-- ===== src/Retry/Outcome.antt =====
-- Where the changes end, whatever the order in which they moved.
use marketplace_api.Retry.Serial.{
  caught-IsTried, caught-unfinished, caught-IsSeen, moved-IsLedger, committed-IsLedger,
}
use marketplace_api.Retry.{other_state, serialization_failure}
use marketplace_api.Prelude.{
  All, All-In, Bool-cases, In-get_elem?, List, Option, Option-cases, [], ap, arith, false,
  get_elem?, if◌then◌else◌, inl, inr, map, none, refl, some, sym, ℕ, ◌==◌, ◌∷◌, ◌≡◌, ◌≤◌, ◌∙◌,
}
use marketplace_api.Retry.{
  ℤ, move_change, run_changes, Spot, bumps, SqlState, Ledger, waiting, one_by_one, thinking,
  move_spot, max_attempts, write_back, put_spot, ◌+ℤ◌, caught, delta_of, serialization_failure,
  in_int4, thrown, finished,
}
use marketplace_api.Retry.Serial.{
  IsLedger, is_finished, IsSeen, IsTried, moved-IsLedger, caught-unfinished, caught-IsSeen,
  committed-IsLedger,
}
use marketplace_api.Sql.{affected}

pub All-at :
    {A : Type 0} (P : A → Type 0) (n : ℕ) (a : A) (xs : List A)
    → All P xs
    → get_elem? xs n ≡ some a
    → P a
All-at P n a xs h e = All-In P a xs h (In-get_elem? n a xs e)

module _ (start : ℤ) (l : Ledger) (inv : IsLedger start l) (n : ℕ) where
  caught-IsLedger :
      (s : Spot) (k : ℕ) (code : SqlState)
      → get_elem? l.spots n ≡ some s
      → is_finished s ≡ false
      → k ≤ max_attempts
      → IsLedger start (put_spot n (caught k code) l)
  caught-IsLedger s k code here unfinished few =
      moved-IsLedger start l inv n s here unfinished (caught k code) (caught-unfinished k code)
        (caught-IsSeen l.balance l.version k code) (caught-IsTried k code few)

  write_back-IsLedger :
      (k : ℕ) (current : ℤ) (seen : ℕ)
      → get_elem? l.spots n ≡ some (thinking k current seen)
      → seen ≡ l.version
      → IsLedger start (write_back n k (current +ℤ delta_of l.deltas n) l)
  write_back-IsLedger k current seen here same =
      let sum = current +ℤ delta_of l.deltas n in
      let sees = All-at (IsSeen l.balance l.version) n _ l.spots inv.seen here in
      elim (Bool-cases (in_int4 sum)) [
        | inl y ↦ rw y (
            committed-IsLedger start l inv n _ here refl sum
              (ap (λ b. b +ℤ delta_of l.deltas n) (sees.1 same)))
        | inr f ↦
            rw f (
              caught-IsLedger _ k other_state here refl (All-at IsTried n _ l.spots inv.tried here))
      ]

  move_spot-IsLedger :
      (fault : Option SqlState) (s : Spot)
      → get_elem? l.spots n ≡ some s
      → IsLedger start (move_spot n fault l s)
  move_spot-IsLedger (some code) (waiting k) here =
      caught-IsLedger (waiting k) k code here refl (All-at IsTried n _ l.spots inv.tried here)
  move_spot-IsLedger none (waiting k) here =
      moved-IsLedger start l inv n (waiting k) here refl (thinking k l.balance l.version) refl
        (omega arith, λ e. refl) (All-at IsTried n _ l.spots inv.tried here)
  move_spot-IsLedger (some code) (thinking k current seen) here =
      caught-IsLedger (thinking k current seen) k code here refl
        (All-at IsTried n _ l.spots inv.tried here)
  move_spot-IsLedger none (thinking k current seen) here = elim (Bool-cases (seen == l.version)) [
    | inl y ↦ rw y (write_back-IsLedger k current seen here (ground (arith, y)))
    | inr f ↦ rw f (
        caught-IsLedger (thinking k current seen) k serialization_failure here refl
          (All-at IsTried n _ l.spots inv.tried here))
  ]
  move_spot-IsLedger fault finished here = inv
  move_spot-IsLedger fault (thrown k code) here = inv

move_change-IsLedger :
    (start : ℤ) (m : ℕ × Option SqlState) (l : Ledger)
    → IsLedger start l
    → IsLedger start (move_change m l)
unfolding move_change
move_change-IsLedger start (n, fault) l inv = elim (Option-cases (get_elem? l.spots n)) [
  | inl e ↦ rw (move_change, e) inv
  | inr (s, e) ↦ rw (move_change, e) (move_spot-IsLedger start l inv n fault s e)
]

pub run_changes-IsLedger :
    (start : ℤ) (ms : List (ℕ × Option SqlState)) (l : Ledger)
    → IsLedger start l
    → IsLedger start (run_changes ms l)
unfolding run_changes
run_changes-IsLedger start [] l inv = inv
run_changes-IsLedger start (m ∷ ms) l inv =
    run_changes-IsLedger start ms (move_change m l) (move_change-IsLedger start m l inv)

waiting-All :
    (P : Spot → Type 0) → P (waiting 1) → (deltas : List ℤ) → All P (map (λ d. waiting 1) deltas)
waiting-All P h [] = tt
waiting-All P h (d ∷ ds) = (h, waiting-All P h ds)

pub bumps-IsLedger : (balance : ℤ) (deltas : List ℤ) → IsLedger balance (bumps balance deltas)
unfolding bumps
bumps-IsLedger balance deltas = record {
  serial = refl;
  seen = waiting-All (IsSeen balance 0) tt deltas;
  tried = waiting-All IsTried (omega arith) deltas;
  once = λ n s e.
      ap (λ b. if b then 1 else 0)
        (sym (
          All-at (λ t. is_finished t ≡ false) n s _
            (waiting-All (λ t. is_finished t ≡ false) refl deltas) e));
}

move_spot-deltas :
    (n : ℕ) (fault : Option SqlState) (l : Ledger) (s : Spot)
    → (move_spot n fault l s).deltas ≡ l.deltas
move_spot-deltas n (some code) l (waiting k) = refl
move_spot-deltas n none l (waiting k) = refl
move_spot-deltas n (some code) l (thinking k current seen) = refl
move_spot-deltas n none l (thinking k current seen) = ground arith
move_spot-deltas n fault l finished = refl
move_spot-deltas n fault l (thrown k code) = refl

move_change-deltas : (m : ℕ × Option SqlState) (l : Ledger) → (move_change m l).deltas ≡ l.deltas
unfolding move_change
move_change-deltas (n, fault) l = elim (Option-cases (get_elem? l.spots n)) [
  | inl e ↦ rw (move_change, e) refl
  | inr (s, e) ↦ rw (move_change, e) (move_spot-deltas n fault l s)
]

run_changes-deltas :
    (ms : List (ℕ × Option SqlState)) (l : Ledger) → (run_changes ms l).deltas ≡ l.deltas
unfolding run_changes
run_changes-deltas [] l = refl
run_changes-deltas (m ∷ ms) l = run_changes-deltas ms (move_change m l) ∙ move_change-deltas m l

-- In every order of the moves, and whatever errors PostgreSQL raises: the balance is what the
-- committed changes make of the first balance one after another, so none is lost; a change that has
-- returned is committed once, and one that has not is not committed; and a change that gave up did
-- so within the attempts, with an error to repeat only at the last of them.
pub run_changes-serial :
    (balance : ℤ) (deltas : List ℤ) (ms : List (ℕ × Option SqlState)) (n : ℕ) (s : Spot)
    → let l = run_changes ms (bumps balance deltas) in
      get_elem? l.spots n ≡ some s
      → (l.balance ≡ one_by_one balance deltas l.committed)
        × ((affected (λ k. k == n) l.committed ≡ (if is_finished s then 1 else 0)) × IsTried s)
unfolding bumps
run_changes-serial balance deltas ms n s here =
    let inv = run_changes-IsLedger balance ms _ (bumps-IsLedger balance deltas) in
    let l = run_changes ms (bumps balance deltas) in
    (
      inv.serial
          ∙ ap (λ ds. one_by_one balance ds l.committed)
              (run_changes-deltas ms (bumps balance deltas)),
      (inv.once n s here, All-at IsTried n s l.spots inv.tried here),
    )
