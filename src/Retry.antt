-- ===== src/Retry.antt =====
-- src/demo-retry.ts: changes of one balance that read it, think and write it back, each in a
-- transaction under REPEATABLE READ that `withRetry` repeats. The row of the user exists. A snapshot
-- is taken by the first statement; an UPDATE of a row that has changed since fails with 40001. A
-- schedule says which change moves next, and whether PostgreSQL fails its transaction there.
mod Tests
pub mod Settled
pub mod Outcome
pub mod Serial
use marketplace_api.Prelude.{
  Bool, List, Option, [], false, get_elem?, if◌then◌else◌, ltb, map, none, set_at, some, suc, true,
  ℕ, ◌&&◌, ◌+◌, ◌-◌, ◌==◌, ◌^◌, ◌∷◌,
}

pub data ℤ : Type 0 where
  pos : ℕ → ℤ
  -- -(n + 1)
  negsuc : ℕ → ℤ

infixl 60 ◌+ℤ◌
abbrev pub ◌+ℤ◌ : ℤ → ℤ → ℤ
pos a +ℤ pos b = pos (a + b)
pos a +ℤ negsuc b = if ltb b a then pos (a - (b + 1)) else negsuc (b - a)
negsuc a +ℤ pos b = if ltb a b then pos (b - (a + 1)) else negsuc (a - b)
negsuc a +ℤ negsuc b = negsuc (a + b + 1)

-- The column "balanceCents" is an int4.
abbrev pub in_int4 : ℤ → Bool
in_int4 (pos n) = ltb n (2 ^ 31)
in_int4 (negsuc n) = ltb n (2 ^ 31)

-- The code of an error: 40001, 40P01, or another
pub data SqlState : Type 0 where
  serialization_failure : SqlState
  deadlock_detected : SqlState
  other_state : SqlState

-- RETRYABLE_CODES.has(code)
abbrev pub is_retryable : SqlState → Bool
is_retryable serialization_failure = true
is_retryable deadlock_detected = true
is_retryable other_state = false

abbrev pub max_attempts : ℕ
max_attempts = 5

-- Where a change stands, with the number of its attempt.
pub data Spot : Type 0 where
  -- before the transaction
  waiting : ℕ → Spot
  -- after the SELECT, with the balance and the version of the row that it saw
  thinking : ℕ → ℤ → ℕ → Spot
  finished : Spot
  thrown : ℕ → SqlState → Spot

-- The row, the changes with what each adds, and the places of the changes that were committed, the
-- last one first.
pub record Ledger : Type 0 where
  pub balance : ℤ
  pub version : ℕ
  pub deltas : List ℤ
  pub spots : List Spot
  pub committed : List ℕ

-- The catch of `withRetry`
abbrev pub caught : ℕ → SqlState → Spot
caught attempt code =
    if is_retryable code && ltb attempt max_attempts
    then waiting (suc attempt)
    else thrown attempt code

abbrev pub delta_of : List ℤ → ℕ → ℤ
delta_of deltas n = elim (get_elem? deltas n) [ none ↦ pos 0 | some d ↦ d ]

abbrev pub put_spot : ℕ → Spot → Ledger → Ledger
put_spot n s l = record l { spots = set_at n s l.spots }

-- The UPDATE and the COMMIT, where the row is as the snapshot saw it
abbrev pub write_back : ℕ → ℕ → ℤ → Ledger → Ledger
write_back n attempt sum l =
    if in_int4 sum
    then record {
      balance = sum;
      version = suc l.version;
      deltas = l.deltas;
      spots = set_at n finished l.spots;
      committed = n ∷ l.committed;
    }
    else put_spot n (caught attempt other_state) l

-- One move of a change
abbrev pub move_spot : ℕ → Option SqlState → Ledger → Spot → Ledger
move_spot n (some code) l (waiting k) = put_spot n (caught k code) l
move_spot n none l (waiting k) = put_spot n (thinking k l.balance l.version) l
move_spot n (some code) l (thinking k current seen) = put_spot n (caught k code) l
move_spot n none l (thinking k current seen) =
    if seen == l.version
    then write_back n k (current +ℤ delta_of l.deltas n) l
    else put_spot n (caught k serialization_failure) l
move_spot n fault l finished = l
move_spot n fault l (thrown k code) = l

unfoldable pub move_change : ℕ × Option SqlState → Ledger → Ledger
move_change (n, fault) l = elim (get_elem? l.spots n) [ none ↦ l | some s ↦ move_spot n fault l s ]

-- The changes side by side, in the order of a schedule.
unfoldable pub run_changes : List (ℕ × Option SqlState) → Ledger → Ledger
unfolding move_change
run_changes [] l = l
run_changes (m ∷ ms) l = run_changes ms (move_change m l)

-- `bump` for each delta, at its first attempt
unfoldable pub bumps : ℤ → List ℤ → Ledger
bumps balance deltas = record {
  balance = balance;
  version = 0;
  deltas = deltas;
  spots = map (λ d. waiting 1) deltas;
  committed = [];
}

-- The changes at some places one after another, the last one first.
abbrev pub one_by_one : ℤ → List ℤ → List ℕ → ℤ
one_by_one balance deltas [] = balance
one_by_one balance deltas (n ∷ ns) = one_by_one balance deltas ns +ℤ delta_of deltas n
