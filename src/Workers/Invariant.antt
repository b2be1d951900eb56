-- ===== src/Workers/Invariant.antt =====
-- What the moves of the workers keep.
use marketplace_api.Prelude.{
  All, Bool, Bool-cases, In, List, [], ap, arith, false, get_elem?, if◌then◌else◌, inl, inr, ltb,
  refl, some, suc, sum_of, true, zero, ℕ, ◌+◌, ◌∷◌, ◌≡◌, ◌≤◌, ℕ_discrete, sym, ◌∙◌,
}
use marketplace_api.Workers.{
  Worker, Pool, set_at, Job, claim_one, idle, has_job_id, lowest_of, is_new_job, working, holds,
  counting, stopped, failed, lowest, is_claimable, Pc, finish, works_on,
}
use marketplace_api.Sql.{affected, In-select, select, free-affected}
use marketplace_api.Workers.Rows.{
  is_row_open, IsCounted, own_processed, other-finish, locked-AllOpen, affected-finish,
  finish-IsCounted, row_open-le, finish-remaining, finish-processed,
}
use mathlib.Core.Path.{subst}
use mathlib.Core.Option.{some-injective}

abbrev pub is_stopped : Worker → Bool
is_stopped w = elim w.pc [
  | idle ↦ false
  | working id ↦ false
  | counting ↦ false
  | stopped ↦ true
  | failed ↦ false
]

pub record IsPool (p : Pool) : Type 0 where
  -- an id names one row
  pub one_row : (id : ℕ) → affected (has_job_id id) p.jobs ≤ 1
  -- a row that a worker works on is open, and no other works on it
  pub locked : (id : ℕ) → affected (holds id) p.workers ≤ affected (is_row_open id) p.jobs
  pub counted : All IsCounted p.jobs
  -- a worker stops when no row is left
  pub settled : 1 ≤ affected is_stopped p.workers → affected is_new_job p.jobs ≡ 0
  pub balanced : sum_of (λ w. w.claimed) p.workers ≡ sum_of own_processed p.jobs

module _ {ℓ} {A : Type ℓ} where
  pub affected-set_at :
      (p : A → Bool) (n : ℕ) (x a : A) (xs : List A)
      → get_elem? xs n ≡ some x
      → affected p (set_at n a xs) + (if p x then 1 else 0) ≡ affected p xs + (if p a then 1 else 0)
  affected-set_at p n x a [] h = absurd (cc)
  affected-set_at p zero x a (y ∷ ys) h = ground (arith, h)
  affected-set_at p (suc n) x a (y ∷ ys) h = ground (arith, affected-set_at p n x a ys h)

  sum_of-set_at :
      (f : A → ℕ) (n : ℕ) (x a : A) (xs : List A)
      → get_elem? xs n ≡ some x
      → sum_of f (set_at n a xs) + f x ≡ sum_of f xs + f a
  sum_of-set_at f n x a [] h = absurd (cc)
  sum_of-set_at f zero x a (y ∷ ys) h = ground (arith, h)
  sum_of-set_at f (suc n) x a (y ∷ ys) h = omega (arith, sum_of-set_at f n x a ys h)

In-if :
    (b : Bool) (x j k : Job) (ks : List Job) → In x ((if b then k else j) ∷ ks) → In x (j ∷ k ∷ ks)
In-if true x j k ks (inl e) = inr (inl e)
In-if true x j k ks (inr i) = inr (inr i)
In-if false x j k ks (inl e) = inl e
In-if false x j k ks (inr i) = inr (inr i)

In-lowest_of : (js : List Job) (j : Job) → In (lowest_of j js) (j ∷ js)
In-lowest_of [] j = inl refl
In-lowest_of (k ∷ ks) j =
    In-if (ltb k.id j.id) _ j k ks (In-lowest_of ks (if ltb k.id j.id then k else j))

In-lowest : (js : List Job) (j : Job) → lowest js ≡ some j → In j js
In-lowest [] j h = absurd (cc)
In-lowest (k ∷ ks) j h = subst (λ x. In x (k ∷ ks)) (some-injective _ _ h) (In-lowest_of ks k)

In-row_open :
    (j : Job) (jobs : List Job)
    → In j jobs
    → is_new_job j ≡ true
    → 1 ≤ affected (is_row_open j.id) jobs
In-row_open j [] i o = absurd i
In-row_open j (k ∷ ks) (inl e) o = ground (arith, ap (λ r. is_row_open j.id r) e, o)
In-row_open j (k ∷ ks) (inr i) o = ground (arith, In-row_open j ks i o)

-- The row that a worker claims is open, and no worker has its lock.
pub claim_one-free :
    (ws : List Worker) (jobs : List Job) (j : Job)
    → claim_one ws jobs ≡ some j
    → (1 ≤ affected (is_row_open j.id) jobs) × (affected (holds j.id) ws ≡ 0)
unfolding claim_one
claim_one-free ws jobs j h =
    let (here, claimable) =
      In-select (is_claimable ws) j jobs (In-lowest (select (is_claimable ws) jobs) j h) in
    (
      In-row_open j jobs here (ground (arith, claimable)),
      free-affected (holds j.id) ws (ground (arith, claimable)),
    )

works_on_self : (id : ℕ) → works_on id (working id) ≡ true
works_on_self id = ground arith

module _ (p : Pool) (inv : IsPool p) (n : ℕ) (w : Worker)
    (here : get_elem? p.workers n ≡ some w) where
  moved-settled :
      (pc : Pc)
      → (is_stopped (record w { pc = pc }) ≡ true → affected is_new_job p.jobs ≡ 0)
      → 1 ≤ affected is_stopped (set_at n (record w { pc = pc }) p.workers)
      → affected is_new_job p.jobs ≡ 0
  moved-settled pc ends h = elim (Bool-cases (is_stopped (record w { pc = pc }))) [
    | inl y ↦ ends y
    | inr f ↦
        let counts = affected-set_at is_stopped n w (record w { pc = pc }) p.workers here in
        inv.settled (ground (arith, f, counts))
  ]

  -- A move that leaves the rows as they are, to a place where no more rows are locked than the rows
  -- allow, and where a worker that has stopped found none left.
  pub moved-IsPool :
      (pc : Pc)
      → ((id : ℕ)
          → affected (holds id) p.workers + (if works_on id pc then 1 else 0)
            ≤ affected (is_row_open id) p.jobs + (if holds id w then 1 else 0))
      → (is_stopped (record w { pc = pc }) ≡ true → affected is_new_job p.jobs ≡ 0)
      → IsPool (record { jobs = p.jobs; workers = set_at n (record w { pc = pc }) p.workers })
  moved-IsPool pc fits ends = record {
    one_row = inv.one_row;
    locked = λ id.
        omega
          (arith, fits id, affected-set_at (holds id) n w (record w { pc = pc }) p.workers here);
    counted = inv.counted;
    settled = λ h. moved-settled pc ends h;
    balanced = omega (
      arith,
      inv.balanced,
      sum_of-set_at (λ v. v.claimed) n w (record w { pc = pc }) p.workers here,
    );
  }

  module _ (id : ℕ) (at : w.pc ≡ working id) where
    abbrev after : Worker
    after = record w { pc = idle; claimed = suc w.claimed }

    held : holds id w ≡ true
    held = ap (works_on id) at ∙ works_on_self id

    own_lock : affected (holds id) (set_at n after p.workers) + 1 ≡ affected (holds id) p.workers
    own_lock = ground (arith, held, affected-set_at (holds id) n w after p.workers here)

    -- The row that the worker works on is open.
    locked_open : 1 ≤ affected (is_row_open id) p.jobs
    locked_open = omega (arith, own_lock, inv.locked id)

    -- It alone has the id and the lock.
    unlocked : affected (holds id) (set_at n after p.workers) ≡ 0
    unlocked = omega (arith, own_lock, inv.locked id, row_open-le id p.jobs, inv.one_row id)

    finished-locked :
        (k : ℕ)
        → affected (holds k) (set_at n after p.workers)
          ≤ affected (is_row_open k) (finish w.name id p.jobs)
    finished-locked k =
        let counts = affected-set_at (holds k) n w after p.workers here in
        elim (ℕ_discrete k id) [
          | yes e ↦
              subst
                (λ i.
                  affected (holds i) (set_at n after p.workers)
                  ≤ affected (is_row_open i) (finish w.name id p.jobs))
                (sym e) (omega (arith, unlocked))
          | no ne ↦ omega (arith, counts, inv.locked k, other-finish w.name id k p.jobs ne)
        ]

    pub finished-IsPool :
        IsPool (record { jobs = finish w.name id p.jobs; workers = set_at n after p.workers })
    finished-IsPool =
        let opened = locked-AllOpen id p.jobs (inv.one_row id) locked_open in
        record {
          one_row = λ k. omega (arith, inv.one_row k, affected-finish w.name id k p.jobs);
          locked = finished-locked;
          counted = finish-IsCounted w.name id p.jobs opened inv.counted;
          settled = λ h. omega (
            arith,
            inv.settled (omega (arith, h, affected-set_at is_stopped n w after p.workers here)),
            finish-remaining w.name id p.jobs,
          );
          balanced = omega (
            arith,
            inv.balanced,
            sum_of-set_at (λ v. v.claimed) n w after p.workers here,
            finish-processed w.name id p.jobs opened,
            locked_open,
            row_open-le id p.jobs,
            inv.one_row id,
          );
        }
