-- ===== src/Workers/Finish.antt =====
-- One worker alone finishes what the others left, but for the rows that they still hold.
use marketplace_api.Prelude.{
  Bool, List, Text, [], ap, arith, false, get_elem?, none, refl, some, suc, zero, ℕ, ◌∷◌, ◌≡◌, ◌≤◌,
  Bool-cases, inl, inr, sym, Option, Option-cases, ◌∙◌, get_elem?-set_at, All, All-mono,
  if◌then◌else◌, set_at_same, ◌==◌, ◌⊎◌,
}
use marketplace_api.Workers.{
  Pool, set_at, Job, move_worker, claim_one, Worker, stopped, holds, Pc, is_new_job, move, finish,
  is_claimable, lowest, run_workers, idle, pc_after, counting, working, works_on,
}
use marketplace_api.Sql.{affected, select, contains, contains-affected}
use marketplace_api.Workers.Rows.{is_row_open, set_done-closed, finish-remaining}
use mathlib.Core.Path.{subst}
use marketplace_api.Workers.Invariant.{affected-set_at, claim_one-free}

-- Moves of one worker that do not fail: two for each row that may be left, and two to stop.
abbrev pub alone : ℕ → ℕ → List (ℕ × Bool)
alone n zero = (n, false) ∷ (n, false) ∷ []
alone n (suc r) = (n, false) ∷ (n, false) ∷ alone n r

abbrev pub HasStopped : ℕ → Pool → Type 0
HasStopped n p =
    (affected is_new_job p.jobs ≡ 0)
    × (w : Worker) × (get_elem? p.workers n ≡ some w)
    × (w.pc ≡ stopped)

-- A row that the worker cannot take: it is done, or another worker has had its lock since the start.
abbrev pub IsTaken : Pool → Job → Type 0
IsTaken start j = (is_new_job j ≡ false) ⊎ (1 ≤ affected (holds j.id) start.workers)

-- The worker is in its loop, since unprocessed rows are left, all of them locked by others.
abbrev pub Waits : ℕ → Pool → Pool → Type 0
Waits n start p =
    (1 ≤ affected is_new_job p.jobs)
    × All (IsTaken start) p.jobs
    × (w : Worker) × (get_elem? p.workers n ≡ some w)
    × (w.pc ≡ idle)

open-le : (id : ℕ) (jobs : List Job) → affected (is_row_open id) jobs ≤ affected is_new_job jobs
open-le id [] = omega arith
open-le id (j ∷ js) = ground (arith, open-le id js)

finish-lt :
    (name : Text) (id : ℕ) (jobs : List Job)
    → 1 ≤ affected (is_row_open id) jobs
    → suc (affected is_new_job (finish name id jobs)) ≤ affected is_new_job jobs
finish-lt name id [] h = absurd (omega (arith, h))
finish-lt name id (j ∷ js) h =
    ground (arith, set_done-closed name j, finish-remaining name id js, finish-lt name id js)

abbrev moved : Bool → ℕ → Pool → Worker → Pc → Pool
moved fails n p w pc =
    let (w', jobs') = move fails p.workers p.jobs w pc in
    record { jobs = jobs'; workers = set_at n w' p.workers }

move_worker-moved :
    (fails : Bool) (n : ℕ) (p : Pool) (w : Worker) (pc : Pc)
    → get_elem? p.workers n ≡ some w
    → w.pc ≡ pc
    → move_worker (n, fails) p ≡ moved fails n p w pc
unfolding move_worker
move_worker-moved fails n p w pc here at = rw (move_worker, here) (ap (moved fails n p w) at)

no_claim-All :
    (p : Pool) (jobs : List Job) → select (is_claimable p.workers) jobs ≡ [] → All (IsTaken p) jobs
no_claim-All p [] h = tt
no_claim-All p (j ∷ js) h = elim (Bool-cases (is_claimable p.workers j)) [
  | inl y ↦ absurd (ground (arith, y, h))
  | inr f ↦ (
    elim (Bool-cases (contains (holds j.id) p.workers)) [
      | inl held ↦ inr (contains-affected (holds j.id) p.workers held)
      | inr free ↦ inl (ground (arith, f, free))
    ],
    no_claim-All p js (ground (arith, f, h)),
  )
]

lowest-none : (js : List Job) → lowest js ≡ none → js ≡ []
lowest-none [] h = refl
lowest-none (j ∷ js) h = absurd (cc)

claim_one-none : (p : Pool) → claim_one p.workers p.jobs ≡ none → All (IsTaken p) p.jobs
unfolding claim_one
claim_one-none p h = no_claim-All p p.jobs (lowest-none (select (is_claimable p.workers) p.jobs) h)

set_at-set_at :
    {A : Type 0} (n : ℕ) (a b : A) (xs : List A) → set_at n a (set_at n b xs) ≡ set_at n a xs
set_at-set_at n a b [] = refl
set_at-set_at zero a b (x ∷ xs) = refl
set_at-set_at (suc n) a b (x ∷ xs) = ap (λ ys. x ∷ ys) (set_at-set_at n a b xs)

-- A worker that has stopped stays so.
move_worker-HasStopped :
    (n : ℕ) (fails : Bool) (p : Pool) → HasStopped n p → HasStopped n (move_worker (n, fails) p)
move_worker-HasStopped n fails p (done, w, here, at) =
    subst (HasStopped n) (sym (move_worker-moved fails n p w stopped here at))
      (done, w, get_elem?-set_at n w w p.workers here, at)

alone-HasStopped : (n r : ℕ) (p : Pool) → HasStopped n p → HasStopped n (run_workers (alone n r) p)
unfolding run_workers
alone-HasStopped n zero p h = move_worker-HasStopped n false _ (move_worker-HasStopped n false p h)
alone-HasStopped n (suc r) p h =
    alone-HasStopped n r _ (move_worker-HasStopped n false _ (move_worker-HasStopped n false p h))

abbrev two_moves : ℕ → Pool → Pool
two_moves n p = move_worker (n, false) (move_worker (n, false) p)

module _ (n : ℕ) (p : Pool) (w : Worker) (here : get_elem? p.workers n ≡ some w)
    (at : w.pc ≡ idle) where
  -- The pool after the worker has asked for a row.
  abbrev asked : Option Job → Pool
  asked o = record { jobs = p.jobs; workers = set_at n (record w { pc = pc_after o }) p.workers }

  move_worker-asked :
      (o : Option Job) → claim_one p.workers p.jobs ≡ o → move_worker (n, false) p ≡ asked o
  move_worker-asked o h = move_worker-moved false n p w idle here at ∙ ap asked h

  asked-here :
      (o : Option Job) → get_elem? (asked o).workers n ≡ some (record w { pc = pc_after o })
  asked-here o = get_elem?-set_at n w (record w { pc = pc_after o }) p.workers here

  -- With no row left, two moves stop the worker.
  last_moves :
      claim_one p.workers p.jobs ≡ none
      → affected is_new_job p.jobs ≡ 0
      → HasStopped n (two_moves n p)
  last_moves none_left zero_open =
      let w1 : Worker = record w { pc = counting } in
      let e =
        ap (move_worker (n, false)) (move_worker-asked none none_left)
        ∙ move_worker-moved false n (asked none) w1 counting (asked-here none) refl in
      subst (HasStopped n) (sym e) (
        zero_open,
        _,
        get_elem?-set_at n w1 _ (asked none).workers (asked-here none),
        ground (arith, zero_open),
      )

  -- With rows left that others work on, two moves bring the worker back to the head of its loop.
  waiting_moves :
      claim_one p.workers p.jobs ≡ none
      → (affected is_new_job p.jobs == 0) ≡ false
      → two_moves n p ≡ p
  waiting_moves none_left some_open =
      let w1 : Worker = record w { pc = counting } in
      let back : Bool → Pool = λ b. record {
        jobs = p.jobs;
        workers = set_at n (record w1 { pc = if b then stopped else idle }) (asked none).workers;
      } in
      let same : record w { pc = idle } ≡ w = ap (λ c. record w { pc = c }) (sym at) in
      ap (move_worker (n, false)) (move_worker-asked none none_left)
      ∙ move_worker-moved false n (asked none) w1 counting (asked-here none) refl
      ∙ ap back some_open
      ∙ ap (λ ws. record { jobs = p.jobs; workers = ws })
          (set_at-set_at n (record w { pc = idle }) w1 p.workers
            ∙ ap (λ v. set_at n v p.workers) same
            ∙ set_at_same n w p.workers here)

  -- The pool after the worker has processed the row that it asked for.
  abbrev processed_one : Job → Pool
  processed_one j = record {
    jobs = finish w.name j.id p.jobs;
    workers = set_at n (record w { pc = idle; claimed = suc w.claimed }) (asked (some j)).workers;
  }

  two_moves-processed_one :
      (j : Job) → claim_one p.workers p.jobs ≡ some j → two_moves n p ≡ processed_one j
  two_moves-processed_one j h =
      ap (move_worker (n, false)) (move_worker-asked (some j) h)
      ∙ move_worker-moved false n (asked (some j)) (record w { pc = working j.id }) (working j.id)
          (asked-here (some j)) refl

  -- The locks of the others are as before.
  processed_one-holds :
      (j : Job) (id : ℕ)
      → affected (holds id) (processed_one j).workers ≡ affected (holds id) p.workers
  processed_one-holds j id =
      let w1 : Worker = record w { pc = working j.id } in
      let w2 : Worker = record w { pc = idle; claimed = suc w.claimed } in
      ground (
        arith,
        ap (works_on id) at,
        affected-set_at (holds id) n w w1 p.workers here,
        affected-set_at (holds id) n w1 w2 (asked (some j)).workers (asked-here (some j)),
      )

  Waits-processed_one : (j : Job) (q : Pool) → Waits n (processed_one j) q → Waits n p q
  Waits-processed_one j q (some_open, taken, v, at_n, head) =
      (some_open, All-mono (IsTaken (processed_one j)) (IsTaken p) kept q.jobs taken, v, at_n, head)
    where
      kept : (k : Job) → IsTaken (processed_one j) k → IsTaken p k
      kept k (inl done) = inl done
      kept k (inr locked) = inr (omega (arith, locked, processed_one-holds j k.id))

alone-still : (n r : ℕ) (p : Pool) → two_moves n p ≡ p → run_workers (alone n r) p ≡ p
unfolding run_workers
alone-still n zero p h = h
alone-still n (suc r) p h = ap (run_workers (alone n r)) h ∙ alone-still n r p h

-- The worker finds no row to take.
alone-Waits :
    (n r : ℕ) (p : Pool) (w : Worker)
    → get_elem? p.workers n ≡ some w
    → w.pc ≡ idle
    → claim_one p.workers p.jobs ≡ none
    → HasStopped n (run_workers (alone n r) p) ⊎ Waits n p (run_workers (alone n r) p)
unfolding run_workers
alone-Waits n r p w here at e = elim (Bool-cases (affected is_new_job p.jobs == 0)) [
  | inl zero_open ↦ inl (stops_from n r (last_moves n p w here at e (ground (arith, zero_open))))
  | inr some_open ↦ inr (
      subst (Waits n p) (sym (alone-still n r p (waiting_moves n p w here at e some_open)))
        (ground (arith, some_open), claim_one-none p e, w, here, at))
]
  where
    stops_from : (n r : ℕ) → HasStopped n (two_moves n p) → HasStopped n (run_workers (alone n r) p)
    stops_from n zero h = h
    stops_from n (suc r) h = alone-HasStopped n r (two_moves n p) h

-- An idle worker that moves alone, with queries that do not fail, stops and leaves no unprocessed
-- row, unless rows are left of which other workers have had the locks since the start: then it takes
-- all others and stays in its loop. Two moves for each row and two at the end are enough.
pub alone-stops :
    (n r : ℕ) (p : Pool) (w : Worker)
    → get_elem? p.workers n ≡ some w
    → w.pc ≡ idle
    → affected is_new_job p.jobs ≤ r
    → HasStopped n (run_workers (alone n r) p) ⊎ Waits n p (run_workers (alone n r) p)
unfolding run_workers
alone-stops n zero p w here at few = elim (Option-cases (claim_one p.workers p.jobs)) [
  | inl e ↦ alone-Waits n zero p w here at e
  | inr (j, e) ↦
      let (opened, _) = claim_one-free p.workers p.jobs j e in
      absurd (omega (arith, few, opened, open-le j.id p.jobs))
]
alone-stops n (suc r) p w here at few = elim (Option-cases (claim_one p.workers p.jobs)) [
  | inl e ↦ alone-Waits n (suc r) p w here at e
  | inr (j, e) ↦
      let (opened, _) = claim_one-free p.workers p.jobs j e in
      let rest =
        alone-stops n r (processed_one n p w here at j) _
          (get_elem?-set_at n _ _ (asked n p w here at (some j)).workers
            (asked-here n p w here at (some j)))
          refl (omega (arith, few, finish-lt w.name j.id p.jobs opened)) in
      subst (λ q. HasStopped n (run_workers (alone n r) q) ⊎ Waits n p (run_workers (alone n r) q))
        (sym (two_moves-processed_one n p w here at j e))
        (elim rest [
          | inl done ↦ inl done
          | inr waits ↦ inr (Waits-processed_one n p w here at j _ waits)
        ])
]
