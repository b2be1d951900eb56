-- ===== src/Workers/Audit.antt =====
-- What the last query of the script finds, whatever the order in which the workers moved.
use marketplace_api.Workers.{failed}
use marketplace_api.Prelude.{
  All, Bool, List, Option-cases, Text, [], arith, false, get_elem?, inl, inr, refl, sum_of, true, ℕ,
  ◌<◌, ◌∙◌, ◌∷◌, ◌≡◌, ◌≤◌, suc, zero, ◌⊎◌,
}
use marketplace_api.Workers.{
  audit, Job, Worker, move_worker, run_workers, set_up, Pc, Pool, is_new_job, is_own, has_job_id,
  finish, move, working, idle, counting, stopped,
}
use marketplace_api.Workers.Rows.{IsCounted, own_processed}
use marketplace_api.Sql.{affected}
use marketplace_api.Workers.Invariant.{is_stopped, IsPool}
use marketplace_api.Workers.Once.{run_workers-IsPool}
use marketplace_api.Workers.Start.{set_up-IsPool, fresh-own}

not_twice : (jobs : List Job) → All IsCounted jobs → (audit jobs).1 ≡ 0
unfolding audit
not_twice [] h = refl
not_twice (j ∷ js) h = ground (arith, h.0, not_twice js h.1)

all_once :
    (jobs : List Job)
    → All IsCounted jobs
    → affected is_new_job jobs ≡ 0
    → ((audit jobs).0 ≡ 0) × (sum_of own_processed jobs ≡ affected is_own jobs)
unfolding audit
all_once [] h none_left = (refl, refl)
all_once (j ∷ js) h none_left = ground (arith, h.0, all_once js h.1)

finish-own :
    (name : Text) (id : ℕ) (jobs : List Job)
    → affected is_own (finish name id jobs) ≡ affected is_own jobs
finish-own name id [] = refl
finish-own name id (j ∷ js) = ground (arith, finish-own name id js)

move-own :
    (fails : Bool) (ws : List Worker) (jobs : List Job) (w : Worker) (pc : Pc)
    → affected is_own (move fails ws jobs w pc).1 ≡ affected is_own jobs
move-own fails ws jobs w idle = refl
move-own true ws jobs w (working id) = refl
move-own false ws jobs w (working id) = finish-own w.name id jobs
move-own fails ws jobs w counting = refl
move-own fails ws jobs w stopped = refl
move-own fails ws jobs w failed = refl

move_worker-own :
    (m : ℕ × Bool) (p : Pool) → affected is_own (move_worker m p).jobs ≡ affected is_own p.jobs
unfolding move_worker
move_worker-own (n, fails) p = elim (Option-cases (get_elem? p.workers n)) [
  | inl e ↦ rw (move_worker, e) refl
  | inr (w, e) ↦ rw (move_worker, e) (move-own fails p.workers p.jobs w w.pc)
]

run_workers-own :
    (ms : List (ℕ × Bool)) (p : Pool)
    → affected is_own (run_workers ms p).jobs ≡ affected is_own p.jobs
unfolding run_workers
run_workers-own [] p = refl
run_workers-own (m ∷ ms) p = run_workers-own ms (move_worker m p) ∙ move_worker-own m p

none_or_some : (n : ℕ) → (n ≡ 0) ⊎ (1 ≤ n)
none_or_some zero = inl refl
none_or_some (suc n) = inr (omega arith)

settled-once :
    (p : Pool)
    → IsPool p
    → (n : ℕ) → affected is_own p.jobs ≡ n
    → (affected is_stopped p.workers ≡ 0) ⊎ (1 ≤ affected is_stopped p.workers)
    → (affected is_stopped p.workers ≡ 0)
      ⊎ (((audit p.jobs).0 ≡ 0) × (sum_of (λ w. w.claimed) p.workers ≡ n))
settled-once p inv n own (inl none_stopped) = inl none_stopped
settled-once p inv n own (inr some_stopped) =
    let (once, sums) = all_once p.jobs inv.counted (inv.settled some_stopped) in
    inr (once, inv.balanced ∙ sums ∙ own)

-- With any number of workers, in every order of their moves and whichever transactions fail: the
-- query at the end never finds a row that was processed twice, and the numbers of rows that the
-- workers count add up to what the rows say. Once a worker has left its loop, no row is unprocessed
-- either, and the counts add up to the number of rows that were inserted. At the start the ids of
-- the table are unique and below the next one.
pub run_workers-audit :
    (next n : ℕ) (names : List Text) (jobs : List Job) (ms : List (ℕ × Bool))
    → ((id : ℕ) → affected (has_job_id id) jobs ≤ 1)
    → All (λ j. j.id < next) jobs
    → let p = run_workers ms (set_up next n names jobs) in
      let (unprocessed, double_processed) = audit p.jobs in
      let counted = sum_of (λ w. w.claimed) p.workers in
      (double_processed ≡ 0)
      × ((counted ≡ sum_of own_processed p.jobs)
          × ((affected is_stopped p.workers ≡ 0) ⊎ ((unprocessed ≡ 0) × (counted ≡ n))))
unfolding set_up
run_workers-audit next n names jobs ms unique below =
    let inv = run_workers-IsPool ms _ (set_up-IsPool next n names jobs unique below) in
    let own = run_workers-own ms (set_up next n names jobs) ∙ fresh-own next n jobs in
    let p = run_workers ms (set_up next n names jobs) in
    (
      not_twice p.jobs inv.counted,
      (inv.balanced, settled-once p inv n own (none_or_some (affected is_stopped p.workers))),
    )
