-- ===== src/Workers/Once.antt =====
-- Each row is processed once, in every order of the workers' moves.
use marketplace_api.Workers.{
  Pc, failed, set_at, Pool, move_worker, run_workers, Worker, move, works_on, Job, claim_one, holds,
  pc_after, is_new_job, working, counting, stopped, idle,
}
use marketplace_api.Workers.Invariant.{
  moved-IsPool, finished-IsPool, claim_one-free, IsPool, is_stopped,
}
use marketplace_api.Prelude.{
  Bool, List, Option, Option-cases, [], arith, false, get_elem?, if◌then◌else◌, inl, inr, none,
  refl, some, sym, true, ℕ, ℕ_discrete, ◌+◌, ◌==◌, ◌∷◌, ◌≡◌, ◌≤◌, set_at_same,
}
use marketplace_api.Sql.{affected}
use mathlib.Core.Path.{subst}
use marketplace_api.Workers.Rows.{is_row_open}

module _ (p : Pool) (inv : IsPool p) (n : ℕ) (w : Worker)
    (here : get_elem? p.workers n ≡ some w) where
  abbrev Kept : Bool → Pc → Type 0
  Kept fails pc =
      let (w', jobs') = move fails p.workers p.jobs w pc in
      IsPool (record { jobs = jobs'; workers = set_at n w' p.workers })

  -- A worker that takes no lock and does not stop.
  let_go-IsPool :
      (pc : Pc)
      → ((id : ℕ) → works_on id pc ≡ false)
      → is_stopped (record w { pc = pc }) ≡ false
      → IsPool (record { jobs = p.jobs; workers = set_at n (record w { pc = pc }) p.workers })
  let_go-IsPool pc free goes =
      moved-IsPool p inv n w here pc (λ id. ground (arith, free id, inv.locked id))
        (λ e. absurd (ground (arith, goes)))

  lock-fits :
      (j : Job)
      → claim_one p.workers p.jobs ≡ some j
      → (id : ℕ)
      → affected (holds id) p.workers + (if works_on id (working j.id) then 1 else 0)
        ≤ affected (is_row_open id) p.jobs
  lock-fits j h id = elim (ℕ_discrete id j.id) [
    | yes e ↦
        let (opened, free) = claim_one-free p.workers p.jobs j h in
        subst
          (λ i.
            affected (holds i) p.workers + (if works_on i (working j.id) then 1 else 0)
            ≤ affected (is_row_open i) p.jobs)
          (sym e) (ground (arith, opened, free))
    | no ne ↦ ground (arith, inv.locked id)
  ]

  claim-IsPool :
      (o : Option Job)
      → claim_one p.workers p.jobs ≡ o
      → IsPool
          (record { jobs = p.jobs; workers = set_at n (record w { pc = pc_after o }) p.workers })
  claim-IsPool none h = let_go-IsPool counting (λ id. refl) refl
  claim-IsPool (some j) h =
      moved-IsPool p inv n w here (working j.id) (λ id. ground (arith, lock-fits j h id))
        (λ e. absurd (ground arith))

  count-IsPool :
      (b : Bool)
      → (affected is_new_job p.jobs == 0) ≡ b
      → IsPool (record {
        jobs = p.jobs;
        workers = set_at n (record w { pc = if b then stopped else idle }) p.workers;
      })
  count-IsPool true h =
      moved-IsPool p inv n w here stopped (λ id. ground (arith, inv.locked id))
        (λ e. ground (arith, h))
  count-IsPool false h = let_go-IsPool idle (λ id. refl) refl

  still-IsPool : IsPool (record { jobs = p.jobs; workers = set_at n w p.workers })
  still-IsPool =
      subst (λ ws. IsPool (record { jobs = p.jobs; workers = ws }))
        (sym (set_at_same n w p.workers here)) inv

  move-IsPool : (fails : Bool) (pc : Pc) → w.pc ≡ pc → Kept fails pc
  move-IsPool true idle at = let_go-IsPool Pc.failed (λ k. refl) refl
  move-IsPool false idle at = claim-IsPool (claim_one p.workers p.jobs) refl
  move-IsPool true (working id) at = let_go-IsPool Pc.failed (λ k. refl) refl
  move-IsPool false (working id) at = finished-IsPool p inv n w here id at
  move-IsPool true counting at = let_go-IsPool Pc.failed (λ k. refl) refl
  move-IsPool false counting at = count-IsPool (affected is_new_job p.jobs == 0) refl
  move-IsPool fails stopped at = still-IsPool
  move-IsPool fails failed at = still-IsPool

move_worker-IsPool : (m : ℕ × Bool) (p : Pool) → IsPool p → IsPool (move_worker m p)
unfolding move_worker
move_worker-IsPool (n, fails) p inv = elim (Option-cases (get_elem? p.workers n)) [
  | inl e ↦ rw (move_worker, e) inv
  | inr (w, e) ↦ rw (move_worker, e) (move-IsPool p inv n w e fails w.pc refl)
]

pub run_workers-IsPool : (ms : List (ℕ × Bool)) (p : Pool) → IsPool p → IsPool (run_workers ms p)
unfolding run_workers
run_workers-IsPool [] p inv = inv
run_workers-IsPool (m ∷ ms) p inv =
    run_workers-IsPool ms (move_worker m p) (move_worker-IsPool m p inv)
