-- ===== src/Workers/Tests.antt =====
-- Two workers over two new rows, beside the row of an order and a row of a run before.
use marketplace_api.Prelude.{
  Bool, List, Text, Text-discrete, [], arith, false, map, none, refl, some, sum_of, text, true, ℕ,
  ℕ_discrete, ◌∷◌, ◌≡◌, ◌≤◌, ◌⊎◌,
}
use marketplace_api.Workers.{Job, run_workers, set_up, failed, has_job_id, audit, stopped, started}
use marketplace_api.Workers.Finish.{alone, HasStopped, alone-stops, Waits}
use marketplace_api.Sql.{affected}
use marketplace_api.Workers.Rows.{own_processed}
use marketplace_api.Workers.Invariant.{is_stopped}
use marketplace_api.Workers.Audit.{run_workers-audit}

abbrev of_order_5 : Job
of_order_5 = record { id = 1; order_id = some 5; status = text "new"; worker = none; processed = 0 }

abbrev of_before : Job
of_before = record { id = 2; order_id = none; status = text "done"; worker = none; processed = 1 }

abbrev table : List Job
table = of_order_5 ∷ of_before ∷ []

abbrev crew : List Text
crew = text "a" ∷ text "b" ∷ []

-- Both claim a row, the first fails, and the second goes on until it stops.
abbrev schedule : List (ℕ × Bool)
schedule = (0, false) ∷ (1, false) ∷ (0, true) ∷ (1, false) ∷ alone 1 1

pcs : map (λ w. w.pc) (run_workers schedule (set_up 3 2 crew table)).workers ≡ failed ∷ stopped ∷ []
unfolding run_workers set_up Text-discrete ℕ_discrete
pcs = refl

claims : map (λ w. w.claimed) (run_workers schedule (set_up 3 2 crew table)).workers ≡ 0 ∷ 2 ∷ []
unfolding run_workers set_up Text-discrete ℕ_discrete
claims = refl

table_unique : (id : ℕ) → affected (has_job_id id) table ≤ 1
table_unique id = ground arith

run_workers-audit_example :
    let p = run_workers schedule (set_up 3 2 crew table) in
    let (unprocessed, double_processed) = audit p.jobs in
    let counted = sum_of (λ w. w.claimed) p.workers in
    (double_processed ≡ 0)
    × ((counted ≡ sum_of own_processed p.jobs)
        × ((affected is_stopped p.workers ≡ 0) ⊎ ((unprocessed ≡ 0) × (counted ≡ 2))))
run_workers-audit_example =
    run_workers-audit 3 2 crew table schedule table_unique (omega arith, (omega arith, tt))

alone-stops_example :
    HasStopped 0 (run_workers (alone 0 2) (set_up 3 2 crew table))
    ⊎ Waits 0 (set_up 3 2 crew table) (run_workers (alone 0 2) (set_up 3 2 crew table))
unfolding set_up Text-discrete ℕ_discrete
alone-stops_example =
    alone-stops 0 2 (set_up 3 2 crew table) (started (text "a")) refl refl (omega arith)
