-- ===== src/Workers.antt =====
-- src/demo-workers.ts: workers that share the post-processing jobs without an order. Each claims a
-- row with FOR UPDATE SKIP LOCKED, keeps its lock while it works, and commits the row as done.
-- A row lock is what a worker that works on the row holds; a transaction that fails is rolled back
-- and ends its worker. A schedule says which worker moves next, and whether its transaction fails.
mod Tests
pub mod Finish
pub mod Start
pub mod Audit
pub mod Once
pub mod Invariant
pub mod Rows
use marketplace_api.Prelude.{
  Bool, List, Option, Text, [], false, get_elem?, if◌then◌else◌, leb, ltb, none, not, some, suc,
  text, text_eq, true, zero, ℕ, ◌&&◌, ◌==◌, ◌∷◌, map, ◌++◌, set_at,
}
use marketplace_api.Sql.{contains, select, update, affected}
use marketplace_api.System.{step}

-- A row of `post_processing_jobs`, as far as the script reads it
pub record Job : Type 0 where
  pub id : ℕ
  pub order_id : Option ℕ
  pub status : Text
  pub worker : Option Text
  pub processed : ℕ

-- Where a worker stands.
pub data Pc : Type 0 where
  -- the head of the loop
  idle : Pc
  -- in a transaction, with the lock of a row
  working : ℕ → Pc
  -- before it counts what is left
  counting : Pc
  -- out of the loop
  stopped : Pc
  -- ended by a transaction that failed
  failed : Pc

pub record Worker : Type 0 where
  pub name : Text
  pub pc : Pc
  -- stats[name]
  pub claimed : ℕ

pub record Pool : Type 0 where
  pub jobs : List Job
  pub workers : List Worker

abbrev pub is_null : Option ℕ → Bool
is_null none = true
is_null (some n) = false

-- WHERE "orderId" IS NULL
abbrev pub is_own : Job → Bool
is_own j = is_null j.order_id

-- WHERE status = 'new' AND "orderId" IS NULL
abbrev pub is_new_job : Job → Bool
is_new_job j = text_eq j.status (text "new") && is_own j

abbrev pub works_on : ℕ → Pc → Bool
works_on id (working k) = k == id
works_on id _ = false

abbrev pub holds : ℕ → Worker → Bool
holds id w = works_on id w.pc

-- The rows that SKIP LOCKED leaves
abbrev pub is_claimable : List Worker → Job → Bool
is_claimable ws j = is_new_job j && not (contains (holds j.id) ws)

-- ORDER BY id LIMIT 1
abbrev pub lowest_of : Job → List Job → Job
lowest_of j [] = j
lowest_of j (k ∷ ks) = lowest_of (if ltb k.id j.id then k else j) ks

abbrev pub lowest : List Job → Option Job
lowest [] = none
lowest (j ∷ js) = some (lowest_of j js)

-- The SELECT of `claimOne`
unfoldable pub claim_one : List Worker → List Job → Option Job
claim_one ws jobs = lowest (select (is_claimable ws) jobs)

abbrev pub has_job_id : ℕ → Job → Bool
has_job_id id j = j.id == id

abbrev pub set_done : Text → Job → Job
set_done name j = record j { status = text "done"; worker = some name; processed = suc j.processed }

-- The UPDATE of `claimOne`
abbrev pub finish : Text → ℕ → List Job → List Job
finish name id jobs = update (has_job_id id) (set_done name) jobs

abbrev pub pc_after : Option Job → Pc
pc_after none = counting
pc_after (some j) = working j.id

-- One move of a worker in `runWorker`; a query that fails ends it.
abbrev pub move : Bool → List Worker → List Job → Worker → Pc → Worker × List Job
move fails ws jobs w idle =
    (record w { pc = if fails then failed else pc_after (claim_one ws jobs) }, jobs)
move fails ws jobs w (working id) =
    if fails
    then (record w { pc = failed }, jobs)
    else (record w { pc = idle; claimed = suc w.claimed }, finish w.name id jobs)
move fails ws jobs w counting = (
  record w {
    pc = if fails then failed else (if affected is_new_job jobs == 0 then stopped else idle);
  },
  jobs,
)
move fails ws jobs w stopped = (w, jobs)
move fails ws jobs w failed = (w, jobs)

unfoldable pub move_worker : ℕ × Bool → Pool → Pool
unfolding claim_one
move_worker (n, fails) p = elim (get_elem? p.workers n) [
  | none ↦ p
  | some w ↦
      let (w', jobs') = move fails p.workers p.jobs w w.pc in
      record { jobs = jobs'; workers = set_at n w' p.workers }
]

-- The workers side by side, in the order of a schedule.
unfoldable pub run_workers : List (ℕ × Bool) → Pool → Pool
unfolding move_worker
run_workers [] p = p
run_workers (m ∷ ms) p = run_workers ms (move_worker m p)

abbrev pub started : Text → Worker
started name = record { name = name; pc = idle; claimed = 0 }

-- The query at the end of `main`: rows that no worker processed, and rows processed twice.
unfoldable pub audit : List Job → ℕ × ℕ
audit jobs = (
  affected (λ j. is_own j && j.processed == 0) jobs,
  affected (λ j. is_own j && leb 2 j.processed) jobs,
)

abbrev pub not_own : Job → Bool
not_own j = not (is_own j)

-- INSERT ... SELECT 'new', NULL FROM generate_series(1, n), with the ids from `next` on
abbrev pub fresh_jobs : ℕ → ℕ → List Job
fresh_jobs next zero = []
fresh_jobs next (suc n) =
    record { id = next; order_id = none; status = text "new"; worker = none; processed = 0 }
    ∷ fresh_jobs (suc next) n

-- What `main` sets up: the own rows of before are deleted, and `n` new ones inserted.
unfoldable pub set_up : ℕ → ℕ → List Text → List Job → Pool
set_up next n names jobs = record {
  jobs = select not_own jobs ++ fresh_jobs next n;
  workers = map started names;
}
