-- ===== src/Workers/Start.antt =====
-- The pool that the script sets up, before the workers move.
use marketplace_api.Prelude.{
  All, All-append, Bool, Bool-cases, List, Text, Text-discrete, [], ap, arith, false, if◌then◌else◌,
  inl, inr, leb, map, refl, suc, sum_of, sym, zero, ℕ, ℕ_discrete, ◌++◌, ◌<◌, ◌∙◌, ◌∷◌, ◌≡◌, ◌≤◌,
}
use marketplace_api.Sql.{affected, select, affected-append}
use marketplace_api.Workers.{
  Job, Worker, started, set_up, has_job_id, fresh_jobs, is_own, not_own, holds,
}
use marketplace_api.Workers.Rows.{IsCounted, own_processed}
use marketplace_api.Workers.Invariant.{IsPool, is_stopped}

-- The start is a pool: `main` leaves the rows of orders and adds open ones with new ids.
module _ (next : ℕ) where
  fresh-ids :
      (id at n : ℕ) → affected (has_job_id id) (fresh_jobs at n) ≤ (if leb at id then 1 else 0)
  fresh-ids id at zero = omega arith
  fresh-ids id at (suc n) = ground (arith, fresh-ids id (suc at) n)

  old-ids :
      (id : ℕ) (jobs : List Job)
      → All (λ j. j.id < next) jobs
      → affected (has_job_id id) (select not_own jobs)
        ≤ (if leb next id then 0 else affected (has_job_id id) jobs)
  old-ids id [] h = ground arith
  old-ids id (j ∷ js) h = ground (arith, old-ids id js h.1, h.0)

fresh-IsCounted : (at n : ℕ) → All IsCounted (fresh_jobs at n)
unfolding Text-discrete ℕ_discrete
fresh-IsCounted at zero = tt
fresh-IsCounted at (suc n) = (λ own. refl, fresh-IsCounted (suc at) n)

old-IsCounted : (jobs : List Job) → All IsCounted (select not_own jobs)
old-IsCounted [] = tt
old-IsCounted (j ∷ js) = elim (Bool-cases (is_own j)) [
  | inl y ↦ rw y (old-IsCounted js)
  | inr n ↦ rw n (λ own. absurd (ground (arith, n)), old-IsCounted js)
]

fresh-processed :
    (at n : ℕ) (jobs : List Job) → sum_of own_processed (select not_own jobs ++ fresh_jobs at n) ≡ 0
fresh-processed at zero [] = refl
fresh-processed at (suc n) [] = omega (arith, fresh-processed (suc at) n [])
fresh-processed at n (j ∷ js) = ground (arith, fresh-processed at n js)

pub fresh-own :
    (at n : ℕ) (jobs : List Job) → affected is_own (select not_own jobs ++ fresh_jobs at n) ≡ n
fresh-own at zero [] = refl
fresh-own at (suc n) [] = ap suc (fresh-own (suc at) n [])
fresh-own at n (j ∷ js) = ground (arith, fresh-own at n js)

started-none :
    (p : Worker → Bool)
    → ((name : Text) → p (started name) ≡ false)
    → (names : List Text) → affected p (map started names) ≡ 0
started-none p h [] = refl
started-none p h (x ∷ xs) = ground (arith, h x, started-none p h xs)

started-claimed : (names : List Text) → sum_of (λ w. w.claimed) (map started names) ≡ 0
started-claimed [] = refl
started-claimed (x ∷ xs) = omega (arith, started-claimed xs)

pub set_up-IsPool :
    (next n : ℕ) (names : List Text) (jobs : List Job)
    → ((id : ℕ) → affected (has_job_id id) jobs ≤ 1)
    → All (λ j. j.id < next) jobs
    → IsPool (set_up next n names jobs)
unfolding set_up
set_up-IsPool next n names jobs unique below = record {
  one_row = λ id. ground (
    arith,
    affected-append (has_job_id id) (select not_own jobs) (fresh_jobs next n),
    fresh-ids next id next n,
    old-ids next id jobs below,
    unique id,
  );
  locked = λ id. omega (arith, started-none (holds id) (λ name. refl) names);
  counted =
      All-append IsCounted (select not_own jobs) (fresh_jobs next n) (old-IsCounted jobs)
        (fresh-IsCounted next n);
  settled = λ h. absurd (omega (arith, h, started-none is_stopped (λ name. refl) names));
  balanced = started-claimed names ∙ sym (fresh-processed next n jobs);
}
