-- ===== src/Workers/Rows.antt =====
-- What the UPDATE of a worker does to the rows, where the row it has locked is open and unique.
use marketplace_api.Prelude.{
  All, Bool, Bool-cases, List, Text, Text-discrete, [], arith, false, if◌then◌else◌, inl, inr, refl,
  sum_of, true, ℕ, ℕ_discrete, ◌&&◌, ◌+◌, ◌∷◌, ◌≡◌, ◌≤◌,
}
use marketplace_api.Workers.{Job, has_job_id, is_own, is_new_job, finish, set_done}
use marketplace_api.Sql.{affected, affected-update-le}

abbrev pub is_row_open : ℕ → Job → Bool
is_row_open id j = has_job_id id j && is_new_job j

-- An own row has been processed once if it is done, and not at all before.
abbrev pub IsCounted : Job → Type 0
IsCounted j = is_own j ≡ true → j.processed ≡ (if is_new_job j then 0 else 1)

abbrev pub own_processed : Job → ℕ
own_processed j = if is_own j then j.processed else 0

pub set_done-closed : (name : Text) (j : Job) → is_new_job (set_done name j) ≡ false
unfolding Text-discrete ℕ_discrete
set_done-closed name j = refl

pub row_open-le :
    (id : ℕ) (jobs : List Job) → affected (is_row_open id) jobs ≤ affected (has_job_id id) jobs
row_open-le id [] = omega arith
row_open-le id (j ∷ js) = ground (arith, row_open-le id js)

-- The rows with the id that is locked are open.
abbrev pub AllOpen : ℕ → List Job → Type 0
AllOpen id jobs = All (λ j. has_job_id id j ≡ true → is_new_job j ≡ true) jobs

without-AllOpen : (id : ℕ) (jobs : List Job) → affected (has_job_id id) jobs ≡ 0 → AllOpen id jobs
without-AllOpen id [] h = tt
without-AllOpen id (j ∷ js) h = (λ e. absurd (ground arith), without-AllOpen id js (ground arith))

pub locked-AllOpen :
    (id : ℕ) (jobs : List Job)
    → affected (has_job_id id) jobs ≤ 1
    → 1 ≤ affected (is_row_open id) jobs
    → AllOpen id jobs
locked-AllOpen id [] one some_open = tt
locked-AllOpen id (j ∷ js) one some_open = elim (Bool-cases (has_job_id id j)) [
  | inl y ↦ (λ e. ground (arith, y, row_open-le id js), without-AllOpen id js (ground (arith, y)))
  | inr n ↦
      (λ e. absurd (ground arith), locked-AllOpen id js (ground (arith, n)) (ground (arith, n)))
]

module _ (name : Text) (id : ℕ) where
  pub affected-finish :
      (k : ℕ) (jobs : List Job)
      → affected (has_job_id k) (finish name id jobs) ≡ affected (has_job_id k) jobs
  affected-finish k [] = refl
  affected-finish k (j ∷ js) = ground (arith, affected-finish k js)

  pub other-finish :
      (k : ℕ) (jobs : List Job)
      → ¬ (k ≡ id)
      → affected (is_row_open k) (finish name id jobs) ≡ affected (is_row_open k) jobs
  other-finish k [] ne = refl
  other-finish k (j ∷ js) ne = ground (arith, other-finish k js ne)

  done-IsCounted : (j : Job) → is_new_job j ≡ true → IsCounted j → IsCounted (set_done name j)
  done-IsCounted j o h own = rw (set_done-closed name j) (ground (arith, h own, o))

  pub finish-IsCounted :
      (jobs : List Job) → AllOpen id jobs → All IsCounted jobs → All IsCounted (finish name id jobs)
  finish-IsCounted [] opened h = tt
  finish-IsCounted (j ∷ js) opened h =
      let later = finish-IsCounted js opened.1 h.1 in
      elim (Bool-cases (has_job_id id j)) [
        | inl y ↦ rw y (done-IsCounted j (opened.0 y) h.0, later)
        | inr n ↦ rw n (h.0, later)
      ]

  pub finish-remaining :
      (jobs : List Job) → affected is_new_job (finish name id jobs) ≤ affected is_new_job jobs
  finish-remaining jobs =
      affected-update-le is_new_job (has_job_id id) (set_done name)
        (λ j e. absurd (ground (arith, set_done-closed name j))) jobs

  pub finish-processed :
      (jobs : List Job)
      → AllOpen id jobs
      → sum_of own_processed (finish name id jobs)
        ≡ sum_of own_processed jobs + affected (has_job_id id) jobs
  finish-processed [] opened = refl
  finish-processed (j ∷ js) opened = ground (arith, finish-processed js opened.1, opened.0)
