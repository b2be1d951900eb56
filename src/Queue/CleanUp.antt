-- ===== src/Queue/CleanUp.antt =====
-- What the clean-up removes, and what it never does.
use marketplace_api.Prelude.{
  All, Bool-cases, List, Option-cases, [], arith, false, inl, inr, length, not, refl, ℕ, ◌+◌, ◌∷◌,
  ◌≡◌, true, All-intro, In, none, some, ◌<◌, ◌≤◌, ◌⊎◌,
}
use marketplace_api.Store.{OutboxRow, Db}
use marketplace_api.Queue.{cleanup_outbox, is_outdated}
use marketplace_api.Sql.{select, affected, In-select_intro}
use marketplace_api.Outbox.Relay.{is_pending}

pub cleanup-All :
    (P : OutboxRow → Type 0) (now : ℕ) (rows : List OutboxRow)
    → All P rows
    → All P (select (λ r. not (is_outdated now r)) rows)
cleanup-All P now [] h = tt
cleanup-All P now (r ∷ rs) h = ground (arith, cleanup-All P now rs h.1, h.0)

pub outdated-pending : (now : ℕ) (r : OutboxRow) → is_outdated now r ≡ true → is_pending r ≡ false
outdated-pending now r h = elim (Option-cases r.published_at) [
  | inl e ↦ absurd (ground (arith, e, h))
  | inr (t, e) ↦ ground (arith, e)
]

pending-kept :
    (now : ℕ) (rows : List OutboxRow)
    → select is_pending (select (λ r. not (is_outdated now r)) rows) ≡ select is_pending rows
pending-kept now [] = refl
pending-kept now (r ∷ rs) = elim (Bool-cases (is_outdated now r)) [
  | inl old ↦ ground (arith, old, outdated-pending now r old, pending-kept now rs)
  | inr young ↦ ground (arith, young, pending-kept now rs)
]

removed-count :
    (now : ℕ) (rows : List OutboxRow)
    → affected (is_outdated now) rows + length (select (λ r. not (is_outdated now r)) rows)
      ≡ length rows
removed-count now [] = refl
removed-count now (r ∷ rs) = ground (arith, removed-count now rs)

-- Seven days, in milliseconds.
abbrev pub seven_days : ℕ
seven_days = 604800000

-- A row that a clean-up keeps: it waits for the relay, or was published at most seven days before.
abbrev pub IsKept : ℕ → OutboxRow → Type 0
IsKept now r =
    (r.published_at ≡ none) ⊎ ((t : ℕ) × (r.published_at ≡ some t) × (now ≤ t + seven_days))

-- A row after a clean-up: it is still there, or was published more than seven days before.
abbrev pub IsSettled : ℕ → List OutboxRow → OutboxRow → Type 0
IsSettled now after r = In r after ⊎ ((t : ℕ) × (r.published_at ≡ some t) × (t + seven_days < now))

young-IsKept : (now : ℕ) (r : OutboxRow) → is_outdated now r ≡ false → IsKept now r
young-IsKept now r h = elim (Option-cases r.published_at) [
  | inl e ↦ inl e
  | inr (t, e) ↦ inr (t, e, ground (arith, e, h))
]

outdated_since :
    (now : ℕ) (r : OutboxRow)
    → is_outdated now r ≡ true
    → (t : ℕ) × (r.published_at ≡ some t) × (t + seven_days < now)
outdated_since now r h = elim (Option-cases r.published_at) [
  | inl e ↦ absurd (ground (arith, e, h))
  | inr (t, e) ↦ (t, e, ground (arith, e, h))
]

stays-IsKept :
    (now : ℕ) (rows : List OutboxRow)
    → All (IsKept now) (select (λ r. not (is_outdated now r)) rows)
stays-IsKept now [] = tt
stays-IsKept now (r ∷ rs) = elim (Bool-cases (is_outdated now r)) [
  | inl old ↦ rw old (stays-IsKept now rs)
  | inr young ↦ rw young (young-IsKept now r young, stays-IsKept now rs)
]

row-IsSettled :
    (now : ℕ) (rows : List OutboxRow) (r : OutboxRow)
    → In r rows
    → IsSettled now (select (λ r. not (is_outdated now r)) rows) r
row-IsSettled now rows r i = elim (Bool-cases (is_outdated now r)) [
  | inl old ↦ inr (outdated_since now r old)
  | inr young ↦
      inl (In-select_intro (λ r. not (is_outdated now r)) r rows i (ground (arith, young)))
]

-- A clean-up keeps the rows that wait for the relay, in their order; a row that stays waits or was
-- published at most seven days before, and a row that is gone was published more than seven days
-- before; and it reports the number of rows by which the outbox is shorter.
pub cleanup_outbox-pending :
    (now : ℕ) (db : Db)
    → let (removed, d) = cleanup_outbox now db in
      (select is_pending d.outbox ≡ select is_pending db.outbox)
      × All (IsKept now) d.outbox
      × All (IsSettled now d.outbox) db.outbox
      × (removed + length d.outbox ≡ length db.outbox)
unfolding cleanup_outbox
cleanup_outbox-pending now db = (
  pending-kept now db.outbox,
  stays-IsKept now db.outbox,
  All-intro _ db.outbox (row-IsSettled now db.outbox),
  removed-count now db.outbox,
)
