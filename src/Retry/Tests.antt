-- ===== src/Retry/Tests.antt =====
-- Two changes of one balance that meet: the one that writes later is repeated.
use marketplace_api.Retry.{finished}
use marketplace_api.Prelude.{
  List, Option, [], arith, get_elem?, none, refl, replicate, some, true, ℕ, ◌==◌, ◌∷◌, ◌≡◌,
}
use marketplace_api.Retry.{
  ℤ, SqlState, run_changes, Spot, pos, deadlock_detected, bumps, negsuc, one_by_one,
}
use marketplace_api.Retry.Settled.{is_settled, run_changes-settled}
use marketplace_api.Sql.{affected}
use marketplace_api.Retry.Serial.{IsTried}
use marketplace_api.Retry.Outcome.{run_changes-serial}

abbrev two_deltas : List ℤ
two_deltas = pos 5000 ∷ negsuc 2999 ∷ []

abbrev clash : List (ℕ × Option SqlState)
clash =
    (0, none)
    ∷ (1, none)
    ∷ (1, none)
    ∷ (0, none)
    ∷ (0, some deadlock_detected)
    ∷ (0, none)
    ∷ (0, none)
    ∷ []

both_applied : (run_changes clash (bumps (pos 100000) two_deltas)).balance ≡ pos 102000
unfolding run_changes bumps
both_applied = refl

order_of_commits : (run_changes clash (bumps (pos 100000) two_deltas)).committed ≡ 0 ∷ 1 ∷ []
unfolding run_changes bumps
order_of_commits = refl

run_changes-serial_example :
    let l = run_changes clash (bumps (pos 100000) two_deltas) in
    (l.balance ≡ one_by_one (pos 100000) two_deltas l.committed)
    × ((affected (λ k. k == 0) l.committed ≡ 1) × IsTried finished)
unfolding run_changes bumps
run_changes-serial_example = run_changes-serial (pos 100000) two_deltas clash 0 finished refl

-- The first change meets an error at each of ten moves.
abbrev unlucky : List (ℕ × Option SqlState)
unlucky = (1, none) ∷ replicate 10 (0, some deadlock_detected)

run_changes-settled_example :
    (s : Spot) × (get_elem? (run_changes unlucky (bumps (pos 100000) two_deltas)).spots 0 ≡ some s)
    × (is_settled s ≡ true)
run_changes-settled_example =
    run_changes-settled (pos 100000) two_deltas unlucky 0 (omega arith) (omega arith)
