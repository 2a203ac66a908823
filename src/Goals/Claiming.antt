-- ===== src/Goals/Claiming.antt =====
-- On `try_claim_goal` of core/goals/store.py: repeated claims of one goal.
use galaxz.Prelude.{ℕ, ◌≡◌, refl, inl, inr, true, false, some, Bool-cases, arith}
use galaxz.Prelude.Table.{find-modify_hit}
use galaxz.Goals.Store.{
  Goal, GoalStatus, GoalDb, goal_key, get_goal, set_goal_status, with_status, is_startable,
  claimed_goal, try_claim,
}

-- A goal is claimed exactly if it is ready or paused; it runs then, and cannot be claimed again while it
-- does.
pub try_claim-once :
    (id : ℕ) (db : GoalDb) (g : Goal)
    → get_goal id db ≡ some g
    → ((try_claim id db).1 ≡ is_startable g.status)
      × ((try_claim id db).1 ≡ true
          → (get_goal id (try_claim id db).0 ≡ some (with_status GoalStatus.running g))
            × (try_claim id (try_claim id db).0 ≡ ((try_claim id db).0, false)))
unfolding try_claim claimed_goal set_goal_status get_goal with_status
try_claim-once id db g there = elim (Bool-cases (is_startable g.status)) [
  | inr other ↦ rw (there, other) (refl, λ e. absurd (ground arith))
  | inl free ↦
      let runs =
        find-modify_hit goal_key (with_status GoalStatus.running) (λ h. refl) id db.goals g there in
      rw (there, free) (refl, λ e. (runs, rw runs refl))
]
