-- ===== src/Goals/Control/Shut.antt =====
-- On `cancel_goal` (core/goals/coordinator.py) as a whole.
use mathlib.Core.Path.{subst}
use galaxz.Prelude.{ℕ, ◌≡◌, ◌≢◌, refl, ap, sym, ◌∙◌, inl, some, List, Result, ok, err, arith}
use galaxz.Prelude.Table.{All, IsKeyed}
use galaxz.Goals.Plan.{PlannedRow, row_key}
use galaxz.Goals.Store.{
  Goal, GoalDb, GoalStatus, get_goal, set_goal_status, get_tasks, record_event,
}
use galaxz.Goals.Reading.{read-All}
use galaxz.Goals.Control.{
  World, Order, log, cancel_tasks, cancel_ended, cancel_goal_in, cancel_goal,
}
use galaxz.Goals.Control.Cancelled.{IsSeen, IsShut, All-turned}

IsSeen-start :
    (id : ℕ) (db : GoalDb) → IsKeyed row_key db.rows → All (λ t. IsSeen db.rows t) (get_tasks id db)
IsSeen-start id db keyed =
    read-All (λ t. IsSeen db.rows t) id db keyed
      (λ r there mine q found.
        let same : q ≡ r = cc (there, found) in inl (ap (λ (z : PlannedRow). z.task.status) same))

ended_ok :
    (id : ℕ) (o : Order) (p : World × Result (List ℕ))
    → (cancel_ended id o p).1 ≡ ok tt
    → (js : List ℕ) × (p.1 ≡ ok js) × ((cancel_ended id o p).0.store.rows ≡ p.0.store.rows)
unfolding cancel_ended log record_event set_goal_status
ended_ok id o (w, ok js) e = (js, refl, refl)
ended_ok id o (w, err x) e = absurd (ground arith)

shut-All :
    (id : ℕ) (o : Order) (w : World)
    → IsKeyed row_key w.store.rows
    → (cancel_ended id o (cancel_tasks o.now (get_tasks id w.store) w)).1 ≡ ok tt
    → All
        (λ t.
          IsShut (cancel_ended id o (cancel_tasks o.now (get_tasks id w.store) w)).0.store.rows t)
        (get_tasks id w.store)
shut-All id o w keyed e =
    let (js, done, same) = ended_ok id o (cancel_tasks o.now (get_tasks id w.store) w) e in
    let (keep, shut) = All-turned o.now (get_tasks id w.store) w js done in
    subst (λ rows. All (λ t. IsShut rows t) (get_tasks id w.store)) (sym same)
      (shut (IsSeen-start id w.store keyed))

shut_in :
    (id : ℕ) (s : GoalStatus) (o : Order) (w : World)
    → IsKeyed row_key w.store.rows
    → s ≢ GoalStatus.cancelled
    → (cancel_goal_in id s o w).1 ≡ ok tt
    → All (λ t. IsShut (cancel_goal_in id s o w).0.store.rows t) (get_tasks id w.store)
unfolding cancel_goal_in
shut_in id GoalStatus.cancelled o w keyed new e = absurd (new refl)
shut_in id GoalStatus.complete o w keyed new e = absurd (ground arith)
shut_in id GoalStatus.failed o w keyed new e = absurd (ground arith)
shut_in id GoalStatus.planning o w keyed new e = shut-All id o w keyed e
shut_in id GoalStatus.ready o w keyed new e = shut-All id o w keyed e
shut_in id GoalStatus.running o w keyed new e = shut-All id o w keyed e
shut_in id GoalStatus.paused o w keyed new e = shut-All id o w keyed e

opened :
    (id : ℕ) (o : Order) (w : World) (g : Goal)
    → get_goal id w.store ≡ some g
    → cancel_goal id o w ≡ cancel_goal_in id g.status o w
unfolding cancel_goal
opened id o w g there = rw (there, cancel_goal) refl

-- Where tasks have identifiers of their own: when the cancellation of a goal that was not cancelled
-- returns, none of the tasks that the goal had waits or runs.
pub cancel_goal-shuts :
    (id : ℕ) (o : Order) (w : World) (g : Goal)
    → IsKeyed row_key w.store.rows
    → get_goal id w.store ≡ some g
    → g.status ≢ GoalStatus.cancelled
    → (cancel_goal id o w).1 ≡ ok tt
    → All (λ t. IsShut (cancel_goal id o w).0.store.rows t) (get_tasks id w.store)
cancel_goal-shuts id o w g keyed there new e =
    let same = opened id o w g there in
    subst
      (λ (z : World × Result (Unit {0})). All (λ t. IsShut z.0.store.rows t) (get_tasks id w.store))
      (sym same) (shut_in id g.status o w keyed new (ap (λ z. z.1) (sym same) ∙ e))
