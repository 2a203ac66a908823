-- ===== src/Goals/Reconcile/Slots.antt =====
-- On `reconcile` of core/goals/coordinator.py: how many tasks of a goal run after it.
use Prim.Native.Nat.{max}
use galaxz.Prelude.{ℕ, ◌≤◌, arith}
use galaxz.Prelude.Table.{IsKeyed}
use galaxz.Goals.Plan.{row_key}
use galaxz.Goals.Store.{get_tasks}
use galaxz.Goals.Control.{World}
use galaxz.Goals.Reconcile.Dispatch.{Limits, Draw, Texts, running_tasks}
use galaxz.Goals.Reconcile.Dispatch.Counts.{runs_for}
use galaxz.Goals.Reconcile.Bounds.{running_tasks-rows, Settled-Forgets, Stopped-Forgets}
use galaxz.Goals.Reconcile.Phases.{reconcile-Phases}
use galaxz.Goals.Reconcile.{reconcile}

-- Where tasks have identifiers of their own: after a reconciliation, also one that raises, no more
-- tasks of the goal run than did before or than its limit allows.
pub reconcile-IsBounded :
    (x : Texts) (l : Limits) (d : Draw) (id : ℕ) (w : World)
    → IsKeyed row_key w.store.rows
    → running_tasks (get_tasks id (reconcile x l d id w).0.store)
      ≤ max (running_tasks (get_tasks id w.store)) l.per_goal
reconcile-IsBounded x l d id w keyed =
    let p = reconcile-Phases x l d id w keyed in
    let fewer = p.settled.2 keyed (runs_for id) (Settled-Forgets id) in
    let fewest = p.stopped.2 (p.settled.1 keyed) (runs_for id) (Stopped-Forgets id) in
    let within = p.within in
    omega
      (arith, running_tasks-rows id (reconcile x l d id w).0.store, running_tasks-rows id w.store)
