-- ===== src/Goals/Reconcile.antt =====
-- `reconcile`, `start` and `reconcile_all` of core/goals/coordinator.py, on the tables of the goals and
-- those of the jobs. Every call of a store commits, so an exception keeps what was written before it.
pub mod Settle
pub mod Dispatch
pub mod Phases
pub mod Starts
pub mod Bounds
pub mod Slots
use galaxz.Prelude.{
  ℕ, String, Bool, true, false, ◌||◌, Option, none, some, List, [], ◌∷◌, Result, ok, err, key_error,
  value_error, if◌then◌else◌,
}
use galaxz.Prelude.Table.{exists}
use galaxz.Jobs.Store.{Db}
use galaxz.Goals.Plan.{PlannedTask, TaskStatus, is_pending}
use galaxz.Goals.Store.{
  Goal, GoalStatus, GoalDb, get_goal, set_goal_status, get_tasks, list_active_goals,
}
use galaxz.Goals.Blocking.{block_dependents}
use galaxz.Goals.Control.{World, Order, log}
use galaxz.Goals.Substitution.{by_id}
use galaxz.Goals.Reconcile.Settle.{settle_tasks}
use galaxz.Goals.Reconcile.Dispatch.{Limits, Draw, Texts, is_complete, is_running, dispatch, slots}

-- The blocking of tasks behind lost ones; its fuel does not run out.
unfoldable pub block_tasks : ℕ → GoalDb → GoalDb
block_tasks id db = elim (block_dependents (get_tasks id db) db.rows) [
  | none ↦ db
  | some e ↦ record db { rows = e.table }
]

unfoldable pub all_done : List PlannedTask → Bool
all_done [] = true
all_done (t ∷ ts) = let rest = all_done ts in if is_complete t.status then rest else false

unfoldable pub any_open : List PlannedTask → Bool
any_open tasks = exists (λ (t : PlannedTask). is_pending t.status || is_running t.status) tasks

-- the status of a goal by those of its tasks
unfoldable pub finish_goal : ℕ → ℕ → List PlannedTask → GoalDb → GoalDb
finish_goal id now tasks db =
    if all_done tasks
    then log id "complete" [] (record { actor = "system"; reason = none; now = now })
        (set_goal_status id GoalStatus.complete db)
    else if any_open tasks
    then db
    else set_goal_status id GoalStatus.failed db

module _ (x : Texts) (l : Limits) (d : Draw) where
  finish_world : ℕ → World × Result (Unit {0}) → World × Result (Unit {0})
  finish_world id (w, err e) = (w, err e)
  finish_world id (w, ok u) =
      (record w { store = finish_goal id (d.ended id) (get_tasks id w.store) w.store }, ok tt)

  dispatch_slots :
      Goal
      → (ℕ → Option PlannedTask)
      → List PlannedTask
      → Result ℕ
      → World
      → World × Result (Unit {0})
  unfolding finish_world
  dispatch_slots g deps tasks (err e) w = (w, err e)
  dispatch_slots g deps tasks (ok n) w = finish_world g.goal_id (dispatch x d g deps n tasks w)

  -- what follows the first loop
  unfoldable pub advance : Goal → World → World × Result (Unit {0})
  unfolding dispatch_slots
  advance g w =
      let blocked = block_tasks g.goal_id w.store in
      let tasks = get_tasks g.goal_id blocked in
      dispatch_slots g (by_id (get_tasks g.goal_id w.store)) tasks (slots l tasks w.jobs)
        (record w { store = blocked })

  reconcile_settled : Goal → GoalDb × Result Bool → Db → World × Result (Unit {0})
  reconcile_settled g (db, err e) jobs = (record { store = db; jobs = jobs }, err e)
  reconcile_settled g (db, ok true) jobs = (record { store = db; jobs = jobs }, ok tt)
  reconcile_settled g (db, ok false) jobs = advance g (record { store = db; jobs = jobs })

  reconcile_goal : Goal → GoalStatus → World → World × Result (Unit {0})
  unfolding reconcile_settled
  reconcile_goal g GoalStatus.running w =
      reconcile_settled g (settle_tasks g w.jobs (get_tasks g.goal_id w.store) w.store) w.jobs
  reconcile_goal g _ w = (w, ok tt)

  unfoldable pub reconcile : ℕ → World → World × Result (Unit {0})
  unfolding reconcile_goal
  reconcile id w = elim (get_goal id w.store) [
    | none ↦ (w, ok tt)
    | some g ↦ reconcile_goal g g.status w
  ]

  start_goal : ℕ → GoalStatus → Order → World → World × Result (Unit {0})
  start_goal id GoalStatus.planning o w = (w, err value_error)
  start_goal id GoalStatus.complete o w = (w, err value_error)
  start_goal id GoalStatus.failed o w = (w, err value_error)
  start_goal id GoalStatus.cancelled o w = (w, err value_error)
  start_goal id _ o w =
      reconcile id
        (record w { store = log id "resume" [] o (set_goal_status id GoalStatus.running w.store) })

  unfoldable pub start : ℕ → Order → World → World × Result (Unit {0})
  unfolding start_goal
  start id o w = elim (get_goal id w.store) [
    | none ↦ (w, err key_error)
    | some g ↦ start_goal id g.status o w
  ]

  abbrev is_paused : GoalStatus → Bool
  is_paused GoalStatus.paused = true
  is_paused _ = false

  unfoldable pub reconcile_goals : List Goal → World → World × Result (Unit {0})
  reconcile_goals [] w = (w, ok tt)
  reconcile_goals (g ∷ gs) w =
      let first = if is_paused g.status then (w, ok tt) else reconcile g.goal_id w in
      let rest = reconcile_goals gs first.0 in
      elim first.1 [ err e ↦ (first.0, err e) | ok u ↦ rest ]

  unfoldable pub reconcile_all : World → World × Result (Unit {0})
  reconcile_all w = reconcile_goals (list_active_goals w.store) w
