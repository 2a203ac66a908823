-- ===== src/Goals/Reconcile/Phases.antt =====
-- On `reconcile` of core/goals/coordinator.py: its three loops, one after the other.
use mathlib.Core.Path.{subst}
use galaxz.Prelude.{
  ◌-◌, ◌+◌, ◌≤◌, ℕ, ◌≡◌, refl, sym, true, false, Bool, Option, none, some, List, [], ◌∷◌, Result,
  ok, err, inl, inr, Option-cases, arith, ◌==◌, Bool-cases,
}
use galaxz.Prelude.Table.{find, key-find, IsKeyed, All}
use galaxz.Jobs.Store.{Db}
use galaxz.Goals.Plan.{PlannedTask, PlannedRow, TaskStatus, row_key}
use galaxz.Goals.Store.{
  Goal, GoalStatus, GoalDb, goal_key, get_goal, get_tasks, set_goal_status, record_event,
}
use galaxz.Goals.Control.{World, log}
use galaxz.Goals.Blocking.{block_dependents}
use galaxz.Goals.Blocking.Changes.{IsBlocked, Stopped, block_dependents-Stopped}
use galaxz.Goals.Substitution.{by_id}
use galaxz.Goals.Rows.{Moves, Moves-same}
use galaxz.Goals.Reading.{read-All, read-Shows, read-IsKeyed}
use galaxz.Goals.Diagram.{Plain, Once-IsPreorder}
use galaxz.Goals.Reconcile.Settle.{settle_tasks}
use galaxz.Goals.Reconcile.Settle.Changes.{Settled, tasks-Settled}
use galaxz.Goals.Reconcile.Dispatch.{Limits, Draw, Texts, dispatch, slots}
use galaxz.Goals.Reconcile.Dispatch.Changes.{Ready, Sent, dispatch-Sent}
use galaxz.Goals.Reconcile.Dispatch.Counts.{running_rows, dispatch-le}
use galaxz.Goals.Reconcile.Bounds.{slots-le}
use galaxz.Goals.Reconcile.{
  block_tasks, finish_goal, finish_world, dispatch_slots, advance, reconcile_settled,
  reconcile_goal, reconcile,
}

-- the tasks of a table are those of rows
abbrev pub IsRead : (ℕ → Option PlannedTask) → List PlannedRow → Type 0
IsRead deps rows =
    (k : ℕ) (t : PlannedTask)
    → deps k ≡ some t
    → (r : PlannedRow) × (find row_key k rows ≡ some r) × (r.task ≡ t)

-- the rows after each loop, and the tasks by which the last one judges dependencies
pub record Phases (limit id : ℕ) (rows rows' : List PlannedRow) : Type 0 where
  pub first : List PlannedRow
  pub second : List PlannedRow
  pub deps : ℕ → Option PlannedTask
  pub read : IsRead deps first
  pub settled : Moves Settled rows first
  pub stopped : Moves Stopped first second
  pub sent : Moves (Sent deps) second rows'
  pub within : running_rows id rows' ≤ running_rows id second + (limit - running_rows id second)

by_id-All {κ} :
    (P : PlannedTask → Type κ) (ts : List PlannedTask) (k : ℕ) (t : PlannedTask)
    → All P ts
    → by_id ts k ≡ some t
    → P t × (t.task_id ≡ k)
unfolding by_id
by_id-All P [] k t h e = absurd (ground arith)
by_id-All P (u ∷ ts) k t h e = elim (Option-cases (by_id ts k)) [
  | inr (v, later) ↦ let same : v ≡ t = ground arith in rw (← same) (by_id-All P ts k v h.1 later)
  | inl absent ↦ elim (Bool-cases (u.task_id == k)) [
    | inl hit ↦ let same : u ≡ t = ground arith in rw (← same) (h.0, ground arith)
    | inr miss ↦ absurd (ground arith)
  ]
]

by_id-IsRead :
    (id : ℕ) (db : GoalDb) → IsKeyed row_key db.rows → IsRead (by_id (get_tasks id db)) db.rows
by_id-IsRead id db keyed k t e =
    let ((r, there, same), key) =
      by_id-All (λ t. (r : PlannedRow) × (find row_key t.task_id db.rows ≡ some r) × (r.task ≡ t))
        (get_tasks id db) k t
        (read-All (λ t. (r : PlannedRow) × (find row_key t.task_id db.rows ≡ some r) × (r.task ≡ t))
          id db keyed (λ r there mine. (r, there, refl)))
        e in
    (r, subst (λ j. find row_key j db.rows ≡ some r) key there, same)

block_tasks-Stopped :
    (id : ℕ) (db : GoalDb)
    → IsKeyed row_key db.rows
    → Moves Stopped db.rows (block_tasks id db).rows
unfolding block_tasks
block_tasks-Stopped id db keyed = elim (Option-cases (block_dependents (get_tasks id db) db.rows)) [
  | inl out ↦
      rw (out, block_tasks)
        (Moves-same Stopped (Once-IsPreorder TaskStatus.pending IsBlocked) db.rows)
  | inr (e, done) ↦
      rw (done, block_tasks)
        (block_dependents-Stopped (get_tasks id db) db.rows e (read-Shows id db keyed) done)
]

finish_goal-rows :
    (id now : ℕ) (tasks : List PlannedTask) (db : GoalDb)
    → (finish_goal id now tasks db).rows ≡ db.rows
unfolding finish_goal log record_event set_goal_status
finish_goal-rows id now tasks db = ground arith

none-IsRead : (rows : List PlannedRow) → IsRead (λ k. none) rows
none-IsRead rows k t e = absurd (ground arith)

goal_id-of : (id : ℕ) (db : GoalDb) (g : Goal) → get_goal id db ≡ some g → g.goal_id ≡ id
unfolding get_goal
goal_id-of id db g there = key-find goal_key id db.goals g there

module _ (x : Texts) (l : Limits) (d : Draw) where
  finish_world-rows :
      (id : ℕ) (p : World × Result (Unit {0}))
      → (finish_world x l d id p).0.store.rows ≡ p.0.store.rows
  unfolding finish_world
  finish_world-rows id (w, err e) = refl
  finish_world-rows id (w, ok u) = finish_goal-rows id (d.ended id) (get_tasks id w.store) w.store

  dispatch_slots-Sent :
      (g : Goal) (deps : ℕ → Option PlannedTask) (n : Result ℕ) (w : World)
      → IsKeyed row_key w.store.rows
      → Moves
          (Sent deps)
          w.store.rows
          (dispatch_slots x l d g deps (get_tasks g.goal_id w.store) n w).0.store.rows
  unfolding dispatch_slots
  dispatch_slots-Sent g deps (err e) w keyed =
      Moves-same (Sent deps) (Once-IsPreorder TaskStatus.pending (Ready deps)) w.store.rows
  dispatch_slots-Sent g deps (ok n) w keyed =
      let tasks = get_tasks g.goal_id w.store in
      subst (λ rows. Moves (Sent deps) w.store.rows rows)
        (sym (finish_world-rows g.goal_id (dispatch x d g deps n tasks w)))
        (dispatch-Sent x d g deps n tasks w (read-IsKeyed g.goal_id w.store keyed)
          (read-Shows g.goal_id w.store keyed))

  dispatch_slots-le :
      (g : Goal) (deps : ℕ → Option PlannedTask) (n : Result ℕ) (w : World)
      → slots l (get_tasks g.goal_id w.store) w.jobs ≡ n
      → IsKeyed row_key w.store.rows
      → running_rows g.goal_id
          (dispatch_slots x l d g deps (get_tasks g.goal_id w.store) n w).0.store.rows
        ≤ running_rows g.goal_id w.store.rows + (l.per_goal - running_rows g.goal_id w.store.rows)
  unfolding dispatch_slots
  dispatch_slots-le g deps (err e) w same keyed = omega arith
  dispatch_slots-le g deps (ok n) w same keyed =
      let tasks = get_tasks g.goal_id w.store in
      let started = dispatch-le x d g deps g.goal_id n tasks w keyed in
      let room = slots-le l g.goal_id w.store w.jobs n same in
      rw (finish_world-rows g.goal_id (dispatch x d g deps n tasks w)) (omega arith)

  advance-Phases :
      (g : Goal) (w : World) (rows : List PlannedRow)
      → IsKeyed row_key w.store.rows
      → Moves Settled rows w.store.rows
      → Phases l.per_goal g.goal_id rows (advance x l d g w).0.store.rows
  unfolding advance
  advance-Phases g w rows keyed settled =
      let blocked = block_tasks g.goal_id w.store in
      let stopped = block_tasks-Stopped g.goal_id w.store keyed in
      record {
        first = w.store.rows;
        second = blocked.rows;
        deps = by_id (get_tasks g.goal_id w.store);
        read = by_id-IsRead g.goal_id w.store keyed;
        settled = settled;
        stopped = stopped;
        sent =
            dispatch_slots-Sent g (by_id (get_tasks g.goal_id w.store))
              (slots l (get_tasks g.goal_id blocked) w.jobs) (record w { store = blocked })
              (stopped.1 keyed);
        within =
            dispatch_slots-le g (by_id (get_tasks g.goal_id w.store))
              (slots l (get_tasks g.goal_id blocked) w.jobs) (record w { store = blocked }) refl
              (stopped.1 keyed);
      }

  early :
      (id : ℕ) (rows first : List PlannedRow)
      → Moves Settled rows first
      → Phases l.per_goal id rows first
  early id rows first settled = record {
    first = first;
    second = first;
    deps = λ k. none;
    read = none-IsRead first;
    settled = settled;
    stopped = Moves-same Stopped (Once-IsPreorder TaskStatus.pending IsBlocked) first;
    sent =
        Moves-same (Sent (λ k. none)) (Once-IsPreorder TaskStatus.pending (Ready (λ k. none)))
          first;
    within = omega arith;
  }

  Settled-Phases :
      (g : Goal) (p : GoalDb × Result Bool) (jobs : Db) (rows : List PlannedRow)
      → IsKeyed row_key rows
      → Moves Settled rows p.0.rows
      → Phases l.per_goal g.goal_id rows (reconcile_settled x l d g p jobs).0.store.rows
  unfolding reconcile_settled
  Settled-Phases g (db, err e) jobs rows keyed settled = early g.goal_id rows db.rows settled
  Settled-Phases g (db, ok true) jobs rows keyed settled = early g.goal_id rows db.rows settled
  Settled-Phases g (db, ok false) jobs rows keyed settled =
      advance-Phases g (record { store = db; jobs = jobs }) rows (settled.1 keyed) settled

  unmoved : (id : ℕ) (w : World) → Phases l.per_goal id w.store.rows w.store.rows
  unmoved id w =
      early id w.store.rows w.store.rows
        (Moves-same Settled (Once-IsPreorder TaskStatus.running Plain) w.store.rows)

  goal-Phases :
      (g : Goal) (s : GoalStatus) (w : World)
      → IsKeyed row_key w.store.rows
      → Phases l.per_goal g.goal_id w.store.rows (reconcile_goal x l d g s w).0.store.rows
  unfolding reconcile_goal
  goal-Phases g GoalStatus.running w keyed =
      Settled-Phases g (settle_tasks g w.jobs (get_tasks g.goal_id w.store) w.store) w.jobs
        w.store.rows keyed
        (tasks-Settled g w.jobs (get_tasks g.goal_id w.store) w.store
          (read-IsKeyed g.goal_id w.store keyed) (read-Shows g.goal_id w.store keyed))
  goal-Phases g GoalStatus.planning w keyed = unmoved g.goal_id w
  goal-Phases g _ w keyed = unmoved g.goal_id w

  pub reconcile-Phases :
      (id : ℕ) (w : World)
      → IsKeyed row_key w.store.rows
      → Phases l.per_goal id w.store.rows (reconcile x l d id w).0.store.rows
  unfolding reconcile
  reconcile-Phases id w keyed = elim (Option-cases (get_goal id w.store)) [
    | inl absent ↦ rw (absent, reconcile) (unmoved id w)
    | inr (g, there) ↦
        rw (there, reconcile)
          (subst
            (λ j. Phases l.per_goal j w.store.rows (reconcile_goal x l d g g.status w).0.store.rows)
            (goal_id-of id w.store g there) (goal-Phases g g.status w keyed))
  ]
