-- ===== src/Goals/Reconcile/Settle/Changes.antt =====
-- On the first loop of `reconcile` (core/goals/coordinator.py): the rows that it changes.
use galaxz.Prelude.{
  ◌≡◌, refl, ap, ◌∙◌, Option, none, some, List, [], ◌∷◌, Result, ok, err, Result-cases, Bool-cases,
  inl, inr, get_or,
}
use galaxz.Prelude.Table.{IsKeyed, All, All-map, All-absent, All-both}
use galaxz.Contracts.Json.{Json, obj, end}
use galaxz.Contracts.Job.{Job, JobStatus}
use galaxz.Jobs.Store.{Db, get_result}
use galaxz.Goals.Plan.{PlannedTask, PlannedRow, TaskStatus, task_key}
use galaxz.Goals.Store.{Goal, GoalDb, set_goal_status}
use galaxz.Goals.Rows.{Moves, Shows, KeepsKey, Moves-same, Moves-then}
use galaxz.Goals.Diagram.{
  TaskMove, plan_of, Turns, Once, Plain, Once-IsPreorder, Effect, Effect-same, Effect-update,
}
use galaxz.Goals.Reconcile.Settle.{
  write_task, set_unstarted, set_result, set_refused, set_failed, Verdict, settle_verdict,
  settle_job, settle_found, settle_task, settle_tasks,
}

abbrev pub Settled : PlannedRow → PlannedRow → Type 0
Settled = Once TaskStatus.running Plain

module _ (g : Goal) (jobs : Db) (t : PlannedTask) (runs : t.status ≡ TaskStatus.running) where
  turned :
      (f : PlannedRow → PlannedRow)
      → ((r : PlannedRow) → TaskMove TaskStatus.running (f r).task.status)
      → ((r : PlannedRow) → plan_of (f r) ≡ plan_of r)
      → (r : PlannedRow) → r.task ≡ t
      → Turns TaskStatus.running Plain r (f r)
  turned f moved plan r same = record {
    was = ap (λ (z : PlannedTask). z.status) same ∙ runs;
    moved = moved r;
    plan = plan r;
    extra = tt;
  }

  abbrev Settles : GoalDb → GoalDb → Type 0
  Settles db db' = Effect TaskStatus.running Plain t db.rows db'.rows

  written :
      (f : PlannedRow → PlannedRow) (db : GoalDb)
      → KeepsKey f
      → ((r : PlannedRow) → TaskMove TaskStatus.running (f r).task.status)
      → ((r : PlannedRow) → plan_of (f r) ≡ plan_of r)
      → Shows db.rows t
      → Settles db (write_task t.task_id f db)
  unfolding write_task
  written f db keeps moved plan shows =
      Effect-update TaskStatus.running Plain t f db.rows keeps shows (turned f moved plan)

  verdict-Settles :
      (result : Json) (v : Verdict) (db : GoalDb)
      → Shows db.rows t
      → Settles db (settle_verdict g t result v db).0
  unfolding settle_verdict set_result set_refused set_goal_status
  verdict-Settles result Verdict.accepted db shows =
      written _ db (λ r. refl) (λ r. TaskMove.finish) (λ r. refl) shows
  verdict-Settles result Verdict.refused db shows =
      written _ db (λ r. refl) (λ r. TaskMove.fail) (λ r. refl) shows
  verdict-Settles result Verdict.escalated db shows =
      written _ db (λ r. refl) (λ r. TaskMove.escalate) (λ r. refl) shows

  job-Settles :
      (result : Option Json) (s : JobStatus) (db : GoalDb)
      → Shows db.rows t
      → Settles db (settle_job g t result s db).0
  unfolding settle_job set_failed
  job-Settles result JobStatus.completed db shows =
      verdict-Settles (get_or result (obj end)) _ db shows
  job-Settles result JobStatus.failed db shows =
      written (set_failed "failed") db (λ r. refl) (λ r. TaskMove.fail) (λ r. refl) shows
  job-Settles result JobStatus.cancelled db shows =
      written (set_failed "cancelled") db (λ r. refl) (λ r. TaskMove.fail) (λ r. refl) shows
  job-Settles result JobStatus.queued db shows = Effect-same TaskStatus.running Plain t db.rows
  job-Settles result JobStatus.running db shows = Effect-same TaskStatus.running Plain t db.rows

  found-Settles :
      (found : Result (Option Job)) (db : GoalDb)
      → Shows db.rows t
      → Settles db (settle_found g t found jobs db).0
  unfolding settle_found set_unstarted
  found-Settles (err e) db shows = Effect-same TaskStatus.running Plain t db.rows
  found-Settles (ok none) db shows =
      written set_unstarted db (λ r. refl) (λ r. TaskMove.reset) (λ r. refl) shows
  found-Settles (ok (some j)) db shows = job-Settles (get_result j.job_id jobs) j.status db shows

task-Settles :
    (g : Goal) (jobs : Db) (t : PlannedTask) (s : TaskStatus) (db : GoalDb)
    → t.status ≡ s
    → Shows db.rows t
    → Effect TaskStatus.running Plain t db.rows (settle_task g jobs t s db).0.rows
unfolding settle_task
task-Settles g jobs t TaskStatus.running db same shows = found-Settles g jobs t same _ db shows
task-Settles g jobs t TaskStatus.pending db same shows =
    Effect-same TaskStatus.running Plain t db.rows
task-Settles g jobs t _ db same shows = Effect-same TaskStatus.running Plain t db.rows

pub tasks-Settled :
    (g : Goal) (jobs : Db) (ts : List PlannedTask) (db : GoalDb)
    → IsKeyed task_key ts
    → All (λ t. Shows db.rows t) ts
    → Moves Settled db.rows (settle_tasks g jobs ts db).0.rows
unfolding settle_tasks
tasks-Settled g jobs [] db keyed shows =
    Moves-same Settled (Once-IsPreorder TaskStatus.running Plain) db.rows
tasks-Settled g jobs (t ∷ ts) db keyed shows =
    let one = task-Settles g jobs t t.status db refl shows.0 in
    let next : GoalDb = (settle_task g jobs t t.status db).0 in
    let others =
      All-map _ (λ u. Shows next.rows u) ts (λ u h. one.shows u h.0 h.1)
        (All-both _ _ ts (All-absent task_key t.task_id ts keyed.0) shows.1) in
    let all =
      Moves-then Settled (Once-IsPreorder TaskStatus.running Plain) db.rows next.rows _ one.moves
        (tasks-Settled g jobs ts next keyed.1 others) in
    elim (Result-cases (settle_task g jobs t t.status db).1) [
      | inr (e, failed) ↦ rw (failed, settle_tasks) one.moves
      | inl (stop, done) ↦ elim (Bool-cases stop) [
        | inl stopped ↦ rw (done, settle_tasks, stopped) one.moves
        | inr on ↦ rw (done, settle_tasks, on) all
      ]
    ]
