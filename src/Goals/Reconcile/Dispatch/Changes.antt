-- ===== src/Goals/Reconcile/Dispatch/Changes.antt =====
-- On the last loop of `reconcile` (core/goals/coordinator.py): the rows that it changes.
use galaxz.Prelude.{
  ℕ, zero, suc, ◌≡◌, refl, ap, ◌∙◌, String, Bool, true, false, Option, some, List, [], ◌∷◌, Result,
  ok, err, Result-cases, inl, inr, arith, if◌then◌else◌,
}
use galaxz.Prelude.Table.{IsKeyed, All, All-map, All-absent, All-both}
use galaxz.Contracts.Json.{Json}
use galaxz.Contracts.Task.{TaskContract}
use galaxz.Contracts.Job.{Job}
use galaxz.Jobs.Store.{Db}
use galaxz.Goals.Plan.{PlannedTask, PlannedRow, TaskStatus, task_key}
use galaxz.Goals.Store.{Goal}
use galaxz.Goals.Control.{World}
use galaxz.Goals.Keys.{key}
use galaxz.Goals.Rows.{Moves, Shows, Moves-same, Moves-then}
use galaxz.Goals.Diagram.{TaskMove, Once, Once-IsPreorder, Effect, Effect-same, Effect-update}
use galaxz.Goals.Reconcile.Settle.{write_task, set_failed}
use galaxz.Goals.Reconcile.Dispatch.{
  Texts, Draw, set_running, all_complete, task_contract, enqueued, submit, dispatch_payload,
  dispatch_if, dispatch_task, dispatch,
}

-- A task that is started waits for nothing and has a job.
abbrev pub Ready : (ℕ → Option PlannedTask) → PlannedRow → PlannedRow → Type 0
Ready deps r r' =
    r'.task.status ≡ TaskStatus.running
    → (all_complete r.task.depends_on deps ≡ ok true) × (job : ℕ) × (r'.job_id ≡ some job)

abbrev pub Sent : (ℕ → Option PlannedTask) → PlannedRow → PlannedRow → Type 0
Sent deps = Once TaskStatus.pending (Ready deps)

task_contract-id :
    (g : Goal) (t : PlannedTask) (payload : Json) (c : TaskContract)
    → task_contract g t payload ≡ ok c
    → c.task_id ≡ t.task_id
unfolding task_contract galaxz.Contracts.Task.validate_task
task_contract-id g t payload c e = ground arith

module _ (x : Texts) (d : Draw) (g : Goal) (deps : ℕ → Option PlannedTask) where
  module _ (t : PlannedTask) (waits : t.status ≡ TaskStatus.pending) where
    abbrev Sends : World → World → Type 0
    Sends w w' = Effect TaskStatus.pending (Ready deps) t w.store.rows w'.store.rows

    Sends-same : (w : World) → Sends w w
    Sends-same w = Effect-same TaskStatus.pending (Ready deps) t w.store.rows

    enqueued-Sends :
        (id : ℕ) (payload : Json) (p : Db × Result Job) (w : World)
        → id ≡ t.task_id
        → all_complete t.depends_on deps ≡ ok true
        → Shows w.store.rows t
        → Sends w (enqueued id (λ job. set_running job payload) p w).0
    unfolding enqueued write_task set_running
    enqueued-Sends id payload (jobs, err e) w same clear shows = Sends-same w
    enqueued-Sends id payload (jobs, ok j) w same clear shows = rw same (
        Effect-update TaskStatus.pending (Ready deps) t (set_running j.job_id payload) w.store.rows
          (λ r. refl) shows
          (λ r seen. record {
            was = ap (λ (z : PlannedTask). z.status) seen ∙ waits;
            moved = TaskMove.start;
            plan = refl;
            extra = λ runs. (
              ap (λ (z : PlannedTask). all_complete z.depends_on deps) seen ∙ clear,
              j.job_id,
              refl,
            );
          }))

    submit-Sends :
        (k : String) (payload : Json) (c : Result TaskContract) (w : World)
        → ((v : TaskContract) → c ≡ ok v → v.task_id ≡ t.task_id)
        → all_complete t.depends_on deps ≡ ok true
        → Shows w.store.rows t
        → Sends w (submit k c (λ job. set_running job payload) d w).0
    unfolding submit
    submit-Sends k payload (err e) w same clear shows = Sends-same w
    submit-Sends k payload (ok c) w same clear shows =
        enqueued-Sends c.task_id payload _ w (same c refl) clear shows

    payload-Sends :
        (p : Result Json) (w : World)
        → all_complete t.depends_on deps ≡ ok true
        → Shows w.store.rows t
        → Sends w (dispatch_payload x d g deps t p w).0
    unfolding dispatch_payload write_task set_failed
    payload-Sends (err e) w clear shows =
        Effect-update TaskStatus.pending (Ready deps) t (set_failed (x.message e)) w.store.rows
          (λ r. refl) shows
          (λ r seen. record {
            was = ap (λ (z : PlannedTask). z.status) seen ∙ waits;
            moved = TaskMove.refuse;
            plan = refl;
            extra = λ runs. absurd (ground arith);
          })
    payload-Sends (ok payload) w clear shows =
        submit-Sends (key g.goal_id t.task_id) payload (task_contract g t payload) w
          (task_contract-id g t payload) clear shows

    if-Sends :
        (b : Result Bool) (w : World)
        → all_complete t.depends_on deps ≡ b
        → Shows w.store.rows t
        → Sends w (dispatch_if x d g deps t b w).0
    unfolding dispatch_if
    if-Sends (err e) w same shows = Sends-same w
    if-Sends (ok false) w same shows = Sends-same w
    if-Sends (ok true) w same shows = payload-Sends _ w same shows

  task-Sends :
      (t : PlannedTask) (s : TaskStatus) (w : World)
      → t.status ≡ s
      → Shows w.store.rows t
      → Effect TaskStatus.pending
          (Ready deps)
          t
          w.store.rows
          (dispatch_task x d g deps t s w).0.store.rows
  unfolding dispatch_task
  task-Sends t TaskStatus.pending w same shows = if-Sends t same _ w refl shows
  task-Sends t TaskStatus.running w same shows =
      Effect-same TaskStatus.pending (Ready deps) t w.store.rows
  task-Sends t _ w same shows = Effect-same TaskStatus.pending (Ready deps) t w.store.rows

  pub dispatch-Sent :
      (n : ℕ) (ts : List PlannedTask) (w : World)
      → IsKeyed task_key ts
      → All (λ t. Shows w.store.rows t) ts
      → Moves (Sent deps) w.store.rows (dispatch x d g deps n ts w).0.store.rows
  unfolding dispatch
  dispatch-Sent n [] w keyed shows =
      Moves-same (Sent deps) (Once-IsPreorder TaskStatus.pending (Ready deps)) w.store.rows
  dispatch-Sent zero (t ∷ ts) w keyed shows =
      Moves-same (Sent deps) (Once-IsPreorder TaskStatus.pending (Ready deps)) w.store.rows
  dispatch-Sent (suc n) (t ∷ ts) w keyed shows =
      let one = task-Sends t t.status w refl shows.0 in
      let next : World = (dispatch_task x d g deps t t.status w).0 in
      let others =
        All-map _ (λ u. Shows next.store.rows u) ts (λ u h. one.shows u h.0 h.1)
          (All-both _ _ ts (All-absent task_key t.task_id ts keyed.0) shows.1) in
      elim (Result-cases (dispatch_task x d g deps t t.status w).1) [
        | inr (e, failed) ↦ rw (failed, dispatch) one.moves
        | inl (used, done) ↦
            rw (done, dispatch)
              (Moves-then (Sent deps) (Once-IsPreorder TaskStatus.pending (Ready deps)) w.store.rows
                next.store.rows _ one.moves
                (dispatch-Sent (if used then n else suc n) ts next keyed.1 others))
      ]
