-- ===== src/Goals/Reconcile/Dispatch/Counts.antt =====
-- On the last loop of `reconcile` (core/goals/coordinator.py): how many tasks it starts.
use native.Mathlib.Nat.{le_refl}
use galaxz.Prelude.{
  ℕ, zero, suc, ◌+◌, ◌≤◌, ◌≡◌, refl, String, Bool, true, false, ◌&&◌, Option, List, [], ◌∷◌, Result,
  ok, err, inl, inr, ◌==◌, Option-cases, Result-cases, arith,
}
use galaxz.Prelude.Table.{find, IsKeyed, IsKeyed-modify}
use galaxz.Prelude.Table.Count.{count, count-modify, modify-absent}
use galaxz.Contracts.Json.{Json}
use galaxz.Contracts.Task.{TaskContract}
use galaxz.Contracts.Job.{Job}
use galaxz.Jobs.Store.{Db}
use galaxz.Goals.Plan.{PlannedTask, PlannedRow, TaskStatus, row_key, update_task}
use galaxz.Goals.Store.{Goal}
use galaxz.Goals.Control.{World}
use galaxz.Goals.Keys.{key}
use galaxz.Goals.Rows.{KeepsKey}
use galaxz.Goals.Reconcile.Settle.{write_task, set_failed}
use galaxz.Goals.Reconcile.Dispatch.{
  Draw, Texts, is_running, set_running, dispatch_task, dispatch, enqueued, submit, dispatch_payload,
  dispatch_if, task_contract,
}

-- the test that `running_tasks` counts by, on rows
abbrev pub runs_for : ℕ → PlannedRow → Bool
runs_for id r = r.task.goal_id == id && is_running r.task.status

abbrev pub running_rows : ℕ → List PlannedRow → ℕ
running_rows id rows = count (runs_for id) rows

-- an update makes at most one row more pass a test, and none if it makes the row fail
module _ (test : PlannedRow → Bool) (id : ℕ) (f : PlannedRow → PlannedRow) (rows : List PlannedRow)
    (keyed : IsKeyed row_key rows) where
  count-update-suc : count test (update_task id f rows) ≤ count test rows + 1
  unfolding update_task
  count-update-suc = elim (Option-cases (find row_key id rows)) [
    | inl absent ↦ rw (modify-absent test row_key f id rows absent) (omega arith)
    | inr (r, there) ↦ ground (arith, count-modify test row_key f id rows r keyed there)
  ]

  count-update-le :
      ((r : PlannedRow) → test (f r) ≡ false) → count test (update_task id f rows) ≤ count test rows
  unfolding update_task
  count-update-le fails = elim (Option-cases (find row_key id rows)) [
    | inl absent ↦ rw (modify-absent test row_key f id rows absent) (le_refl _)
    | inr (r, there) ↦ ground (arith, fails r, count-modify test row_key f id rows r keyed there)
  ]

kept :
    (f : PlannedRow → PlannedRow)
    → KeepsKey f
    → (id : ℕ) (rows : List PlannedRow) → IsKeyed row_key rows
    → IsKeyed row_key (update_task id f rows)
unfolding update_task
kept f keeps id rows keyed = IsKeyed-modify row_key f keeps id rows keyed

running_key : (job : ℕ) (payload : Json) → KeepsKey (set_running job payload)
unfolding set_running
running_key job payload r = refl

failed_key : (text : String) → KeepsKey (set_failed text)
unfolding set_failed
failed_key text r = refl

failed_idle : (text : String) (id : ℕ) (r : PlannedRow) → runs_for id (set_failed text r) ≡ false
unfolding set_failed
failed_idle text id r = ground arith

-- the slots that a turn takes
abbrev taken : Result Bool → ℕ
taken (ok true) = 1
taken _ = 0

module _ (x : Texts) (d : Draw) (g : Goal) (deps : ℕ → Option PlannedTask) (id : ℕ) where
  abbrev Takes : World → World × Result Bool → Type 0
  Takes w p =
      (running_rows id p.0.store.rows ≤ running_rows id w.store.rows + taken p.1)
      × IsKeyed row_key p.0.store.rows

  enqueued-Takes :
      (task_id : ℕ) (payload : Json) (p : Db × Result Job) (w : World)
      → IsKeyed row_key w.store.rows
      → Takes w (
        (enqueued task_id (λ job. set_running job payload) p w).0,
        elim (enqueued task_id (λ job. set_running job payload) p w).1 [
          | err e ↦ err e
          | ok u ↦ ok true
        ],
      )
  unfolding enqueued write_task
  enqueued-Takes task_id payload (jobs, err e) w keyed = (omega arith, keyed)
  enqueued-Takes task_id payload (jobs, ok j) w keyed = (
    count-update-suc (runs_for id) task_id (set_running j.job_id payload) w.store.rows keyed,
    (kept (set_running j.job_id payload) (λ r. running_key j.job_id payload r) task_id w.store.rows
        keyed),
  )

  submit-Takes :
      (k : String) (payload : Json) (c : Result TaskContract) (w : World)
      → IsKeyed row_key w.store.rows
      → Takes w (
        (submit k c (λ job. set_running job payload) d w).0,
        elim (submit k c (λ job. set_running job payload) d w).1 [ err e ↦ err e | ok u ↦ ok true ],
      )
  unfolding submit
  submit-Takes k payload (err e) w keyed = (omega arith, keyed)
  submit-Takes k payload (ok c) w keyed = enqueued-Takes c.task_id payload _ w keyed

  payload-Takes :
      (t : PlannedTask) (p : Result Json) (w : World)
      → IsKeyed row_key w.store.rows
      → Takes w (dispatch_payload x d g deps t p w)
  unfolding dispatch_payload write_task
  payload-Takes t (err e) w keyed = (
    omega (
      arith,
      count-update-le (runs_for id) t.task_id (set_failed (x.message e)) w.store.rows keyed
          (failed_idle (x.message e) id),
    ),
    kept (set_failed (x.message e)) (failed_key (x.message e)) t.task_id w.store.rows keyed,
  )
  payload-Takes t (ok payload) w keyed =
      submit-Takes (key g.goal_id t.task_id) payload (task_contract g t payload) w keyed

  if-Takes :
      (t : PlannedTask) (b : Result Bool) (w : World)
      → IsKeyed row_key w.store.rows
      → Takes w (dispatch_if x d g deps t b w)
  unfolding dispatch_if
  if-Takes t (err e) w keyed = (omega arith, keyed)
  if-Takes t (ok false) w keyed = (omega arith, keyed)
  if-Takes t (ok true) w keyed = payload-Takes t _ w keyed

  task-Takes :
      (t : PlannedTask) (s : TaskStatus) (w : World)
      → IsKeyed row_key w.store.rows
      → Takes w (dispatch_task x d g deps t s w)
  unfolding dispatch_task
  task-Takes t TaskStatus.pending w keyed = if-Takes t _ w keyed
  task-Takes t TaskStatus.running w keyed = (omega arith, keyed)
  task-Takes t _ w keyed = (omega arith, keyed)

  -- the loop starts no more tasks than it has slots
  pub dispatch-le :
      (n : ℕ) (ts : List PlannedTask) (w : World)
      → IsKeyed row_key w.store.rows
      → running_rows id (dispatch x d g deps n ts w).0.store.rows ≤ running_rows id w.store.rows + n
  unfolding dispatch
  dispatch-le n [] w keyed = omega arith
  dispatch-le zero (t ∷ ts) w keyed = omega arith
  dispatch-le (suc n) (t ∷ ts) w keyed =
      let (few, keyed') = task-Takes t t.status w keyed in
      let next : World = (dispatch_task x d g deps t t.status w).0 in
      elim (Result-cases (dispatch_task x d g deps t t.status w).1) [
        | inr (e, failed) ↦ rw (failed, dispatch) (ground arith)
        | inl (true, done) ↦
            rw (done, dispatch) (let rest = dispatch-le n ts next keyed' in ground arith)
        | inl (false, done) ↦
            rw (done, dispatch) (let rest = dispatch-le (suc n) ts next keyed' in ground arith)
      ]
