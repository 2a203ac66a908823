-- ===== src/Goals/Control/Cancelled.antt =====
-- On `cancel_goal` (core/goals/coordinator.py): the statuses it leaves, step by step.
use mathlib.Core.Path.{subst}
use galaxz.Prelude.{
  ℕ, ◌≡◌, refl, ap, sym, inl, inr, ◌⊎◌, Bool, true, false, some, List, [], ◌∷◌, Result, ok, err,
  Result-cases, arith,
}
use galaxz.Prelude.Table.{find, find-modify_cases, All, All-map}
use galaxz.Jobs.Store.{Db}
use galaxz.Goals.Plan.{PlannedTask, PlannedRow, TaskStatus, row_key, set_status, update_task}
use galaxz.Goals.Store.{task_job}
use galaxz.Goals.Control.{
  World, cancel_job, drop_task, dropped, cancel_task, add_affected, cancel_tasks,
}

abbrev pub is_open : TaskStatus → Bool
is_open TaskStatus.pending = true
is_open TaskStatus.running = true
is_open _ = false

-- the row of the task has the status of the snapshot, or is cancelled
abbrev pub IsSeen : List PlannedRow → PlannedTask → Type 0
IsSeen rows t =
    (r : PlannedRow)
    → find row_key t.task_id rows ≡ some r
    → (r.task.status ≡ t.status) ⊎ (r.task.status ≡ TaskStatus.cancelled)

-- the row of the task neither waits nor runs
abbrev pub IsShut : List PlannedRow → PlannedTask → Type 0
IsShut rows t =
    (r : PlannedRow) → find row_key t.task_id rows ≡ some r → is_open r.task.status ≡ false

status_id : (s : TaskStatus) (r : PlannedRow) → row_key (set_status s r) ≡ row_key r
unfolding set_status
status_id s r = refl

drop-IsSeen :
    (id : ℕ) (rows : List PlannedRow) (t : PlannedTask)
    → IsSeen rows t
    → IsSeen (update_task id (set_status TaskStatus.cancelled) rows) t
unfolding update_task set_status
drop-IsSeen id rows t h r e =
    elim (find-modify_cases row_key (set_status TaskStatus.cancelled)
      (status_id TaskStatus.cancelled) id t.task_id rows r e) [
        | inl (same, q, there, eq) ↦ inr (ap (λ (z : PlannedRow). z.task.status) eq)
        | inr (other, there) ↦ h r there
      ]

drop-IsShut :
    (id : ℕ) (rows : List PlannedRow) (t : PlannedTask)
    → IsShut rows t
    → IsShut (update_task id (set_status TaskStatus.cancelled) rows) t
unfolding update_task set_status
drop-IsShut id rows t h r e =
    elim (find-modify_cases row_key (set_status TaskStatus.cancelled)
      (status_id TaskStatus.cancelled) id t.task_id rows r e) [
        | inl (same, q, there, eq) ↦ ap (λ (z : PlannedRow). is_open z.task.status) eq
        | inr (other, there) ↦ h r there
      ]

drop-shuts :
    (rows : List PlannedRow) (t : PlannedTask)
    → IsShut (update_task t.task_id (set_status TaskStatus.cancelled) rows) t
unfolding update_task set_status
drop-shuts rows t r e =
    elim (find-modify_cases row_key (set_status TaskStatus.cancelled)
      (status_id TaskStatus.cancelled) t.task_id t.task_id rows r e) [
        | inl (same, q, there, eq) ↦ ap (λ (z : PlannedRow). is_open z.task.status) eq
        | inr (other, there) ↦ absurd (other refl)
      ]

-- what a turn of the loop does to the rows
record Turned (t : PlannedTask) (w v : World) : Type 0 where
  seen : (u : PlannedTask) → IsSeen w.store.rows u → IsSeen v.store.rows u
  shut : (u : PlannedTask) → IsShut w.store.rows u → IsShut v.store.rows u
  done : IsSeen w.store.rows t → IsShut v.store.rows t

Turned-drop :
    (t : PlannedTask) (w : World) (jobs : Db)
    → Turned t w (record { store = drop_task t.task_id w.store; jobs = jobs })
unfolding drop_task
Turned-drop t w jobs = record {
  seen = λ u. drop-IsSeen t.task_id w.store.rows u;
  shut = λ u. drop-IsShut t.task_id w.store.rows u;
  done = λ h. drop-shuts w.store.rows t;
}

Turned-shut : (t : PlannedTask) (w : World) → is_open t.status ≡ false → Turned t w w
Turned-shut t w fine = record {
  seen = λ u h. h;
  shut = λ u h. h;
  done = λ h r e. elim (h r e) [ inl same ↦ rw same fine | inr gone ↦ rw gone refl ];
}

dropped_turn :
    (t : PlannedTask) (w : World) (p : Db × Result (Unit {0})) (hit : Bool)
    → (dropped t.task_id w p).1 ≡ ok hit
    → Turned t w (dropped t.task_id w p).0
unfolding dropped
dropped_turn t w (jobs, ok u) hit e = Turned-drop t w jobs
dropped_turn t w (jobs, err x) hit e = absurd (ground arith)

turn :
    (now : ℕ) (t : PlannedTask) (s : TaskStatus) (w : World) (hit : Bool)
    → t.status ≡ s
    → (cancel_task now t s w).1 ≡ ok hit
    → Turned t w (cancel_task now t s w).0
unfolding cancel_task
turn now t TaskStatus.running w hit same e =
    dropped_turn t w (cancel_job now (task_job t.task_id w.store) w.jobs) hit e
turn now t TaskStatus.pending w hit same e = Turned-drop t w w.jobs
turn now t TaskStatus.complete w hit same e = Turned-shut t w (rw same refl)
turn now t TaskStatus.failed w hit same e = Turned-shut t w (rw same refl)
turn now t TaskStatus.escalated w hit same e = Turned-shut t w (rw same refl)
turn now t TaskStatus.blocked w hit same e = Turned-shut t w (rw same refl)
turn now t TaskStatus.cancelled w hit same e = Turned-shut t w (rw same refl)

added_ok :
    (id : ℕ) (hit : Bool) (p : World × Result (List ℕ)) (ids : List ℕ)
    → (add_affected id hit p).1 ≡ ok ids
    → ((add_affected id hit p).0 ≡ p.0) × (js : List ℕ) × (p.1 ≡ ok js)
unfolding add_affected
added_ok id hit (w, ok js) ids e = (refl, js, refl)
added_ok id hit (w, err x) ids e = absurd (ground arith)

-- the loop keeps what is seen and shut, and shuts its tasks
pub All-turned :
    (now : ℕ) (ts : List PlannedTask) (w : World) (ids : List ℕ)
    → (cancel_tasks now ts w).1 ≡ ok ids
    → ((u : PlannedTask) → IsShut w.store.rows u → IsShut (cancel_tasks now ts w).0.store.rows u)
      × (All (λ t. IsSeen w.store.rows t) ts
          → All (λ t. IsShut (cancel_tasks now ts w).0.store.rows t) ts)
unfolding cancel_tasks
All-turned now [] w ids e = (λ u h. h, λ h. tt)
All-turned now (t ∷ ts) w ids e = elim (Result-cases (cancel_task now t t.status w).1) [
  | inr (x, failed) ↦ absurd (ground arith)
  | inl (hit, done) ↦
      let first = turn now t t.status w hit refl done in
      let v : World = (cancel_task now t t.status w).0 in
      let (same, js, more) = added_ok t.task_id hit (cancel_tasks now ts v) ids (ground arith) in
      let (keep, shut) = All-turned now ts v js more in
      let out : (cancel_tasks now (t ∷ ts) w).0 ≡ (cancel_tasks now ts v).0 =
        rw (done, cancel_tasks) same in
      (
        λ u h. subst (λ (z : World). IsShut z.store.rows u) (sym out) (keep u (first.shut u h)),
        λ h.
            subst (λ (z : World). All (λ u. IsShut z.store.rows u) (t ∷ ts)) (sym out)
              (
                keep t (first.done h.0),
                shut (
                    All-map (λ u. IsSeen w.store.rows u) (λ u. IsSeen v.store.rows u) ts first.seen
                      h.1),
              ),
      )
]
