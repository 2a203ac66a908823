-- ===== src/Goals/Runner/Ends.antt =====
-- On the loop of agents/andromeda/goal_runner.py: how a run ends.
use galaxz.Prelude.{
  ℕ, zero, suc, ◌<◌, ◌≡◌, refl, ◌∙◌, ◌⊎◌, inl, inr, Bool, true, false, ◌&&◌, Option, some, List, [],
  ◌∷◌, Result, ok, err, ◌==◌, Bool-cases, Result-cases, arith, if◌then◌else◌,
}
use galaxz.Prelude.Int.{ℤ}
use galaxz.Prelude.Table.{find, find-modify_hit, exists, IsKeyed, IsKeyed-modify, All}
use galaxz.Prelude.Table.Count.{count, count-modify}
use galaxz.Contracts.Json.{Json}
use galaxz.Contracts.Task.{TaskContract}
use galaxz.Goals.Plan.{
  PlannedTask, PlannedRow, TaskStatus, row_key, is_pending, set_status, update_task,
}
use galaxz.Goals.Store.{
  Goal, GoalStatus, GoalDb, goal_key, get_goal, get_tasks, set_goal_status, with_status, try_claim,
  claimed_goal, is_startable,
}
use galaxz.Goals.Reading.{read-All}
use galaxz.Goals.Reading.Counts.{count-read}
use galaxz.Goals.Rows.{KeepsKey}
use galaxz.Goals.Substitution.{by_id}
use galaxz.Goals.Reconcile.Settle.{Verdict, verdict, write_task}
use galaxz.Goals.Reconcile.Dispatch.{all_complete}
use galaxz.Goals.Runner.{
  Runner, Fresh, set_answer, ready_tasks, waiting, settle_answer, settle_routed, route_task,
  turn_ready, turn_tasks, turn, drive, turns, drive_goal, caught, run,
}

abbrev waits_for : ℕ → PlannedRow → Bool
waits_for id r = r.task.goal_id == id && is_pending r.task.status

-- the rows of the tasks of a goal that wait
abbrev waiting_rows : ℕ → Runner → ℕ
waiting_rows id w = count (waits_for id) w.store.rows

abbrev NoneWaits : ℕ → Runner → Type 0
NoneWaits id w = exists waiting (get_tasks id w.store) ≡ false

module _ (id : ℕ) (g : Goal) where
  -- the goal is there, but for its status
  abbrev Stands : Runner → Type 0
  Stands w = (s : GoalStatus) × (get_goal id w.store ≡ some (with_status s g))

  abbrev Has : GoalStatus → Runner → Type 0
  Has s w = get_goal id w.store ≡ some (with_status s g)

  -- how a run leaves its goal
  abbrev pub IsEnded : Runner → Type 0
  IsEnded w =
      (Has GoalStatus.complete w × NoneWaits id w)
      ⊎ (Has GoalStatus.paused w ⊎ Has GoalStatus.failed w)

  -- what a turn, and the loop, leaves; the loop goes on with fewer waiting tasks
  abbrev Leaves : Runner → Runner × Result Bool → Type 0
  Leaves w (w', err e) = Stands w'
  Leaves w (w', ok false) = IsEnded w'
  Leaves w (w', ok true) =
      Stands w' × IsKeyed row_key w'.store.rows × (waiting_rows id w' < waiting_rows id w)

  abbrev Stops : Runner × Result Bool → Type 0
  Stops (w', err e) = Stands w'
  Stops (w', ok false) = IsEnded w'
  Stops (w', ok true) = ⊥

  status_set :
      (s : GoalStatus) (w : Runner)
      → Stands w
      → Has s (record w { store = set_goal_status id s w.store })
  unfolding get_goal set_goal_status with_status
  status_set s w (t, there) =
      find-modify_hit goal_key (with_status s) (λ h. refl) id w.store.goals (with_status t g) there

  written :
      (k : ℕ) (f : PlannedRow → PlannedRow) (db : GoalDb)
      → get_goal id (write_task k f db) ≡ get_goal id db
  unfolding write_task get_goal
  written k f db = refl

  tasks_same :
      (s : GoalStatus) (db : GoalDb) → get_tasks id (set_goal_status id s db) ≡ get_tasks id db
  unfolding set_goal_status get_tasks
  tasks_same s db = refl

answer_key : (s : TaskStatus) (c : Option ℤ) (v : Option Json) → KeepsKey (set_answer s c v)
unfolding set_answer
answer_key s c v r = refl

status_key : (s : TaskStatus) → KeepsKey (set_status s)
unfolding set_status
status_key s r = refl

-- a row of a task that waits
abbrev Waits : ℕ → List PlannedRow → PlannedTask → Type 0
Waits id rows t =
    (r : PlannedRow) × (find row_key t.task_id rows ≡ some r) × (waits_for id r ≡ true)

-- two updates of the row of a waiting task, the last of which completes it
answered-fewer :
    (id : ℕ) (t : PlannedTask) (c : Option ℤ) (v : Option Json) (rows : List PlannedRow)
    → IsKeyed row_key rows
    → Waits id rows t
    → count (waits_for id) (
        update_task t.task_id
          (set_answer TaskStatus.complete c v)
          (update_task t.task_id (set_status TaskStatus.running) rows))
      < count (waits_for id) rows
unfolding update_task set_answer set_status
answered-fewer id t c v rows keyed (r, there, waits) =
    let runs = set_status TaskStatus.running in
    let first = count-modify (waits_for id) row_key runs t.task_id rows r keyed there in
    let keyed' = IsKeyed-modify row_key runs (status_key TaskStatus.running) t.task_id rows keyed in
    let there' =
      find-modify_hit row_key runs (status_key TaskStatus.running) t.task_id rows r there in
    let second =
      count-modify (waits_for id) row_key (set_answer TaskStatus.complete c v) t.task_id _ (runs r)
        keyed' there' in
    ground (arith, first, second, waits)

answered-IsKeyed :
    (t : PlannedTask) (c : Option ℤ) (v : Option Json) (rows : List PlannedRow)
    → IsKeyed row_key rows
    → IsKeyed row_key (
        update_task t.task_id
          (set_answer TaskStatus.complete c v)
          (update_task t.task_id (set_status TaskStatus.running) rows))
unfolding update_task
answered-IsKeyed t c v rows keyed =
    IsKeyed-modify row_key (set_answer TaskStatus.complete c v) (answer_key TaskStatus.complete c v)
      t.task_id _
      (IsKeyed-modify row_key (set_status TaskStatus.running) (status_key TaskStatus.running)
        t.task_id rows keyed)

read-Waits :
    (id : ℕ) (db : GoalDb)
    → IsKeyed row_key db.rows
    → All (λ t. is_pending t.status ≡ true → Waits id db.rows t) (get_tasks id db)
read-Waits id db keyed =
    read-All (λ t. is_pending t.status ≡ true → Waits id db.rows t) id db keyed
      (λ r there mine waits. (r, there, ground arith))

-- a task that is ready waits
ready-Waits :
    (id : ℕ) (rows : List PlannedRow) (deps : ℕ → Option PlannedTask) (ts : List PlannedTask)
    (t : PlannedTask) (more : List PlannedTask)
    → All (λ t. is_pending t.status ≡ true → Waits id rows t) ts
    → ready_tasks ts deps ≡ ok (t ∷ more)
    → Waits id rows t
unfolding ready_tasks
ready-Waits id rows deps [] t more all ready = absurd (ground arith)
ready-Waits id rows deps (u ∷ ts) t more (here, all) ready =
    elim (Bool-cases (is_pending u.status)) [
      | inr other ↦ elim (Result-cases (ready_tasks ts deps)) [
        | inr (e, failed) ↦ absurd (let f = rw (other, failed) at ready in cc f)
        | inl (rest, done) ↦
            let f = rw (other, done) at ready in ready-Waits id rows deps ts t more all (done ∙ f)
      ]
      | inl waits ↦ elim (Result-cases (all_complete u.depends_on deps)) [
        | inr (e, failed) ↦ absurd (let f = rw (waits, failed) at ready in cc f)
        | inl (fits, known) ↦ elim (Result-cases (ready_tasks ts deps)) [
          | inr (e, failed) ↦ absurd (let f = rw (waits, known, failed) at ready in cc f)
          | inl (rest, done) ↦ elim (Bool-cases fits) [
            | inl fit ↦
                let f = rw (waits, known, done, fit) at ready in
                let same : u ≡ t = cc f in rw (← same) (here waits)
            | inr unfit ↦
                let f = rw (waits, known, done, unfit) at ready in
                ready-Waits id rows deps ts t more all (done ∙ f)
          ]
        ]
      ]
    ]

module _ (route : TaskContract → Result Json) (f : Fresh) (id : ℕ) (g goal : Goal) where
  answer-Leaves :
      (t : PlannedTask) (result : Json) (v : Verdict) (w : Runner)
      → Stands id goal w
      → IsKeyed row_key w.store.rows
      → Waits id w.store.rows t
      → Leaves id goal w (
          settle_answer route f id g t result v
            (record w { store = write_task t.task_id (set_status TaskStatus.running) w.store }))
  unfolding settle_answer write_task get_goal set_goal_status
  answer-Leaves t result Verdict.accepted w stands keyed waits = (
    stands,
    answered-IsKeyed t _ _ w.store.rows keyed,
    answered-fewer id t _ _ w.store.rows keyed waits,
  )
  answer-Leaves t result Verdict.refused w stands keyed waits =
      inr (inr (status_set id goal GoalStatus.failed w stands))
  answer-Leaves t result Verdict.escalated w stands keyed waits =
      inr (inl (status_set id goal GoalStatus.paused w stands))

  routed-Leaves :
      (t : PlannedTask) (answer : Result Json) (w : Runner)
      → Stands id goal w
      → IsKeyed row_key w.store.rows
      → Waits id w.store.rows t
      → Leaves id goal w (
          settle_routed route f id g t answer
            (record w { store = write_task t.task_id (set_status TaskStatus.running) w.store }))
  unfolding settle_routed write_task get_goal
  routed-Leaves t (err e) w stands keyed waits = stands
  routed-Leaves t (ok result) w stands keyed waits =
      answer-Leaves t result (verdict g.confidence_threshold result) w stands keyed waits

  ready-Leaves :
      (ready : Result (List PlannedTask)) (w : Runner)
      → Stands id goal w
      → IsKeyed row_key w.store.rows
      → ((t : PlannedTask) (more : List PlannedTask)
          → ready ≡ ok (t ∷ more)
          → Waits id w.store.rows t)
      → Leaves id goal w (turn_ready route f id g ready w)
  unfolding turn_ready route_task
  ready-Leaves (err e) w stands keyed waits = stands
  ready-Leaves (ok []) w stands keyed waits =
      inr (inl (status_set id goal GoalStatus.paused w stands))
  ready-Leaves (ok (t ∷ ts)) w stands keyed waits =
      routed-Leaves t _ w stands keyed (waits t ts refl)

  turn-Leaves :
      (w : Runner)
      → Stands id goal w
      → IsKeyed row_key w.store.rows
      → Leaves id goal w (turn route f id g w)
  unfolding turn turn_tasks
  turn-Leaves w stands keyed =
      let tasks = get_tasks id w.store in
      elim (Bool-cases (exists waiting tasks)) [
        | inl some_wait ↦ rw some_wait (
            ready-Leaves (ready_tasks tasks (by_id tasks)) w stands keyed (λ t more ready.
              ready-Waits id w.store.rows (by_id tasks) tasks t more (read-Waits id w.store keyed)
                ready))
        | inr idle ↦ rw idle (
            inl (
              status_set id goal GoalStatus.complete w stands,
              rw (tasks_same id goal GoalStatus.complete w.store) idle,
            ))
      ]

  next-Stops :
      (n : ℕ) (w : Runner) (p : Runner × Result Bool)
      → Leaves id goal w p
      → waiting_rows id w < suc n
      → ((w' : Runner)
          → Stands id goal w'
          → IsKeyed row_key w'.store.rows
          → waiting_rows id w' < n
          → Stops id goal (drive route f id g n w'))
      → Stops id goal (elim p.1 [
        | err e ↦ (p.0, err e)
        | ok more ↦ if more then drive route f id g n p.0 else (p.0, ok false)
      ])
  next-Stops n w (w', err e) h fuel rest = h
  next-Stops n w (w', ok false) h fuel rest = h
  next-Stops n w (w', ok true) (stands, keyed, fewer) fuel rest = rest w' stands keyed (omega arith)

  drive-Stops :
      (n : ℕ) (w : Runner)
      → Stands id goal w
      → IsKeyed row_key w.store.rows
      → waiting_rows id w < n
      → Stops id goal (drive route f id g n w)
  unfolding drive
  drive-Stops zero w stands keyed fuel = absurd (omega arith)
  drive-Stops (suc n) w stands keyed fuel =
      next-Stops n w (turn route f id g w) (turn-Leaves w stands keyed) fuel
        (λ w' stands' keyed' fuel'. drive-Stops n w' stands' keyed' fuel')

caught-IsEnded :
    (route : TaskContract → Result Json) (f : Fresh) (id : ℕ) (g : Goal) (p : Runner × Result Bool)
    → Stops id g p
    → IsEnded id g (caught route f id p)
unfolding caught
caught-IsEnded route f id g (w, err e) h = inr (inr (status_set id g GoalStatus.failed w h))
caught-IsEnded route f id g (w, ok false) h = h
caught-IsEnded route f id g (w, ok true) h = absurd h

-- A run of a goal that is ready or paused ends, whatever the router answers or raises, after at most
-- one turn for each waiting task: the goal is then complete with no task that waits, or paused, or
-- failed, and is otherwise as it was.
pub run-IsEnded :
    (route : TaskContract → Result Json) (f : Fresh) (id : ℕ) (w : Runner) (g : Goal)
    → IsKeyed row_key w.store.rows
    → get_goal id w.store ≡ some g
    → is_startable g.status ≡ true
    → IsEnded id g (run route f id w)
unfolding run try_claim claimed_goal drive_goal turns get_goal set_goal_status with_status
run-IsEnded route f id w g keyed there free =
    let running = with_status GoalStatus.running g in
    let w' : Runner = record w { store = set_goal_status id GoalStatus.running w.store } in
    let runs : get_goal id w'.store ≡ some running =
      find-modify_hit goal_key (with_status GoalStatus.running) (λ h. refl) id w.store.goals g
        there in
    let ends =
      drive-Stops route f id running g (turns route f id w'.store) w' (GoalStatus.running, runs)
        keyed (omega (arith, count-read waiting id w'.store)) in
    rw (there, free, runs) (caught-IsEnded route f id g _ ends)
