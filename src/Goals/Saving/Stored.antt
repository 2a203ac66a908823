-- ===== src/Goals/Saving/Stored.antt =====
-- On `save_plan` of core/goals/store.py, and what `get_goal` and `get_tasks` read after it.
use native.Mathlib.Nat.{le_refl}
use mathlib.Core.List.{append-nil}
use galaxz.Prelude.{
  ℕ, ◌+◌, ◌≤◌, ◌≡◌, ◌≢◌, refl, sym, ap, ◌∙◌, Bool, false, some, List, [], ◌∷◌, ◌++◌, map, ltb, ◌==◌,
  Result, ok, err, inl, inr, Bool-cases, arith, if◌then◌else◌,
}
use galaxz.Prelude.Table.{find-modify_hit, select, All, All-map}
use galaxz.Goals.Plan.{ProjectNode, PlannedTask, PlannedRow}
use galaxz.Goals.Store.{
  Goal, GoalStatus, GoalDb, goal_key, get_goal, get_tasks, by_ordinal, insert_row,
}
use galaxz.Goals.Saving.{
  planned_row, insert_projects, insert_tasks, planned_goal, and_then, save_goal, save_plan,
}
use galaxz.Goals.Saving.Inserted.{
  planned_rows, InsertedProjects, insert_tasks-Inserted, insert_projects-Inserted,
}

abbrev mine : ℕ → PlannedRow → Bool
mine id r = r.task.goal_id == id

planned-ge :
    (id i : ℕ) (ts : List PlannedTask)
    → All (λ (r : PlannedRow). i ≤ r.ordinal) (select (mine id) (planned_rows i ts))
unfolding planned_rows planned_row select
planned-ge id i [] = tt
planned-ge id i (t ∷ ts) =
    let rest =
      All-map _ (λ (r : PlannedRow). i ≤ r.ordinal) _ (λ r h. omega arith)
        (planned-ge id (i + 1) ts) in
    elim (Bool-cases (t.goal_id == id)) [
      | inl own ↦ rw own (le_refl i, rest)
      | inr other ↦ rw other rest
    ]

insert_first :
    (r : PlannedRow) (rows : List PlannedRow)
    → All (λ (q : PlannedRow). r.ordinal ≤ q.ordinal) rows
    → insert_row r rows ≡ r ∷ rows
unfolding insert_row
insert_first r [] h = refl
insert_first r (q ∷ rows) h =
    let e : ltb q.ordinal r.ordinal ≡ false = (let k = h.0 in ground arith) in rw e refl

-- the rows of a plan are in order
planned-sorted :
    (id i : ℕ) (ts : List PlannedTask)
    → by_ordinal (select (mine id) (planned_rows i ts)) ≡ select (mine id) (planned_rows i ts)
unfolding planned_rows planned_row select by_ordinal
planned-sorted id i [] = refl
planned-sorted id i (t ∷ ts) =
    let below =
      All-map _ (λ (r : PlannedRow). i ≤ r.ordinal) _ (λ r h. omega arith)
        (planned-ge id (i + 1) ts) in
    elim (Bool-cases (t.goal_id == id)) [
      | inl own ↦ rw (own, planned-sorted id (i + 1) ts) (insert_first (planned_row i t) _ below)
      | inr other ↦ rw other (planned-sorted id (i + 1) ts)
    ]

planned-tasks :
    (id i : ℕ) (ts : List PlannedTask)
    → map (λ (r : PlannedRow). r.task) (select (mine id) (planned_rows i ts))
      ≡ select (λ (t : PlannedTask). t.goal_id == id) ts
unfolding planned_rows planned_row select
planned-tasks id i [] = refl
planned-tasks id i (t ∷ ts) = ground (arith, planned-tasks id (i + 1) ts)

select-append :
    (p : PlannedRow → Bool) (rows more : List PlannedRow)
    → select p rows ≡ []
    → select p (rows ++ more) ≡ select p more
unfolding select
select-append p [] more h = refl
select-append p (r ∷ rows) more h = ground (arith, select-append p rows more)

get_tasks-planned :
    (id : ℕ) (ts : List PlannedTask) (db db' : GoalDb)
    → select (mine id) db.rows ≡ []
    → db'.rows ≡ db.rows ++ planned_rows 0 ts
    → get_tasks id db' ≡ select (λ (t : PlannedTask). t.goal_id == id) ts
unfolding get_tasks
get_tasks-planned id ts db db' new rows =
    rw (rows, select-append (mine id) db.rows (planned_rows 0 ts) new, planned-sorted id 0 ts)
      (planned-tasks id 0 ts)

inserted_all :
    (projects : List ProjectNode) (tasks : List PlannedTask) (db : GoalDb)
    (p : GoalDb × Result (Unit {0})) (done rest : List ProjectNode)
    → InsertedProjects 0 projects db p done rest
    → (and_then p (insert_tasks 0 tasks)).1 ≡ ok tt
    → ((and_then p (insert_tasks 0 tasks)).0.rows ≡ db.rows ++ planned_rows 0 tasks)
      × ((and_then p (insert_tasks 0 tasks)).0.goals ≡ db.goals)
inserted_all projects tasks db (db', err x) done rest h fine = absurd (ground arith)
inserted_all projects tasks db (db', ok u) done rest h fine =
    let (saved, others, k) = insert_tasks-Inserted 0 tasks db' in
    elim k.ended [
      | inr (bad, t, more, next, taken) ↦ absurd (ground arith)
      | inl (good, all) ↦
          let whole : saved ≡ tasks =
            sym (k.split ∙ ap (λ (z : List PlannedTask). saved ++ z) all ∙ append-nil saved) in
          (
            k.rows
                ∙ ap (λ (z : List PlannedRow). z ++ planned_rows 0 saved) h.rows
                ∙ ap (λ (z : List PlannedTask). db.rows ++ planned_rows 0 z) whole,
            k.goals ∙ h.goals,
          )
    ]

map_nil : (rows : List PlannedRow) → map (λ (r : PlannedRow). r.task) rows ≡ [] → rows ≡ []
map_nil [] e = refl
map_nil (r ∷ rows) e = cc

-- a goal without tasks has no rows
insert-ne : (r : PlannedRow) (rows : List PlannedRow) → insert_row r rows ≢ []
unfolding insert_row
insert-ne r [] e = cc
insert-ne r (q ∷ rows) e = elim (Bool-cases (ltb q.ordinal r.ordinal)) [
  | inl before ↦ let k = rw before at e in cc k
  | inr after ↦ let k = rw after at e in cc k
]

sorted_nil :
    (rows : List PlannedRow) → map (λ (r : PlannedRow). r.task) (by_ordinal rows) ≡ [] → rows ≡ []
unfolding by_ordinal
sorted_nil [] e = refl
sorted_nil (r ∷ rows) e =
    absurd (insert-ne r (by_ordinal rows) (map_nil (insert_row r (by_ordinal rows)) e))

none_mine : (id : ℕ) (db : GoalDb) → get_tasks id db ≡ [] → select (mine id) db.rows ≡ []
unfolding get_tasks
none_mine id db e = sorted_nil (select (mine id) db.rows) e

same_goal :
    (id : ℕ) (db db' : GoalDb) (g : Goal)
    → db'.goals ≡ db.goals
    → get_goal id db ≡ some g
    → get_goal id db' ≡ some g
unfolding get_goal
same_goal id db db' g same there = rw same there

saved_first :
    (id plan_confidence : ℕ) (gated : Bool) (p : GoalDb × Result (Unit {0}))
    → (and_then p (save_goal id plan_confidence gated)).1 ≡ ok tt
    → p.1 ≡ ok tt
saved_first id plan_confidence gated (db, ok u) fine = refl
saved_first id plan_confidence gated (db, err e) fine = absurd (ground arith)

planned_key :
    (plan_confidence : ℕ) (gated : Bool) (g : Goal)
    → goal_key (planned_goal plan_confidence gated g) ≡ goal_key g
unfolding planned_goal
planned_key plan_confidence gated g = refl

goal_saved :
    (id plan_confidence : ℕ) (gated : Bool) (p : GoalDb × Result (Unit {0})) (g : Goal)
    → (and_then p (save_goal id plan_confidence gated)).1 ≡ ok tt
    → get_goal id p.0 ≡ some g
    → (p.1 ≡ ok tt)
      × ((and_then p (save_goal id plan_confidence gated)).0.rows ≡ p.0.rows)
      × (get_goal id (and_then p (save_goal id plan_confidence gated)).0
          ≡ some (planned_goal plan_confidence gated g))
unfolding save_goal get_goal
goal_saved id plan_confidence gated (db, err e) g done there = absurd (ground arith)
goal_saved id plan_confidence gated (db, ok u) g done there = (
  refl,
  refl,
  find-modify_hit goal_key (planned_goal plan_confidence gated) (planned_key plan_confidence gated)
      id db.goals g there,
)

-- When the plan of a goal that has no tasks yet has been saved, `get_tasks` reads the tasks of the plan
-- that are of this goal, as they are and in their order, and the goal is ready, or paused if it is
-- gated, with the confidence of the plan.
pub save_plan-stored :
    (id : ℕ) (projects : List ProjectNode) (tasks : List PlannedTask) (plan_confidence : ℕ)
    (gated : Bool) (db : GoalDb) (g : Goal)
    → get_goal id db ≡ some g
    → get_tasks id db ≡ []
    → (save_plan id projects tasks plan_confidence gated db).1 ≡ ok tt
    → (get_tasks id (save_plan id projects tasks plan_confidence gated db).0
        ≡ select (λ (t : PlannedTask). t.goal_id == id) tasks)
      × (get_goal id (save_plan id projects tasks plan_confidence gated db).0
          ≡ some (record g {
            status = if gated then GoalStatus.paused else GoalStatus.ready;
            plan_confidence = some plan_confidence;
          }))
unfolding save_plan planned_goal
save_plan-stored id projects tasks plan_confidence gated db g there new saved =
    let (done, rest, h) = insert_projects-Inserted 0 projects db in
    let p = and_then (insert_projects 0 projects db) (insert_tasks 0 tasks) in
    let fine = (saved_first id plan_confidence gated p saved) in
    let (rows, goals) =
      inserted_all projects tasks db (insert_projects 0 projects db) done rest h fine in
    let (ended, same_rows, stored) =
      goal_saved id plan_confidence gated p g saved (same_goal id db p.0 g goals there) in
    (get_tasks-planned id tasks db _ (none_mine id db new) (same_rows ∙ rows), stored)
