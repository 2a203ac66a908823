-- ===== src/Goals/Saving/Partial.antt =====
-- On `save_plan` of core/goals/store.py where a key is taken already.
use mathlib.Core.List.{append-nil}
use galaxz.Prelude.{
  Error, ℕ, ◌≡◌, refl, sym, ap, ◌∙◌, ◌⊎◌, Bool, true, List, [], ◌∷◌, ◌++◌, is_some, Result, ok, err,
  integrity_error, inl, inr, arith,
}
use galaxz.Prelude.Table.{find}
use galaxz.Goals.Plan.{PlannedTask, PlannedRow, ProjectNode, project_key, row_key}
use galaxz.Goals.Store.{GoalDb}
use galaxz.Goals.Saving.{insert_projects, insert_tasks, and_then, save_goal, save_plan}
use galaxz.Goals.Saving.Inserted.{
  planned_rows, project_rows, InsertedProjects, insert_tasks-Inserted, insert_projects-Inserted,
}

-- What a plan that could not be saved has left: the projects and tasks before the one whose key is taken.
pub record IsPartial (projects : List ProjectNode) (tasks : List PlannedTask) (db db' : GoalDb)
    : Type 0 where
  pub saved_projects : List ProjectNode
  pub other_projects : List ProjectNode
  pub saved_tasks : List PlannedTask
  pub other_tasks : List PlannedTask
  pub all_projects : projects ≡ saved_projects ++ other_projects
  pub all_tasks : tasks ≡ saved_tasks ++ other_tasks
  pub in_projects : db'.projects ≡ db.projects ++ project_rows 0 saved_projects
  pub in_rows : db'.rows ≡ db.rows ++ planned_rows 0 saved_tasks
  pub same_goals : db'.goals ≡ db.goals
  pub stopped :
      ((saved_tasks ≡ [])
        × (q : ProjectNode) × (more : List ProjectNode) × (other_projects ≡ q ∷ more)
        × (is_some (find project_key q.project_id db'.projects) ≡ true))
      ⊎ ((other_projects ≡ [])
          × (t : PlannedTask) × (more : List PlannedTask) × (other_tasks ≡ t ∷ more)
          × (is_some (find row_key t.task_id db'.rows) ≡ true))

module _ (projects : List ProjectNode) (tasks : List PlannedTask) where
  partial :
      (db : GoalDb) (p : GoalDb × Result (Unit {0})) (done rest : List ProjectNode) (e : Error)
      → InsertedProjects 0 projects db p done rest
      → (and_then p (insert_tasks 0 tasks)).1 ≡ err e
      → (e ≡ integrity_error) × IsPartial projects tasks db (and_then p (insert_tasks 0 tasks)).0
  unfolding planned_rows
  partial db (db', err x) done rest e h failed = elim h.ended [
    | inl (fine, all) ↦ absurd (ground arith)
    | inr (why, q, more, next, taken) ↦ (
      cc (failed, why),
      record {
        saved_projects = done;
        other_projects = rest;
        saved_tasks = [];
        other_tasks = tasks;
        all_projects = h.split;
        all_tasks = refl;
        in_projects = h.projects;
        in_rows = h.rows ∙ sym (append-nil db.rows);
        same_goals = h.goals;
        stopped = inl (refl, q, more, next, taken);
      },
    )
  ]
  partial db (db', ok u) done rest e h failed =
      let (saved, others, k) = insert_tasks-Inserted 0 tasks db' in
      elim k.ended [
        | inl (fine, all) ↦ absurd (ground arith)
        | inr (why, t, more, next, taken) ↦ elim h.ended [
          | inr (bad, q, ms, after, gone) ↦ absurd (ground arith)
          | inl (good, no_more) ↦ (
            cc (failed, why),
            record {
              saved_projects = done;
              other_projects = rest;
              saved_tasks = saved;
              other_tasks = others;
              all_projects = h.split;
              all_tasks = k.split;
              in_projects = k.projects ∙ h.projects;
              in_rows = k.rows ∙ ap (λ (z : List PlannedRow). z ++ planned_rows 0 saved) h.rows;
              same_goals = k.goals ∙ h.goals;
              stopped = inr (no_more, t, more, next, taken);
            },
          )
        ]
      ]

saved_partial :
    (id plan_confidence : ℕ) (gated : Bool) (p : GoalDb × Result (Unit {0})) (e : Error)
    → (and_then p (save_goal id plan_confidence gated)).1 ≡ err e
    → (p.1 ≡ err e) × ((and_then p (save_goal id plan_confidence gated)).0 ≡ p.0)
unfolding save_goal
saved_partial id plan_confidence gated (db, ok u) e failed = absurd (ground arith)
saved_partial id plan_confidence gated (db, err x) e failed = (failed, refl)

-- A plan that cannot be saved raises IntegrityError and leaves the goals as they were, but the
-- projects and tasks before the one whose key is taken stay in the tables.
pub save_plan-IsPartial :
    (id : ℕ) (projects : List ProjectNode) (tasks : List PlannedTask) (plan_confidence : ℕ)
    (gated : Bool) (db : GoalDb) (e : Error)
    → (save_plan id projects tasks plan_confidence gated db).1 ≡ err e
    → (e ≡ integrity_error)
      × IsPartial projects tasks db (save_plan id projects tasks plan_confidence gated db).0
unfolding save_plan
save_plan-IsPartial id projects tasks plan_confidence gated db e failed =
    let (done, rest, h) = insert_projects-Inserted 0 projects db in
    let p = and_then (insert_projects 0 projects db) (insert_tasks 0 tasks) in
    let (raised, same) = saved_partial id plan_confidence gated p e failed in
    rw same (partial projects tasks db (insert_projects 0 projects db) done rest e h raised)
