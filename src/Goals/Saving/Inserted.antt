-- ===== src/Goals/Saving/Inserted.antt =====
-- On the INSERTs of `save_plan` (core/goals/store.py): how far the loops come.
use mathlib.Core.List.{append-nil}
use galaxz.Prelude.{
  ℕ, ◌+◌, ◌≡◌, refl, sym, ap, ◌∙◌, ◌⊎◌, true, false, Option, none, some, List, [], ◌∷◌, ◌++◌,
  is_some, is_none, Result, ok, err, integrity_error, inl, inr, Bool-cases,
}
use galaxz.Prelude.Table.{find}
use galaxz.Goals.Plan.{PlannedTask, PlannedRow, ProjectNode, ProjectRow, project_key, row_key}
use galaxz.Goals.Store.{GoalDb}
use galaxz.Goals.Saving.{
  planned_row, project_row, insert_project, insert_planned, insert_projects, insert_tasks,
}

-- the rows of tasks and of projects in the order of a plan
unfoldable pub planned_rows : ℕ → List PlannedTask → List PlannedRow
planned_rows i [] = []
planned_rows i (t ∷ ts) = planned_row i t ∷ planned_rows (i + 1) ts

unfoldable pub project_rows : ℕ → List ProjectNode → List ProjectRow
project_rows i [] = []
project_rows i (p ∷ ps) = project_row i p ∷ project_rows (i + 1) ps

append_one {ℓ} :
    {A : Type ℓ} (xs : List A) (x : A) (ys : List A) → (xs ++ x ∷ []) ++ ys ≡ xs ++ x ∷ ys
append_one [] x ys = refl
append_one (y ∷ xs) x ys = ap (◌∷◌ y) (append_one xs x ys)

-- The loop got through `done` and stopped at the first of `rest`, if there is one, whose key is taken.
pub record Inserted (i : ℕ) (ts : List PlannedTask) (db : GoalDb) (p : GoalDb × Result (Unit {0}))
    (done rest : List PlannedTask) : Type 0 where
  pub split : ts ≡ done ++ rest
  pub rows : p.0.rows ≡ db.rows ++ planned_rows i done
  pub projects : p.0.projects ≡ db.projects
  pub goals : p.0.goals ≡ db.goals
  pub ended :
      ((p.1 ≡ ok tt) × (rest ≡ []))
      ⊎ ((p.1 ≡ err integrity_error)
          × (t : PlannedTask) × (more : List PlannedTask) × (rest ≡ t ∷ more)
          × (is_some (find row_key t.task_id p.0.rows) ≡ true))

planned_fits :
    (i : ℕ) (t : PlannedTask) (db : GoalDb)
    → is_none (find row_key t.task_id db.rows) ≡ true
    → insert_planned i t db ≡ (record db { rows = db.rows ++ planned_row i t ∷ [] }, ok tt)
unfolding insert_planned
planned_fits i t db free = rw free refl

planned_taken :
    (i : ℕ) (t : PlannedTask) (db : GoalDb)
    → is_none (find row_key t.task_id db.rows) ≡ false
    → insert_planned i t db ≡ (db, err integrity_error)
unfolding insert_planned
planned_taken i t db taken = rw taken refl

taken_some : {A : Type 0} (o : Option A) → is_none o ≡ false → is_some o ≡ true
taken_some none h = cc
taken_some (some a) h = refl

pub insert_tasks-Inserted :
    (i : ℕ) (ts : List PlannedTask) (db : GoalDb)
    → (done : List PlannedTask) × (rest : List PlannedTask) × Inserted i ts db
        (insert_tasks i ts db)
        done
        rest
unfolding insert_tasks planned_rows
insert_tasks-Inserted i [] db = (
  [],
  [],
  record {
    split = refl;
    rows = sym (append-nil db.rows);
    projects = refl;
    goals = refl;
    ended = inl (refl, refl);
  },
)
insert_tasks-Inserted i (t ∷ ts) db = elim (Bool-cases (is_none (find row_key t.task_id db.rows))) [
  | inr taken ↦ (
    [],
    t ∷ ts,
    rw (planned_taken i t db taken, insert_tasks)
        (record {
          split = refl;
          rows = sym (append-nil db.rows);
          projects = refl;
          goals = refl;
          ended = inr (refl, t, ts, refl, taken_some (find row_key t.task_id db.rows) taken);
        }),
  )
  | inl free ↦
      let next : GoalDb = record db { rows = db.rows ++ planned_row i t ∷ [] } in
      let (done, rest, h) = insert_tasks-Inserted (i + 1) ts next in
      (
        t ∷ done,
        rest,
        rw (planned_fits i t db free, insert_tasks)
            (record {
              split = ap (◌∷◌ t) h.split;
              rows = h.rows ∙ append_one db.rows (planned_row i t) (planned_rows (i + 1) done);
              projects = h.projects;
              goals = h.goals;
              ended = h.ended;
            }),
      )
]

-- the same of the projects
pub record InsertedProjects (i : ℕ) (ps : List ProjectNode) (db : GoalDb)
    (p : GoalDb × Result (Unit {0})) (done rest : List ProjectNode) : Type 0 where
  pub split : ps ≡ done ++ rest
  pub projects : p.0.projects ≡ db.projects ++ project_rows i done
  pub rows : p.0.rows ≡ db.rows
  pub goals : p.0.goals ≡ db.goals
  pub ended :
      ((p.1 ≡ ok tt) × (rest ≡ []))
      ⊎ ((p.1 ≡ err integrity_error)
          × (q : ProjectNode) × (more : List ProjectNode) × (rest ≡ q ∷ more)
          × (is_some (find project_key q.project_id p.0.projects) ≡ true))

project_fits :
    (i : ℕ) (p : ProjectNode) (db : GoalDb)
    → is_none (find project_key p.project_id db.projects) ≡ true
    → insert_project i p db ≡ (record db { projects = db.projects ++ project_row i p ∷ [] }, ok tt)
unfolding insert_project
project_fits i p db free = rw free refl

project_taken :
    (i : ℕ) (p : ProjectNode) (db : GoalDb)
    → is_none (find project_key p.project_id db.projects) ≡ false
    → insert_project i p db ≡ (db, err integrity_error)
unfolding insert_project
project_taken i p db taken = rw taken refl

pub insert_projects-Inserted :
    (i : ℕ) (ps : List ProjectNode) (db : GoalDb)
    → (done : List ProjectNode) × (rest : List ProjectNode) × InsertedProjects i ps db
        (insert_projects i ps db)
        done
        rest
unfolding insert_projects project_rows
insert_projects-Inserted i [] db = (
  [],
  [],
  record {
    split = refl;
    projects = sym (append-nil db.projects);
    rows = refl;
    goals = refl;
    ended = inl (refl, refl);
  },
)
insert_projects-Inserted i (p ∷ ps) db =
    elim (Bool-cases (is_none (find project_key p.project_id db.projects))) [
      | inr taken ↦ (
        [],
        p ∷ ps,
        rw (project_taken i p db taken, insert_projects)
            (record {
              split = refl;
              projects = sym (append-nil db.projects);
              rows = refl;
              goals = refl;
              ended =
                  inr (
                    refl,
                    p,
                    ps,
                    refl,
                    taken_some (find project_key p.project_id db.projects) taken,
                  );
            }),
      )
      | inl free ↦
          let next : GoalDb = record db { projects = db.projects ++ project_row i p ∷ [] } in
          let (done, rest, h) = insert_projects-Inserted (i + 1) ps next in
          (
            p ∷ done,
            rest,
            rw (project_fits i p db free, insert_projects)
                (record {
                  split = ap (◌∷◌ p) h.split;
                  projects =
                      h.projects
                      ∙ append_one db.projects (project_row i p) (project_rows (i + 1) done);
                  rows = h.rows;
                  goals = h.goals;
                  ended = h.ended;
                }),
          )
    ]
