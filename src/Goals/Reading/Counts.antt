-- ===== src/Goals/Reading/Counts.antt =====
-- On `get_tasks` of core/goals/store.py: the tasks that it reads, counted by a test.
use galaxz.Prelude.{
  ℕ, ◌≡◌, refl, ◌∙◌, Bool, ◌&&◌, List, [], ◌∷◌, map, inl, inr, ltb, ◌==◌, Bool-cases, arith,
}
use galaxz.Prelude.Table.{select}
use galaxz.Prelude.Table.Count.{count}
use galaxz.Goals.Plan.{PlannedTask, PlannedRow}
use galaxz.Goals.Store.{GoalDb, get_tasks, by_ordinal, insert_row}

module _ (p : PlannedTask → Bool) where
  abbrev passes : PlannedRow → Bool
  passes r = p r.task

  count-insert :
      (r : PlannedRow) (rows : List PlannedRow)
      → count passes (insert_row r rows) ≡ count passes (r ∷ rows)
  unfolding count insert_row
  count-insert r [] = refl
  count-insert r (q ∷ rows) = elim (Bool-cases (ltb q.ordinal r.ordinal)) [
    | inl before ↦ rw before (omega (arith, count-insert r rows))
    | inr after ↦ rw after refl
  ]

  count-sorted : (rows : List PlannedRow) → count passes (by_ordinal rows) ≡ count passes rows
  unfolding count by_ordinal
  count-sorted [] = refl
  count-sorted (r ∷ rows) = omega (arith, count-insert r (by_ordinal rows), count-sorted rows)

  count-mapped :
      (rows : List PlannedRow) → count p (map (λ (r : PlannedRow). r.task) rows) ≡ count passes rows
  unfolding count
  count-mapped [] = refl
  count-mapped (r ∷ rows) = omega (arith, count-mapped rows)

  count-selected :
      (id : ℕ) (rows : List PlannedRow)
      → count passes (select (λ (r : PlannedRow). r.task.goal_id == id) rows)
        ≡ count (λ (r : PlannedRow). r.task.goal_id == id && p r.task) rows
  unfolding count select
  count-selected id [] = refl
  count-selected id (r ∷ rows) = ground (arith, count-selected id rows)

  pub count-read :
      (id : ℕ) (db : GoalDb)
      → count p (get_tasks id db)
        ≡ count (λ (r : PlannedRow). r.task.goal_id == id && p r.task) db.rows
  unfolding get_tasks
  count-read id db = count-mapped _ ∙ count-sorted _ ∙ count-selected id db.rows
