-- ===== src/Goals/Reading.antt =====
-- On `get_tasks` of core/goals/store.py: the tasks that it reads and the rows of the table.
pub mod Counts
use galaxz.Prelude.{
  true, true, ℕ, ◌≡◌, refl, ap, inl, inr, some, none, List, [], ◌∷◌, map, ltb, ◌==◌, Bool-cases,
  arith,
}
use galaxz.Prelude.Table.{find, select, IsKeyed, All, All-map}
use galaxz.Prelude.Table.Select.{All-select, IsKeyed-select}
use galaxz.Goals.Plan.{PlannedTask, PlannedRow, row_key, task_key}
use galaxz.Goals.Store.{GoalDb, get_tasks, by_ordinal, insert_row}
use galaxz.Goals.Rows.{Shows}

insert-All {κ} :
    (P : PlannedRow → Type κ) (r : PlannedRow) (rows : List PlannedRow)
    → P r
    → All P rows
    → All P (insert_row r rows)
unfolding insert_row
insert-All P r [] p h = (p, tt)
insert-All P r (q ∷ rows) p h = elim (Bool-cases (ltb q.ordinal r.ordinal)) [
  | inl before ↦ rw before (h.0, insert-All P r rows p h.1)
  | inr after ↦ rw after (p, h)
]

sorted-All {κ} :
    (P : PlannedRow → Type κ) (rows : List PlannedRow) → All P rows → All P (by_ordinal rows)
unfolding by_ordinal
sorted-All P [] h = tt
sorted-All P (r ∷ rows) h = insert-All P r (by_ordinal rows) h.0 (sorted-All P rows h.1)

mapped-All {κ} :
    (P : PlannedTask → Type κ) (rows : List PlannedRow)
    → All (λ (r : PlannedRow). P r.task) rows
    → All P (map (λ (r : PlannedRow). r.task) rows)
mapped-All P [] h = tt
mapped-All P (r ∷ rows) h = (h.0, mapped-All P rows h.1)

-- what holds of all rows of a goal, by which they are found, holds of the tasks that are read
pub read-All {κ} :
    (P : PlannedTask → Type κ) (id : ℕ) (db : GoalDb)
    → IsKeyed row_key db.rows
    → ((r : PlannedRow)
        → find row_key (row_key r) db.rows ≡ some r
        → (r.task.goal_id == id) ≡ true
        → P r.task)
    → All P (get_tasks id db)
unfolding get_tasks
read-All P id db keyed f =
    let mine : List PlannedRow = select (λ (r : PlannedRow). r.task.goal_id == id) db.rows in
    mapped-All P (by_ordinal mine) (
      sorted-All (λ (r : PlannedRow). P r.task) mine
        (All-map _ (λ (r : PlannedRow). P r.task) mine (λ r h. f r h.0 h.1)
          (All-select row_key (λ (r : PlannedRow). r.task.goal_id == id) db.rows keyed)))

pub read-Shows :
    (id : ℕ) (db : GoalDb) → IsKeyed row_key db.rows → All (λ t. Shows db.rows t) (get_tasks id db)
read-Shows id db keyed =
    read-All (λ t. Shows db.rows t) id db keyed
      (λ r there mine q found.
        let same : q ≡ r = cc (there, found) in ap (λ (z : PlannedRow). z.task) same)

insert-absent :
    (k : ℕ) (r : PlannedRow) (rows : List PlannedRow)
    → find row_key k (r ∷ rows) ≡ none
    → find row_key k (insert_row r rows) ≡ none
unfolding insert_row find
insert-absent k r [] h = h
insert-absent k r (q ∷ rows) h = ground (arith, insert-absent k r rows)

insert-IsKeyed :
    (r : PlannedRow) (rows : List PlannedRow)
    → find row_key (row_key r) rows ≡ none
    → IsKeyed row_key rows
    → IsKeyed row_key (insert_row r rows)
unfolding insert_row find
insert-IsKeyed r [] new d = (refl, tt)
insert-IsKeyed r (q ∷ rows) new d = elim (Bool-cases (ltb q.ordinal r.ordinal)) [
  | inl before ↦
      rw before
        (insert-absent (row_key q) r rows (ground arith), insert-IsKeyed r rows (ground arith) d.1)
  | inr after ↦ rw after (new, d)
]

sorted-absent :
    (k : ℕ) (rows : List PlannedRow)
    → find row_key k rows ≡ none
    → find row_key k (by_ordinal rows) ≡ none
unfolding by_ordinal find
sorted-absent k [] h = h
sorted-absent k (r ∷ rows) h =
    insert-absent k r (by_ordinal rows) (ground (arith, sorted-absent k rows))

sorted-IsKeyed : (rows : List PlannedRow) → IsKeyed row_key rows → IsKeyed row_key (by_ordinal rows)
unfolding by_ordinal
sorted-IsKeyed [] d = tt
sorted-IsKeyed (r ∷ rows) d =
    insert-IsKeyed r (by_ordinal rows) (sorted-absent (row_key r) rows d.0)
      (sorted-IsKeyed rows d.1)

mapped-absent :
    (k : ℕ) (rows : List PlannedRow)
    → find row_key k rows ≡ none
    → find task_key k (map (λ (r : PlannedRow). r.task) rows) ≡ none
unfolding find
mapped-absent k [] h = refl
mapped-absent k (r ∷ rows) h = ground (arith, mapped-absent k rows)

mapped-IsKeyed :
    (rows : List PlannedRow)
    → IsKeyed row_key rows
    → IsKeyed task_key (map (λ (r : PlannedRow). r.task) rows)
mapped-IsKeyed [] d = tt
mapped-IsKeyed (r ∷ rows) d = (mapped-absent (row_key r) rows d.0, mapped-IsKeyed rows d.1)

pub read-IsKeyed :
    (id : ℕ) (db : GoalDb) → IsKeyed row_key db.rows → IsKeyed task_key (get_tasks id db)
unfolding get_tasks
read-IsKeyed id db keyed = mapped-IsKeyed _ (
    sorted-IsKeyed _
      (IsKeyed-select row_key (λ (r : PlannedRow). r.task.goal_id == id) db.rows keyed))
