-- ===== src/Goals/Rows.antt =====
-- On updates of `planned_tasks`: relations between the rows before and after, and the tasks that were
-- read before.
use galaxz.Prelude.{
  Option-cases, Bool, true, ◌≤◌, true, ℕ, ◌≡◌, ◌≢◌, sym, ◌∙◌, inl, inr, some, List, ◌==◌,
  Bool-cases, arith,
}
use galaxz.Prelude.Table.{find, find-modify_hit, find-modify_ne, IsKeyed, IsKeyed-modify}
use galaxz.Prelude.Table.Count.{count, count-modify, modify-absent}
use native.Mathlib.Nat.{le_refl, le_trans}
use galaxz.Goals.Plan.{PlannedTask, PlannedRow, row_key, update_task}

-- every row is still there, and stands in the relation to what it was
abbrev pub Carries : (PlannedRow → PlannedRow → Type 0) → (rows rows' : List PlannedRow) → Type 0
Carries M rows rows' =
    (k : ℕ) (r : PlannedRow)
    → find row_key k rows ≡ some r
    → (r' : PlannedRow) × (find row_key k rows' ≡ some r') × M r r'

-- a test that no row comes to pass
abbrev pub Forgets : (PlannedRow → PlannedRow → Type 0) → (PlannedRow → Bool) → Type 0
Forgets M p = (r r' : PlannedRow) → M r r' → p r' ≡ true → p r ≡ true

-- the same, no key is used twice, and no more rows pass such a test
abbrev pub Moves : (PlannedRow → PlannedRow → Type 0) → (rows rows' : List PlannedRow) → Type 0
Moves M rows rows' =
    Carries M rows rows'
    × (IsKeyed row_key rows → IsKeyed row_key rows')
    × (IsKeyed row_key rows → (p : PlannedRow → Bool) → Forgets M p → count p rows' ≤ count p rows)

-- a row that is found by the identifier of the task has this task
abbrev pub Shows : List PlannedRow → PlannedTask → Type 0
Shows rows t = (r : PlannedRow) → find row_key t.task_id rows ≡ some r → r.task ≡ t

-- updates that leave the key
abbrev pub KeepsKey : (PlannedRow → PlannedRow) → Type 0
KeepsKey f = (r : PlannedRow) → row_key (f r) ≡ row_key r

pub record IsPreorder (M : PlannedRow → PlannedRow → Type 0) : Type 0 where
  pub stays : (r : PlannedRow) → M r r
  pub joins : (r s t : PlannedRow) → M r s → M s t → M r t

module _ (M : PlannedRow → PlannedRow → Type 0) (p : IsPreorder M) where
  pub Moves-same : (rows : List PlannedRow) → Moves M rows rows
  Moves-same rows = (λ k r there. (r, there, p.stays r), λ h. h, λ keyed test f. le_refl _)

  pub Moves-then :
      (rows rows' rows'' : List PlannedRow)
      → Moves M rows rows'
      → Moves M rows' rows''
      → Moves M rows rows''
  Moves-then rows rows' rows'' f g = (
    λ k r there.
        let (s, next, first) = f.0 k r there in
        let (t, last, second) = g.0 k s next in (t, last, p.joins r s t first second),
    λ keyed. g.1 (f.1 keyed),
    λ keyed test forgets. le_trans (g.2 (f.1 keyed) test forgets) (f.2 keyed test forgets),
  )

  Carries-update :
      (t : PlannedTask) (f : PlannedRow → PlannedRow) (rows : List PlannedRow)
      → KeepsKey f
      → Shows rows t
      → ((r : PlannedRow) → r.task ≡ t → M r (f r))
      → Carries M rows (update_task t.task_id f rows)
  unfolding update_task
  Carries-update t f rows keeps shows moves k r there = elim (Bool-cases (t.task_id == k)) [
    | inl same ↦
        let here : find row_key t.task_id rows ≡ some r =
          let e : t.task_id ≡ k = ground arith in rw e there in
        let hit = find-modify_hit row_key f keeps t.task_id rows r here in
        (f r, (let e : t.task_id ≡ k = ground arith in rw (← e) hit), moves r (shows r here))
    | inr other ↦
        (r, find-modify_ne row_key f keeps t.task_id k rows (λ e. ground arith) ∙ there, p.stays r)
  ]

  fewer-update :
      (t : PlannedTask) (f : PlannedRow → PlannedRow) (rows : List PlannedRow)
      → Shows rows t
      → ((r : PlannedRow) → r.task ≡ t → M r (f r))
      → IsKeyed row_key rows
      → (test : PlannedRow → Bool) → Forgets M test
      → count test (update_task t.task_id f rows) ≤ count test rows
  unfolding update_task
  fewer-update t f rows shows moves keyed test forgets =
      elim (Option-cases (find row_key t.task_id rows)) [
        | inl absent ↦ rw (modify-absent test row_key f t.task_id rows absent) (le_refl _)
        | inr (r, there) ↦
            let counted = count-modify test row_key f t.task_id rows r keyed there in
            let passed = forgets r (f r) (moves r (shows r there)) in
            elim (Bool-cases (test (f r))) [
              | inl later ↦ ground (arith, counted, passed later)
              | inr never ↦ ground (arith, counted)
            ]
      ]

  -- an update of the row of a task that was read
  pub Moves-update :
      (t : PlannedTask) (f : PlannedRow → PlannedRow) (rows : List PlannedRow)
      → KeepsKey f
      → Shows rows t
      → ((r : PlannedRow) → r.task ≡ t → M r (f r))
      → Moves M rows (update_task t.task_id f rows)
  unfolding update_task
  Moves-update t f rows keeps shows moves = (
    Carries-update t f rows keeps shows moves,
    IsKeyed-modify row_key f keeps t.task_id rows,
    fewer-update t f rows shows moves,
  )

-- an update shows the tasks of other rows as before
pub Shows-update :
    (id : ℕ) (f : PlannedRow → PlannedRow) (rows : List PlannedRow) (u : PlannedTask)
    → KeepsKey f
    → id ≢ u.task_id
    → Shows rows u
    → Shows (update_task id f rows) u
unfolding update_task
Shows-update id f rows u keeps other shows r there =
    shows r (sym (find-modify_ne row_key f keeps id u.task_id rows other) ∙ there)
