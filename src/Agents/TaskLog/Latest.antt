-- ===== src/Agents/TaskLog/Latest.antt =====
-- On `write` and `get` of agents/andromeda/task_log.py.
use galaxz.Prelude.{
  String, ◌≡◌, refl, true, false, Option, none, some, List, [], ◌∷◌, inl, inr, Bool-cases, eq_iff,
  arith,
}
use galaxz.Prelude.Text.{str_eq}
use galaxz.Prelude.Table.{exists}
use galaxz.Contracts.Json.{str_eq_refl}
use galaxz.Agents.TaskLog.{LogRow, same_entry, write, get_entry, or_last}

-- A task's row of a new status is the one that is read next.
pub write-get_entry :
    (r : LogRow) (rows : List LogRow)
    → exists (same_entry r) rows ≡ false
    → get_entry r.task_id (write r rows) ≡ some r
unfolding exists write get_entry
write-get_entry r [] new = rw (str_eq_refl r.task_id) refl
write-get_entry r (q ∷ rows) new = elim (Bool-cases (same_entry r q)) [
  | inl hit ↦ absurd (ground arith)
  | inr miss ↦ rw (miss, write-get_entry r rows (ground arith)) refl
]

passed_over : (r q : LogRow) (o : Option LogRow) → or_last false r o ≡ or_last false q o
passed_over r q none = refl
passed_over r q (some p) = refl

same_task : (r q : LogRow) → same_entry r q ≡ true → q.task_id ≡ r.task_id
unfolding same_entry
same_task r q hit = (eq_iff q.task_id r.task_id).0 (ground arith)

-- A row of another task is read as before.
pub write-get_entry_other :
    (r : LogRow) (id : String) (rows : List LogRow)
    → str_eq r.task_id id ≡ false
    → get_entry id (write r rows) ≡ get_entry id rows
unfolding write get_entry
write-get_entry_other r id [] other = rw other refl
write-get_entry_other r id (q ∷ rows) other = elim (Bool-cases (same_entry r q)) [
  | inl hit ↦
      let same = same_task r q hit in rw (hit, same, other) (passed_over r q (get_entry id rows))
  | inr miss ↦ rw (miss, write-get_entry_other r id rows other) refl
]
