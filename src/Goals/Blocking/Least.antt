-- ===== src/Goals/Blocking/Least.antt =====
-- On `_block_dependents` (core/goals/coordinator.py): the set of tasks it blocks.
use mathlib.Core.Path.{subst}
use galaxz.Prelude.{
  ℕ, zero, suc, ◌≡◌, refl, ap, ◌∙◌, inl, inr, true, false, some, List, [], ◌∷◌, ◌==◌, length,
  Bool-cases, arith,
}
use galaxz.Prelude.Table.{All}
use galaxz.Goals.Plan.{PlannedTask, PlannedRow}
use galaxz.Goals.Blocking.{
  contains_id, any_lost, failed_ids, is_behind, Blocked, block_one, block_pass, block_loop,
  block_dependents,
}
use galaxz.Goals.Blocking.Ends.{still_open, count-le, loop-ends}

-- every identifier of the first set is in the second
abbrev pub IsWithin : List ℕ → List ℕ → Type 0
IsWithin f g = (k : ℕ) → contains_id f k ≡ true → contains_id g k ≡ true

-- no pending task outside of the set depends on it
abbrev pub IsClosed : List PlannedTask → List ℕ → Type 0
IsClosed tasks g = All (λ t. is_behind g t ≡ false) tasks

lost-IsWithin : (f g ds : List ℕ) → IsWithin f g → any_lost f ds ≡ true → any_lost g ds ≡ true
unfolding any_lost
lost-IsWithin f g [] h e = ground arith
lost-IsWithin f g (d ∷ ds) h e = elim (Bool-cases (contains_id f d)) [
  | inl here ↦ ground (arith, h d here)
  | inr other ↦ ground (arith, lost-IsWithin f g ds h)
]

-- what a pass adds is in every closed set
step-least :
    (g : List ℕ) (t : PlannedTask) (s : Blocked)
    → is_behind g t ≡ false
    → IsWithin s.failed g
    → IsWithin (block_one t s).failed g
unfolding block_one is_behind contains_id
step-least g t s closed h = elim (Bool-cases (is_behind s.failed t)) [
  | inr fine ↦ simp (fine) h
  | inl behind ↦
      let lost : any_lost g t.depends_on ≡ true =
        lost-IsWithin s.failed g t.depends_on h (ground arith) in
      let mine : contains_id g t.task_id ≡ true = ground arith in
      simp (behind) (λ k e. elim (Bool-cases (t.task_id == k)) [
        | inl same ↦ let eq : t.task_id ≡ k = ground arith in rw (← eq) mine
        | inr other ↦ h k (ground arith)
      ])
]

pass-least :
    (g : List ℕ) (ts : List PlannedTask) (s : Blocked)
    → IsClosed ts g
    → IsWithin s.failed g
    → IsWithin (block_pass ts s).failed g
unfolding block_pass
pass-least g [] s closed h = h
pass-least g (t ∷ ts) s closed h =
    pass-least g ts (block_one t s) closed.1 (step-least g t s closed.0 h)

step-grows : (t : PlannedTask) (s : Blocked) → IsWithin s.failed (block_one t s).failed
unfolding block_one contains_id
step-grows t s k e = ground arith

pass-grows : (ts : List PlannedTask) (s : Blocked) → IsWithin s.failed (block_pass ts s).failed
unfolding block_pass
pass-grows [] s k e = e
pass-grows (t ∷ ts) s k e = pass-grows ts (block_one t s) k (step-grows t s k e)

pass-changed :
    (ts : List PlannedTask) (s : Blocked) → s.changed ≡ true → (block_pass ts s).changed ≡ true
unfolding block_pass block_one
pass-changed [] s e = e
pass-changed (t ∷ ts) s e = pass-changed ts (block_one t s) (ground arith)

-- a pass without a change has found the set closed
pass-IsClosed :
    (ts : List PlannedTask) (s : Blocked)
    → (block_pass ts s).changed ≡ false
    → (block_pass ts s ≡ s) × IsClosed ts s.failed
unfolding block_pass
pass-IsClosed [] s e = (refl, tt)
pass-IsClosed (t ∷ ts) s e = elim (Bool-cases (is_behind s.failed t)) [
  | inl behind ↦
      let moved : (block_one t s).changed ≡ true = unfold block_one in ground arith in
      absurd (ground (arith, pass-changed ts (block_one t s) moved))
  | inr fine ↦
      let same : block_one t s ≡ s = unfold block_one in ground arith in
      let (still, closed) = pass-IsClosed ts (block_one t s) e in
      (still ∙ same, (fine, subst (λ (z : Blocked). IsClosed ts z.failed) same closed))
]

-- `e` is the end of the loop: closed, and the least closed set around the start
pub record IsLeast (tasks : List PlannedTask) (start : List ℕ) (e : Blocked) : Type 0 where
  pub around : IsWithin start e.failed
  pub closed : IsClosed tasks e.failed
  pub least : (g : List ℕ) → IsClosed tasks g → IsWithin start g → IsWithin e.failed g

loop-IsLeast :
    (n : ℕ) (tasks : List PlannedTask) (s e : Blocked)
    → block_loop n tasks s ≡ some e
    → IsLeast tasks s.failed e
unfolding block_loop
loop-IsLeast zero tasks s e ends = absurd (ground arith)
loop-IsLeast (suc n) tasks s e ends =
    let fresh : Blocked = record s { changed = false } in
    elim (Bool-cases (block_pass tasks fresh).changed) [
      | inr still ↦
          let (same, closed) = pass-IsClosed tasks fresh still in
          let end : e ≡ fresh = ground (arith, same) in
          let final : e.failed ≡ s.failed = ap (λ (z : Blocked). z.failed) end in
          record {
            around = λ k there. rw final there;
            closed = rw final closed;
            least = λ g shut h. rw final h;
          }
      | inl moved ↦
          let i = loop-IsLeast n tasks (block_pass tasks fresh) e (ground arith) in
          record {
            around = λ k there. i.around k (pass-grows tasks fresh k there);
            closed = i.closed;
            least = λ g shut h. i.least g shut (pass-least g tasks fresh shut h);
          }
    ]

-- The loop ends on its fuel, and the set that it ends with is the least one that holds the lost
-- tasks and every pending task that depends on one of its members.
pub block_dependents-IsLeast :
    (tasks : List PlannedTask) (table : List PlannedRow)
    → (e : Blocked) × (block_dependents tasks table ≡ some e) × IsLeast tasks (failed_ids tasks) e
unfolding block_dependents
block_dependents-IsLeast tasks table =
    let start : Blocked = record { table = table; failed = failed_ids tasks; changed = true } in
    let bound = count-le (still_open (failed_ids tasks)) tasks in
    let (e, ends) = loop-ends (suc (length tasks)) tasks start (ground (arith, bound)) in
    (e, ends, loop-IsLeast (suc (length tasks)) tasks start e ends)
