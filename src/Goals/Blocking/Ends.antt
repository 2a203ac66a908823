-- ===== src/Goals/Blocking/Ends.antt =====
-- On `_block_dependents` (core/goals/coordinator.py): the number of its passes.
use galaxz.Prelude.{
  ℕ, zero, suc, ◌≤◌, ◌<◌, ◌≡◌, refl, inl, inr, Bool, true, false, not, ◌&&◌, some, List, [], ◌∷◌,
  length, Bool-cases, arith, get_elem?,
}
use galaxz.Prelude.Table.Count.{count}
use galaxz.Goals.Plan.{PlannedTask, is_pending}
use galaxz.Goals.Blocking.{contains_id, is_behind, Blocked, block_one, block_pass, block_loop}

-- the tasks that the loop may still block
unfoldable pub still_open : List ℕ → PlannedTask → Bool
still_open failed t = is_pending t.status && not (contains_id failed t.task_id)

fewer :
    (failed : List ℕ) (k : ℕ) (ts : List PlannedTask)
    → count (still_open (k ∷ failed)) ts ≤ count (still_open failed) ts
unfolding count still_open contains_id
fewer failed k [] = ground arith
fewer failed k (t ∷ ts) = ground (arith, fewer failed k ts)

fewer_by_one :
    (failed : List ℕ) (ts : List PlannedTask) (i : ℕ) (t : PlannedTask)
    → get_elem? ts i ≡ some t
    → is_behind failed t ≡ true
    → count (still_open (t.task_id ∷ failed)) ts < count (still_open failed) ts
unfolding count still_open contains_id is_behind
fewer_by_one failed [] i t at behind = absurd (ground arith)
fewer_by_one failed (u ∷ ts) zero t at behind =
    let same : u ≡ t = ground arith in rw same (ground (arith, fewer failed t.task_id ts))
fewer_by_one failed (u ∷ ts) (suc i) t at behind =
    ground (arith, fewer_by_one failed ts i t at behind)

pub count-le : (p : PlannedTask → Bool) (ts : List PlannedTask) → count p ts ≤ length ts
unfolding count
count-le p [] = ground arith
count-le p (t ∷ ts) = ground (arith, count-le p ts)

-- `ts` is a part of the tasks
IsPart : List PlannedTask → List PlannedTask → Type 0
IsPart ts tasks =
    (i : ℕ) (t : PlannedTask) → get_elem? ts i ≡ some t → (j : ℕ) × (get_elem? tasks j ≡ some t)

step-count :
    (tasks : List PlannedTask) (t : PlannedTask) (s : Blocked) (j : ℕ)
    → get_elem? tasks j ≡ some t
    → (count (still_open (block_one t s).failed) tasks ≤ count (still_open s.failed) tasks)
      × ((block_one t s).changed ≡ true
          → s.changed ≡ false
          → count (still_open (block_one t s).failed) tasks < count (still_open s.failed) tasks)
unfolding block_one
step-count tasks t s j at = elim (Bool-cases (is_behind s.failed t)) [
  | inr fine ↦ rw (fine, block_one) (ground arith, λ yes no. absurd (ground arith))
  | inl behind ↦
      let less = fewer_by_one s.failed tasks j t at behind in
      rw (behind, block_one) (ground (arith, less), λ yes no. less)
]

-- a pass that changes something leaves fewer tasks open, and no pass leaves more
pass-count :
    (tasks ts : List PlannedTask) (s : Blocked)
    → IsPart ts tasks
    → (count (still_open (block_pass ts s).failed) tasks ≤ count (still_open s.failed) tasks)
      × ((block_pass ts s).changed ≡ true
          → s.changed ≡ false
          → count (still_open (block_pass ts s).failed) tasks < count (still_open s.failed) tasks)
unfolding block_pass IsPart
pass-count tasks [] s part = (ground arith, λ yes no. absurd (ground arith))
pass-count tasks (t ∷ ts) s part =
    let (j, at) = part 0 t refl in
    let (le, lt) = step-count tasks t s j at in
    let (rest_le, rest_lt) =
      pass-count tasks ts (block_one t s) (λ i u there. part (suc i) u there) in
    (
      ground (arith, le, rest_le),
      λ yes no. elim (Bool-cases (block_one t s).changed) [
        | inl hit ↦ let less = lt hit no in ground (arith, less, rest_le)
        | inr miss ↦ let less = rest_lt yes miss in ground (arith, le, less)
      ],
    )

-- enough fuel ends the loop
pub loop-ends :
    (n : ℕ) (tasks : List PlannedTask) (s : Blocked)
    → count (still_open s.failed) tasks < n
    → (e : Blocked) × (block_loop n tasks s ≡ some e)
unfolding block_loop IsPart
loop-ends zero tasks s enough = absurd (ground arith)
loop-ends (suc n) tasks s enough =
    let (le, lt) =
      pass-count tasks tasks (record s { changed = false }) (λ i u there. (i, there)) in
    elim (Bool-cases (block_pass tasks (record s { changed = false })).changed) [
      | inr still ↦ (block_pass tasks (record s { changed = false }), simp (still) refl)
      | inl moved ↦
          let less = lt moved refl in
          let (e, ends) =
            loop-ends n tasks (block_pass tasks (record s { changed = false }))
              (ground (arith, less)) in
          (e, simp (moved) ends)
    ]
