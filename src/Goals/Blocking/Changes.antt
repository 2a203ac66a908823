-- ===== src/Goals/Blocking/Changes.antt =====
-- On the blocking loop of `reconcile` (core/goals/coordinator.py): the rows that it changes.
use galaxz.Prelude.{
  ℕ, zero, suc, ◌≡◌, ◌≢◌, refl, ap, ◌∙◌, true, false, some, List, [], ◌∷◌, inl, inr, Bool-cases,
  arith, length,
}
use galaxz.Prelude.Table.{All, All-map}
use galaxz.Goals.Plan.{PlannedTask, PlannedRow, TaskStatus, is_pending, set_blocked}
use galaxz.Goals.Rows.{Moves, Shows, Moves-same, Moves-then}
use galaxz.Goals.Diagram.{TaskMove, Once, Once-IsPreorder, Effect, Effect-update}
use galaxz.Goals.Blocking.{
  Blocked, contains_id, is_behind, failed_ids, block_one, block_pass, block_loop, block_dependents,
}

abbrev pub IsBlocked : PlannedRow → PlannedRow → Type 0
IsBlocked r r' = r'.task.status ≡ TaskStatus.blocked

abbrev pub Stopped : PlannedRow → PlannedRow → Type 0
Stopped = Once TaskStatus.pending IsBlocked

-- a task outside the set is shown by its row
abbrev IsKnown : Blocked → PlannedTask → Type 0
IsKnown s t = contains_id s.failed t.task_id ≡ false → Shows s.table t

pending_of : (s : TaskStatus) → is_pending s ≡ true → s ≡ TaskStatus.pending
pending_of TaskStatus.pending h = refl
pending_of TaskStatus.running h = cc
pending_of _ h = cc

behind_pending :
    (failed : List ℕ) (t : PlannedTask) → is_behind failed t ≡ true → t.status ≡ TaskStatus.pending
unfolding is_behind
behind_pending failed t h = pending_of t.status (ground arith)

behind_outside :
    (failed : List ℕ) (t : PlannedTask)
    → is_behind failed t ≡ true
    → contains_id failed t.task_id ≡ false
unfolding is_behind
behind_outside failed t h = ground arith

outside :
    (j k : ℕ) (failed : List ℕ)
    → contains_id (j ∷ failed) k ≡ false
    → (j ≢ k) × (contains_id failed k ≡ false)
unfolding contains_id
outside j k failed h = (λ e. ground arith, ground arith)

record Turned (s s' : Blocked) : Type 0 where
  moves : Moves Stopped s.table s'.table
  known : (u : PlannedTask) → IsKnown s u → IsKnown s' u

pre : galaxz.Goals.Rows.IsPreorder Stopped
pre = Once-IsPreorder TaskStatus.pending IsBlocked

block_one-Turned : (t : PlannedTask) (s : Blocked) → IsKnown s t → Turned s (block_one t s)
unfolding block_one set_blocked
block_one-Turned t s known = elim (Bool-cases (is_behind s.failed t)) [
  | inr ahead ↦
      rw (ahead, block_one) (record { moves = Moves-same Stopped pre s.table; known = λ u h. h })
  | inl behind ↦
      let step : Effect TaskStatus.pending IsBlocked t s.table _ =
        Effect-update TaskStatus.pending IsBlocked t set_blocked s.table (λ r. refl)
          (known (behind_outside s.failed t behind))
          (λ r same. record {
            was = ap (λ (z : PlannedTask). z.status) same ∙ behind_pending s.failed t behind;
            moved = TaskMove.block;
            plan = refl;
            extra = refl;
          }) in
      rw (behind, block_one)
        (record {
          moves = step.moves;
          known = λ u h out.
              step.shows u (outside t.task_id u.task_id s.failed out).0
                (h (outside t.task_id u.task_id s.failed out).1);
        })
]

Turned-same : (s s' : Blocked) → s.table ≡ s'.table → s.failed ≡ s'.failed → Turned s s'
Turned-same s s' same_table same_failed = record {
  moves = rw (← same_table) (Moves-same Stopped pre s.table);
  known = λ u h out. rw (← same_table) (h (rw same_failed out));
}

Turned-then : (s t u : Blocked) → Turned s t → Turned t u → Turned s u
Turned-then s t u f g = record {
  moves = Moves-then Stopped pre s.table t.table u.table f.moves g.moves;
  known = λ v h. g.known v (f.known v h);
}

block_pass-Turned :
    (ts : List PlannedTask) (s : Blocked) → All (λ t. IsKnown s t) ts → Turned s (block_pass ts s)
unfolding block_pass
block_pass-Turned [] s known = Turned-same s s refl refl
block_pass-Turned (t ∷ ts) s known =
    let one = block_one-Turned t s known.0 in
    Turned-then s (block_one t s) _ one (
      block_pass-Turned ts (block_one t s)
        (All-map _ (λ u. IsKnown (block_one t s) u) ts one.known known.1))

loop-Turned :
    (n : ℕ) (ts : List PlannedTask) (s e : Blocked)
    → All (λ t. IsKnown s t) ts
    → block_loop n ts s ≡ some e
    → Turned s e
unfolding block_loop
loop-Turned zero ts s e known done = absurd (ground arith)
loop-Turned (suc n) ts s e known done =
    let fresh : Blocked = record s { changed = false } in
    let next = block_pass ts fresh in
    let pass =
      Turned-then s fresh next (Turned-same s fresh refl refl) (block_pass-Turned ts fresh known) in
    elim (Bool-cases next.changed) [
      | inl again ↦ Turned-then s next e pass (
          loop-Turned n ts next e (All-map _ (λ u. IsKnown next u) ts pass.known known)
            (ground arith))
      | inr last ↦ let same : next ≡ e = ground arith in rw (← same) pass
    ]

pub block_dependents-Stopped :
    (tasks : List PlannedTask) (table : List PlannedRow) (e : Blocked)
    → All (λ t. Shows table t) tasks
    → block_dependents tasks table ≡ some e
    → Moves Stopped table e.table
unfolding block_dependents
block_dependents-Stopped tasks table e shows done =
    (loop-Turned (suc (length tasks)) tasks
      (record { table = table; failed = failed_ids tasks; changed = true }) e
      (All-map _ _ tasks (λ t h out. h) shows) done).moves
