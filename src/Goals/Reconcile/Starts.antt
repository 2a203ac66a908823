-- ===== src/Goals/Reconcile/Starts.antt =====
-- On `reconcile` of core/goals/coordinator.py: the moves of the tasks, and what is started.
use galaxz.Prelude.{
  ℕ, ◌≡◌, ◌≢◌, refl, sym, ap, ◌∙◌, Bool, true, false, Option, some, List, [], ◌∷◌, ok, inl, inr,
  Option-cases, arith, Bool-cases,
}
use galaxz.Prelude.Table.{find, IsKeyed, All, All-map}
use galaxz.Goals.Plan.{PlannedTask, PlannedRow, TaskStatus, row_key}
use galaxz.Goals.Control.{World}
use galaxz.Goals.Rows.{Moves}
use galaxz.Goals.Diagram.{TaskMove, TaskMove, TaskReaches, PlanOf, plan_of, Once}
use galaxz.Goals.Blocking.Changes.{Stopped}
use galaxz.Goals.Reconcile.Settle.Changes.{Settled}
use galaxz.Goals.Reconcile.Dispatch.{Limits, Draw, Texts, is_complete, all_complete}
use galaxz.Goals.Reconcile.Dispatch.Changes.{Sent}
use galaxz.Goals.Reconcile.Phases.{IsRead, Phases, reconcile-Phases}
use galaxz.Goals.Reconcile.{reconcile}

reaches_then : {s t u : TaskStatus} → TaskReaches s t → TaskReaches t u → TaskReaches s u
reaches_then TaskReaches.here r = r
reaches_then (TaskReaches.then m q) r = TaskReaches.then m (reaches_then q r)

abbrev pub is_settled : TaskStatus → Bool
is_settled TaskStatus.pending = false
is_settled TaskStatus.running = false
is_settled _ = true

settled_stays : {s t : TaskStatus} → is_settled s ≡ true → TaskReaches s t → t ≡ s
settled_stays over TaskReaches.here = refl
settled_stays over (TaskReaches.then TaskMove.start q) = cc
settled_stays over (TaskReaches.then TaskMove.refuse q) = cc
settled_stays over (TaskReaches.then TaskMove.block q) = cc
settled_stays over (TaskReaches.then TaskMove.reset q) = cc
settled_stays over (TaskReaches.then TaskMove.finish q) = cc
settled_stays over (TaskReaches.then TaskMove.fail q) = cc
settled_stays over (TaskReaches.then TaskMove.escalate q) = cc

-- a task that moved by the diagram, its plan unchanged
abbrev pub Followed : PlannedRow → PlannedRow → Type 0
Followed r r' = (plan_of r' ≡ plan_of r) × TaskReaches r.task.status r'.task.status

Followed-then : (r s t : PlannedRow) → Followed r s → Followed s t → Followed r t
Followed-then r s t f g = (g.0 ∙ f.0, reaches_then f.1 g.1)

Followed-Once :
    (from : TaskStatus) (Extra : PlannedRow → PlannedRow → Type 0) (r r' : PlannedRow)
    → Once from Extra r r'
    → Followed r r'
Followed-Once from Extra r r' (inl e) = rw e (refl, TaskReaches.here)
Followed-Once from Extra r r' (inr turn) =
    (turn.plan, rw turn.was (TaskReaches.then turn.moved TaskReaches.here))

-- a task that is complete stays so in a loop about another status
stays_complete :
    (from : TaskStatus) (Extra : PlannedRow → PlannedRow → Type 0) (r r' : PlannedRow)
    → from ≢ TaskStatus.complete
    → r.task.status ≡ TaskStatus.complete
    → Once from Extra r r'
    → r'.task.status ≡ TaskStatus.complete
stays_complete from Extra r r' other done (inl e) = ap (λ (z : PlannedRow). z.task.status) e ∙ done
stays_complete from Extra r r' other done (inr turn) = absurd (other (sym turn.was ∙ done))

-- the row of a dependency is complete
abbrev pub IsDone : List PlannedRow → ℕ → Type 0
IsDone rows k =
    (q : PlannedRow) × (find row_key k rows ≡ some q) × (q.task.status ≡ TaskStatus.complete)

complete_of : (s : TaskStatus) → is_complete s ≡ true → s ≡ TaskStatus.complete
complete_of TaskStatus.complete h = refl
complete_of TaskStatus.pending h = cc
complete_of _ h = cc

all_done :
    (deps : ℕ → Option PlannedTask) (rows : List PlannedRow) (ds : List ℕ)
    → IsRead deps rows
    → all_complete ds deps ≡ ok true
    → All (λ k. IsDone rows k) ds
unfolding all_complete
all_done deps rows [] read h = tt
all_done deps rows (k ∷ ds) read h = elim (Option-cases (deps k)) [
  | inl absent ↦ absurd (ground arith)
  | inr (t, there) ↦ elim (Bool-cases (is_complete t.status)) [
    | inr short ↦ absurd (ground arith)
    | inl done ↦
        let (q, found, same) = read k t there in
        (
          (q, found, ap (λ (z : PlannedTask). z.status) same ∙ complete_of t.status done),
          all_done deps rows ds read (ground arith),
        )
  ]
]

carried :
    (from : TaskStatus) (Extra : PlannedRow → PlannedRow → Type 0) (rows rows' : List PlannedRow)
    (k : ℕ)
    → from ≢ TaskStatus.complete
    → Moves (Once from Extra) rows rows'
    → IsDone rows k
    → IsDone rows' k
carried from Extra rows rows' k other moves (q, there, done) =
    let (q', there', once) = moves.0 k q there in
    (q', there', stays_complete from Extra q q' other done once)

-- A task that runs now and did not run before has its dependencies complete, and a job.
abbrev pub IsStarted : List PlannedRow → PlannedRow → PlannedRow → Type 0
IsStarted rows' r r' =
    r.task.status ≢ TaskStatus.running
    → r'.task.status ≡ TaskStatus.running
    → All (λ k. IsDone rows' k) r.task.depends_on × (job : ℕ) × (r'.job_id ≡ some job)

pending_not_complete : TaskStatus.pending ≢ TaskStatus.complete
pending_not_complete e = cc

module _ (limit id : ℕ) (rows rows' : List PlannedRow) (p : Phases limit id rows rows') where
  -- only the last loop starts a task that did not run
  sent_last :
      (r a b : PlannedRow)
      → r.task.status ≢ TaskStatus.running
      → Settled r a
      → Stopped a b
      → (b.task.status ≢ TaskStatus.running) × (plan_of b ≡ plan_of r)
  sent_last r a b idle s q = (
    not_running a b (settled_idle r a idle s) q,
    (Followed-Once TaskStatus.pending _ a b q).0 ∙ (Followed-Once TaskStatus.running _ r a s).0,
  )
    where
      settled_idle :
          (r a : PlannedRow)
          → r.task.status ≢ TaskStatus.running
          → Settled r a
          → a.task.status ≢ TaskStatus.running
      settled_idle r a idle (inl e) runs =
          idle (sym (ap (λ (z : PlannedRow). z.task.status) e) ∙ runs)
      settled_idle r a idle (inr turn) runs = idle turn.was

      not_running :
          (a b : PlannedRow)
          → a.task.status ≢ TaskStatus.running
          → Stopped a b
          → b.task.status ≢ TaskStatus.running
      not_running a b idle (inl e) runs =
          idle (sym (ap (λ (z : PlannedRow). z.task.status) e) ∙ runs)
      not_running a b idle (inr turn) runs = cc (turn.extra, runs)

  started :
      (r b c : PlannedRow)
      → (b.task.status ≢ TaskStatus.running) × (plan_of b ≡ plan_of r)
      → Sent p.deps b c
      → IsStarted rows' r c
  started r b c (idle, plan) (inl e) new runs =
      absurd (idle (sym (ap (λ (z : PlannedRow). z.task.status) e) ∙ runs))
  started r b c (idle, plan) (inr turn) new runs =
      let (clear, job, placed) = turn.extra runs in
      let ds = ap (λ (z : PlanOf). z.depends_on) plan in
      (
        All-map _ (λ k. IsDone rows' k) r.task.depends_on
            (λ k done.
              carried TaskStatus.pending _ p.second rows' k pending_not_complete p.sent (
                carried TaskStatus.pending _ p.first p.second k pending_not_complete p.stopped
                  done))
            (rw (← ds) (all_done p.deps p.first b.task.depends_on p.read clear)),
        job,
        placed,
      )

  Followed-all : (r a b c : PlannedRow) → Settled r a → Stopped a b → Sent p.deps b c → Followed r c
  Followed-all r a b c s q e = Followed-then r a c (Followed-Once TaskStatus.running _ r a s) (
      Followed-then a b c (Followed-Once TaskStatus.pending _ a b q)
        (Followed-Once TaskStatus.pending _ b c e))

  phases_move :
      (k : ℕ) (r : PlannedRow)
      → find row_key k rows ≡ some r
      → (r' : PlannedRow) × (find row_key k rows' ≡ some r') × Followed r r' × IsStarted rows' r r'
  phases_move k r there =
      let (a, there_a, s) = p.settled.0 k r there in
      let (b, there_b, q) = p.stopped.0 k a there_a in
      let (c, there_c, e) = p.sent.0 k b there_b in
      (
        c,
        there_c,
        Followed-all r a b c s q e,
        λ idle runs. started r b c (sent_last r a b idle s q) e idle runs,
      )

-- Where tasks have identifiers of their own: a reconciliation, also one that raises, keeps every task
-- with what was planned of it, and moves its status along the diagram, so a task that is complete,
-- failed, escalated, blocked or cancelled stays so; a task that it starts has a job, and every task
-- that it depends on is complete.
pub reconcile-starts :
    (x : Texts) (l : Limits) (d : Draw) (id : ℕ) (w : World) (k : ℕ) (r : PlannedRow)
    → IsKeyed row_key w.store.rows
    → find row_key k w.store.rows ≡ some r
    → (r' : PlannedRow) × (find row_key k (reconcile x l d id w).0.store.rows ≡ some r')
      × (plan_of r' ≡ plan_of r)
      × TaskReaches r.task.status r'.task.status
      × (is_settled r.task.status ≡ true → r'.task.status ≡ r.task.status)
      × (r.task.status ≢ TaskStatus.running
          → r'.task.status ≡ TaskStatus.running
          → All (λ j. IsDone (reconcile x l d id w).0.store.rows j) r.task.depends_on
            × (job : ℕ) × (r'.job_id ≡ some job))
reconcile-starts x l d id w k r keyed there =
    let (c, there_c, follows, starts) =
      phases_move l.per_goal id w.store.rows _ (reconcile-Phases x l d id w keyed) k r there in
    (c, there_c, follows.0, follows.1, (λ over. settled_stays over follows.1), starts)
