-- ===== src/Jobs/Safety/Enqueue.antt =====
-- On `enqueue` of core/jobs/repository.py and the invariant.
use galaxz.Prelude.{
  [], ◌∷◌, ◌++◌, ℕ, ◌≤◌, ◌≡◌, ◌≢◌, refl, inl, inr, some, none, Option, Option-cases, Result-cases,
  ok, arith,
}
use galaxz.Contracts.Task.{TaskContract}
use galaxz.Contracts.Job.{JobStatus, Job, validate_job}
use galaxz.Jobs.Store.{Db, find_job, record_transition}
use galaxz.Jobs.Enqueue.{
  Request, policy_of, candidate, existing_job, new_row, insert_job, enqueue_body, enqueue, answer,
}
use galaxz.Jobs.Invariant.Consistent.{IsConsistent, RowOk}
use galaxz.Jobs.Invariant.Advance.{IsSound, unchanged, added}
use galaxz.Jobs.Safety.Post.{Post, transaction-Post}

-- what the validators leave of a new record
pub record IsNew (j : Job) : Type 0 where
  pub queued : j.status ≡ JobStatus.queued
  pub attempts : 1 ≤ j.retry_policy.max_attempts

candidate-IsNew :
    (q : Request) (now id : ℕ) (j : Job)
    → 1 ≤ (policy_of q).max_attempts
    → candidate q now id ≡ ok j
    → IsNew j
unfolding candidate validate_job
candidate-IsNew q now id j few h = record { queued = ground arith; attempts = ground arith }

new_row-RowOk : (j : Job) → IsNew j → RowOk (new_row j)
unfolding new_row
new_row-RowOk j n = record {
  positive = n.attempts;
  bounded = omega arith;
  claimable = λ e. n.attempts;
  idle = λ e. refl;
  stamped = λ e. cc (n.queued);
  unstamped = λ e. refl;
}

new_row-idle : (j : Job) → IsNew j → (new_row j).status ≢ JobStatus.running
unfolding new_row
new_row-idle j n e = cc (n.queued)

-- the insertions touch `jobs` by the new row alone
insert_job-rows :
    (j : Job) (task : Option TaskContract) (db d : Db)
    → insert_job j task db ≡ ok d
    → (find_job j.job_id db ≡ none)
      × (d.jobs ≡ db.jobs ++ new_row j ∷ [])
      × (d.attempts ≡ db.attempts)
unfolding insert_job record_transition
insert_job-rows j none db d h = (ground arith, ground arith, ground arith)
insert_job-rows j (some t) db d h = (ground arith, ground arith, ground arith)

module _ (q : Request) (now id : ℕ) (db : Db) (h : IsConsistent db)
    (few : 1 ≤ (policy_of q).max_attempts) where
  body_keeps : (j : Job) → IsNew j → Post (IsSound db) (enqueue_body j q.task db)
  unfolding enqueue_body
  body_keeps j n = elim (Option-cases (existing_job j.idempotency_key db)) [
    | inr (r, old) ↦ rw (old, enqueue_body) (unchanged h)
    | inl new ↦ elim (Result-cases (insert_job j q.task db)) [
      | inr (e, failed) ↦ rw (new, enqueue_body) (rw failed tt)
      | inl (d, done) ↦
          let (fresh, rows, tries) = insert_job-rows j q.task db d done in
          rw (new, enqueue_body)
            (rw done (
              rw (rows, tries)
                (added h (new_row j) (unfold new_row in fresh) (new_row-idle j n)
                  (new_row-RowOk j n))))
    ]
  ]

  pub enqueue-IsSound : IsSound db (enqueue q now id db).0
  unfolding enqueue
  enqueue-IsSound = elim (Result-cases (candidate q now id)) [
    | inr (e, refused) ↦ rw (refused, enqueue) (unchanged h)
    | inl (j, valid) ↦
        rw (valid, enqueue)
          (transaction-Post (IsSound db) (enqueue_body j q.task) (λ old _. answer j old) db
            (unchanged h) (body_keeps j (candidate-IsNew q now id j few valid)))
  ]
