-- ===== src/Jobs/Failed.antt =====
-- What `record_failure` does when it returns.
use mathlib.Core.Path.{subst}
use galaxz.Prelude.{
  ℕ, ◌+◌, ◌≡◌, ◌≢◌, refl, ap, ◌∙◌, inl, inr, none, some, ok, Bool-cases, Result-cases, Option-cases,
  arith, if◌then◌else◌,
}
use galaxz.Prelude.Table.{find-modify_hit, find-modify_ne}
use galaxz.Contracts.Job.{
  Job, JobStatus, AttemptOutcome, ExecutionAttempt, status_eq, validate_job_transition,
}
use galaxz.Jobs.Store.{
  JobRow, Db, find_job, find_attempt, update_job, update_attempt, record_transition, with_job,
  get_existing_job,
}
use galaxz.Jobs.Lease.Live.{IsLive, live_attempt_cases, live_attempt-IsLive}
use galaxz.Jobs.Backoff.{retry_delay}
use galaxz.Jobs.Failure.{
  Failure, should_retry, fail_attempt, release_row, failure_target, failure_reason, failure_row,
  failure_body, record_failure,
}
use galaxz.Jobs.Invariant.Consistent.{job_key, attempt_key}
use galaxz.Jobs.Safety.Post.{transaction-ok}

-- `row` and `attempt` were the live lease, and are now failed or waiting
pub record IsFailed (f : Failure) (now : ℕ) (db d : Db) : Type 0 where
  pub row : JobRow
  pub attempt : ExecutionAttempt
  pub lease : IsLive db f.job_id f.lease_token now row attempt
  pub delay : ℕ
  pub delayed : retry_delay row.retry_policy row.attempt_count ≡ ok delay
  pub new_row : JobRow
  pub found : find_job f.job_id d ≡ some new_row
  pub status : new_row.status ≡ (if should_retry f row then JobStatus.queued else JobStatus.failed)
  pub available : new_row.available_at ≡ (if should_retry f row then now + delay else now)
  pub idle : new_row.active_attempt_id ≡ none
  pub same_count : new_row.attempt_count ≡ row.attempt_count
  pub new_attempt : ExecutionAttempt
  pub ended : find_attempt attempt.attempt_id d ≡ some new_attempt
  pub outcome : new_attempt.outcome ≡ some AttemptOutcome.failed
  pub code : new_attempt.error_code ≡ some f.error_code
  pub at : new_attempt.ended_at ≡ some now
  pub others : (k : ℕ) → f.job_id ≢ k → find_job k d ≡ find_job k db

target_valid :
    (f : Failure) (r : JobRow)
    → validate_job_transition JobStatus.running (failure_target f r) ≡ ok tt
unfolding failure_target validate_job_transition
target_valid f r = elim (Bool-cases (should_retry f r)) [
  | inl again ↦ rw again refl
  | inr last ↦ rw last refl
]

module _ (f : Failure) (now : ℕ) (db d : Db) where
  release_id : (t : JobStatus) (at : ℕ) (q : JobRow) → (release_row t now at q).job_id ≡ q.job_id
  unfolding release_row
  release_id t at q = ground arith

  fail_id : (a : ExecutionAttempt) → (fail_attempt f now a).attempt_id ≡ a.attempt_id
  unfolding fail_attempt
  fail_id a = ground arith

  IsFailed-row :
      (r : JobRow) (a : ExecutionAttempt) (delay : ℕ)
      → IsLive db f.job_id f.lease_token now r a
      → retry_delay r.retry_policy r.attempt_count ≡ ok delay
      → d
        ≡ record_transition f.job_id
            (some JobStatus.running)
            (failure_target f r)
            (failure_reason f r)
            now
            (update_job f.job_id
              (release_row (failure_target f r) now (if should_retry f r then now + delay else now))
              (update_attempt a.attempt_id (fail_attempt f now) db))
      → IsFailed f now db d
  unfolding record_transition release_row fail_attempt failure_target
  IsFailed-row r a delay l delayed after =
      let at : ℕ = if should_retry f r then now + delay else now in
      let step : JobRow → JobRow = release_row (failure_target f r) now at in
      record {
        row = r;
        attempt = a;
        lease = l;
        delay = delay;
        delayed = delayed;
        new_row = step r;
        found =
            ap (λ (z : Db). find_job f.job_id z) after
            ∙ find-modify_hit job_key step (release_id (failure_target f r) at) f.job_id db.jobs r
                l.found;
        status = ground (arith, l.running);
        available = ground (arith, l.running);
        idle = ground (arith, l.running);
        same_count = ground arith;
        new_attempt = fail_attempt f now a;
        ended =
            ap (λ (z : Db). find_attempt a.attempt_id z) after
            ∙ find-modify_hit attempt_key (fail_attempt f now) fail_id a.attempt_id db.attempts a
                l.attempt;
        outcome = ground (arith, l.unended);
        code = ground (arith, l.unended);
        at = ground (arith, l.unended);
        others = λ k other.
            ap (λ (z : Db). find_job k z) after
            ∙ find-modify_ne job_key step (release_id (failure_target f r) at) f.job_id k db.jobs
                other;
      }

  step-IsFailed :
      (r : JobRow)
      → find_job f.job_id db ≡ some r
      → failure_row f now db r ≡ ok d
      → IsFailed f now db d
  unfolding failure_row
  step-IsFailed r found e = elim (Bool-cases (status_eq r.status JobStatus.running)) [
    | inr stopped ↦ absurd (ground arith)
    | inl runs ↦ elim (live_attempt_cases db f.job_id f.lease_token now) [
      | inr dead ↦ absurd (ground arith)
      | inl (a, live) ↦ elim (Result-cases (retry_delay r.retry_policy r.attempt_count)) [
        | inr (x, beyond) ↦ absurd (ground (arith, target_valid f r))
        | inl (delay, delayed) ↦
            let (q, l) = live_attempt-IsLive db f.job_id f.lease_token now a live in
            let same : q ≡ r = cc (l.found, found) in
            IsFailed-row r a delay (subst (λ z. IsLive db f.job_id f.lease_token now z a) same l)
              delayed (ground (arith, target_valid f r))
      ]
    ]
  ]

  -- A failure report that returns a job was made under a live lease. The attempt has ended as failed with
  -- the reported code; the job is queued again after its delay if the report allows a retry, its code is
  -- one of the policy's and attempts are left, and has failed if not; and no other job has changed.
  pub record_failure-IsFailed :
      (j : Job) → record_failure f now db ≡ (d, ok j) → IsFailed f now db d
  unfolding record_failure failure_body with_job
  record_failure-IsFailed j e =
      let (u, body, answer) =
        transaction-ok (failure_body f now) (λ _ db'. get_existing_job f.job_id db') db d j e in
      elim (Option-cases (find_job f.job_id db)) [
        | inl missing ↦ absurd (ground arith)
        | inr (r, found) ↦ elim (Result-cases (failure_row f now db r)) [
          | inr (x, failed) ↦ absurd (ground arith)
          | inl (m, done) ↦
              let same : m ≡ d = ground arith in step-IsFailed r found (done ∙ ap ok same)
        ]
      ]
