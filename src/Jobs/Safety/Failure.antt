-- ===== src/Jobs/Safety/Failure.antt =====
-- On `record_failure` and `fail` of core/jobs/repository.py and the invariant.
use galaxz.Prelude.{
  ℕ, ◌+◌, ◌≡◌, ◌≢◌, ◌<◌, false, refl, inl, inr, some, Bool-cases, Result-cases, ok, arith,
  if◌then◌else◌,
}
use galaxz.Contracts.Job.{JobStatus, status_eq, validate_job_transition, Moves}
use galaxz.Jobs.Store.{JobRow, Db, find_job, record_transition, get_existing_job}
use galaxz.Jobs.Backoff.{retry_delay}
use galaxz.Jobs.Lease.Live.{live_attempt_cases, live_attempt-IsLive}
use galaxz.Jobs.Failure.{
  Failure, should_retry, fail_attempt, release_row, failure_target, failure_row, failure_body,
  record_failure, fail,
}
use galaxz.Jobs.Invariant.Consistent.{IsConsistent, RowOk}
use galaxz.Jobs.Invariant.Release.{Ends, Leaves}
use galaxz.Jobs.Invariant.Advance.{IsSound, Along, unchanged, released}
use galaxz.Jobs.Safety.Post.{After, transaction-Post, with_job-Post}

fail_attempt-Ends : (f : Failure) (now : ℕ) → Ends (fail_attempt f now)
unfolding fail_attempt
fail_attempt-Ends f now = record {
  same_id = λ a. ground arith;
  same_token = λ a. ground arith;
  ended = λ a. ground arith;
}

-- a row that leaves `running` for `queued`, with attempts left, or for `failed`
release_row-Leaves :
    (target : JobStatus) (now available_at : ℕ) (r : JobRow)
    → RowOk r
    → r.status ≡ JobStatus.running
    → target ≢ JobStatus.running
    → target ≢ JobStatus.cancelled
    → (target ≡ JobStatus.queued → r.attempt_count < r.retry_policy.max_attempts)
    → Leaves (release_row target now available_at) r
unfolding release_row
release_row-Leaves target now available_at r h runs stops lives room = record {
  same_id = λ q. ground arith;
  good = rw runs (record {
    positive = h.positive;
    bounded = h.bounded;
    claimable = room;
    idle = λ e. refl;
    stamped = λ e. absurd (lives e);
    unstamped = λ e. h.unstamped (λ c. cc);
  });
  stopped = rw runs stops;
}

failure_target-allowed :
    (f : Failure) (r : JobRow)
    → (validate_job_transition JobStatus.running (failure_target f r) ≡ ok tt)
      × (failure_target f r ≢ JobStatus.running)
      × (failure_target f r ≢ JobStatus.cancelled)
      × (failure_target f r ≡ JobStatus.queued → r.attempt_count < r.retry_policy.max_attempts)
unfolding failure_target should_retry validate_job_transition
failure_target-allowed f r = (ground arith, λ e. ground arith, λ e. ground arith, λ e. ground arith)

failure-Along :
    (f : Failure) (r : JobRow) (now available_at : ℕ)
    → r.status ≡ JobStatus.running
    → Along r.status (release_row (failure_target f r) now available_at r).status
unfolding release_row failure_target
failure-Along f r now available_at runs = elim (Bool-cases (should_retry f r)) [
  | inl again ↦ simp (runs, again) (inr Moves.retry)
  | inr last ↦ simp (runs, last) (inr Moves.give_up)
]

module _ (f : Failure) (now : ℕ) (db : Db) (h : IsConsistent db) where
  row_keeps :
      (r : JobRow) → find_job f.job_id db ≡ some r → After (IsSound db) (failure_row f now db r)
  unfolding failure_row record_transition
  row_keeps r found = elim (Bool-cases (status_eq r.status JobStatus.running)) [
    | inr stopped ↦ rw stopped tt
    | inl runs ↦ elim (live_attempt_cases db f.job_id f.lease_token now) [
      | inr dead ↦ rw (runs, dead) tt
      | inl (a, live) ↦ elim (Result-cases (retry_delay r.retry_policy r.attempt_count)) [
        | inr (e, over) ↦ rw (runs, live, (failure_target-allowed f r).0, over) tt
        | inl (delay, within) ↦
            let (q, l) = live_attempt-IsLive db f.job_id f.lease_token now a live in
            let same : q ≡ r = cc (l.found) in
            let running : r.status ≡ JobStatus.running = ground arith in
            let (valid, stops, lives, room) = failure_target-allowed f r in
            rw (runs, live, valid, within)
              (released h f.job_id r found
                (release_row (failure_target f r) now
                  (if should_retry f r then now + delay else now))
                (release_row-Leaves (failure_target f r) now
                  (if should_retry f r then now + delay else now) r (h.row_ok f.job_id r found)
                  running stops lives room)
                (failure-Along f r now (if should_retry f r then now + delay else now) running)
                a.attempt_id (record { running = running; active = cc (l.active, same) })
                (fail_attempt f now) (fail_attempt-Ends f now))
      ]
    ]
  ]

  pub record_failure-IsSound : IsSound db (record_failure f now db).0
  unfolding record_failure failure_body
  record_failure-IsSound =
      transaction-Post (IsSound db) (failure_body f now) (λ _ db'. get_existing_job f.job_id db') db
        (unchanged h) (with_job-Post (IsSound db) f.job_id (failure_row f now db) db row_keeps)

pub fail-IsSound :
    (f : Failure) (now : ℕ) (db : Db) → IsConsistent db → IsSound db (fail f now db).0
unfolding fail
fail-IsSound f now db h = record_failure-IsSound (record f { retryable = false }) now db h
