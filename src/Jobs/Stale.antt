-- ===== src/Jobs/Stale.antt =====
-- On the calls of a worker whose lease is not live (core/jobs/repository.py).
use mathlib.Core.Path.{subst₂}
use galaxz.Prelude.{
  is_ok, ap, ◌∙◌, ℕ, ◌≡◌, refl, inl, inr, none, some, Bool-cases, Option-cases, err, ◌==◌,
  lease_conflict, false,
}
use galaxz.Contracts.Job.{JobStatus, ExecutionAttempt, status_eq}
use galaxz.Jobs.Store.{JobRow, Db, find_job, find_output, with_job, transaction}
use galaxz.Jobs.Lease.{live_attempt}
use galaxz.Jobs.Lease.Live.{IsLive, live_attempt_cases, live_attempt-IsLive}
use galaxz.Jobs.Heartbeat.{heartbeat_body, heartbeat}
use galaxz.Jobs.Finish.{
  Completion, is_repeat, finish_running, finish_one, finish_body, complete, conflicts,
}
use galaxz.Jobs.Failure.{Failure, failure_row, failure_body, record_failure}

-- no row and attempt make the lease live
abbrev pub IsStale : Db → ℕ → ℕ → ℕ → Type 0
IsStale db job_id lease_token now =
    (r : JobRow) (a : ExecutionAttempt) → ¬ IsLive db job_id lease_token now r a

stale_conflict :
    (db : Db) (job_id lease_token now : ℕ)
    → IsStale db job_id lease_token now
    → live_attempt job_id lease_token now db ≡ err lease_conflict
stale_conflict db job_id lease_token now stale =
    elim (live_attempt_cases db job_id lease_token now) [
      | inr dead ↦ dead
      | inl (a, live) ↦
          let (r, l) = live_attempt-IsLive db job_id lease_token now a live in absurd (stale r a l)
    ]

pub heartbeat_stale :
    (db : Db) (job_id lease_token lease now : ℕ)
    → IsStale db job_id lease_token now
    → ((heartbeat job_id lease_token lease now db).0 ≡ db)
      × (is_ok (heartbeat job_id lease_token lease now db).1 ≡ false)
unfolding heartbeat heartbeat_body transaction
heartbeat_stale db job_id lease_token lease now stale =
    let dead = stale_conflict db job_id lease_token now stale in
    elim (Bool-cases (lease == 0)) [ inl e ↦ rw e (refl, refl) | inr e ↦ rw (e, dead) (refl, refl) ]

pub failure_stale :
    (db : Db) (f : Failure) (now : ℕ)
    → IsStale db f.job_id f.lease_token now
    → ((record_failure f now db).0 ≡ db) × (is_ok (record_failure f now db).1 ≡ false)
unfolding record_failure failure_body with_job failure_row transaction
failure_stale db f now stale =
    let dead = stale_conflict db f.job_id f.lease_token now stale in
    elim (Option-cases (find_job f.job_id db)) [
      | inl missing ↦ rw missing (refl, refl)
      | inr (r, found) ↦ elim (Bool-cases (status_eq r.status JobStatus.running)) [
        | inl runs ↦ rw (found, runs, dead) (refl, refl)
        | inr idle ↦ rw (found, idle) (refl, refl)
      ]
    ]

pub complete_stale :
    (db : Db) (c : Completion) (now : ℕ)
    → IsStale db c.job_id c.lease_token now
    → ((complete c now db).0 ≡ db)
      × ((r : JobRow)
          → find_job c.job_id db ≡ some r
          → is_repeat c r db ≡ false
          → is_ok (complete c now db).1 ≡ false)
      × (find_job c.job_id db ≡ none → is_ok (complete c now db).1 ≡ false)
unfolding complete finish_body with_job finish_one finish_running transaction
complete_stale db c now stale =
    let dead = stale_conflict db c.job_id c.lease_token now stale in
    elim (Option-cases (find_job c.job_id db)) [
      | inl missing ↦ rw missing (refl, λ r there new. refl, λ gone. refl)
      | inr (r, found) ↦ elim (Bool-cases (is_repeat c r db)) [
        | inl again ↦ elim (Bool-cases (conflicts (find_output c.job_id db) c.result)) [
          | inl other ↦ rw (found, again, other) (refl, λ r there new. refl, λ gone. refl)
          | inr alike ↦ rw (found, again, alike) (refl, λ q there new. cc, λ gone. cc)
        ]
        | inr new ↦ elim (Bool-cases (status_eq r.status JobStatus.running)) [
          | inl runs ↦ rw (found, new, runs, dead) (refl, λ r there e. refl, λ gone. refl)
          | inr idle ↦ rw (found, new, idle) (refl, λ r there e. refl, λ gone. refl)
        ]
      ]
    ]

-- Without a live lease (the job is gone, is not running, runs under another attempt, the token is
-- another's, the attempt has ended or its time is over) no call of a worker changes a table:
-- `heartbeat` and `record_failure` raise, and so does `complete` unless it repeats a completion that
-- this token has already made.
pub stale_worker :
    (db : Db) (job_id lease_token lease now : ℕ) (c : Completion) (f : Failure)
    → IsStale db job_id lease_token now
    → c.job_id ≡ job_id
    → c.lease_token ≡ lease_token
    → f.job_id ≡ job_id
    → f.lease_token ≡ lease_token
    → ((heartbeat job_id lease_token lease now db).0 ≡ db)
      × (is_ok (heartbeat job_id lease_token lease now db).1 ≡ false)
      × ((record_failure f now db).0 ≡ db)
      × (is_ok (record_failure f now db).1 ≡ false)
      × ((complete c now db).0 ≡ db)
      × ((r : JobRow)
          → find_job job_id db ≡ some r
          → is_repeat c r db ≡ false
          → is_ok (complete c now db).1 ≡ false)
      × (find_job job_id db ≡ none → is_ok (complete c now db).1 ≡ false)
stale_worker db job_id lease_token lease now c f stale cj ct fj ft =
    let (beat, beat_fails) = heartbeat_stale db job_id lease_token lease now stale in
    let (kept, fails) =
      failure_stale db f now (λ r a l. stale r a (subst₂ (λ j t. IsLive db j t now r a) fj ft l)) in
    let (done, done_fails, gone_fails) =
      complete_stale db c now
        (λ r a l. stale r a (subst₂ (λ j t. IsLive db j t now r a) cj ct l)) in
    (
      beat,
      beat_fails,
      kept,
      fails,
      done,
      λ r found new. done_fails r (ap (λ j. find_job j db) cj ∙ found) new,
      λ gone. gone_fails (ap (λ j. find_job j db) cj ∙ gone),
    )
