-- ===== src/Jobs/Safety/Heartbeat.antt =====
-- On `heartbeat` of core/jobs/repository.py and the invariant.
use galaxz.Jobs.Lease.{live_attempt}
use galaxz.Prelude.{ℕ, ◌+◌, refl, inl, inr, ◌==◌, Bool-cases, ◌≡◌, some, ok, ap, ◌∙◌, sym}
use galaxz.Contracts.Job.{validate_attempt, ExecutionAttempt}
use galaxz.Jobs.Store.{Db, find_job, JobRow}
use galaxz.Jobs.Lease.Live.{live_attempt_cases, live_attempt-IsLive}
use galaxz.Jobs.Heartbeat.{extend_lease, touch_row, heartbeat_body, heartbeat}
use galaxz.Jobs.Invariant.Consistent.{IsConsistent}
use galaxz.Jobs.Invariant.Extend.{KeepsRow, KeepsAttempt}
use galaxz.Jobs.Invariant.Advance.{IsSound, unchanged, extended, IsUnfinished, running-IsUnfinished}
use galaxz.Jobs.Safety.Post.{Post, transaction-Post}

touch_row-KeepsRow : (now : ℕ) → KeepsRow (touch_row now)
unfolding touch_row
touch_row-KeepsRow now = record {
  same_id = λ q. refl;
  same_status = λ q. refl;
  same_active = λ q. refl;
  same_count = λ q. refl;
  good = λ q h. record {
    positive = h.positive;
    bounded = h.bounded;
    claimable = h.claimable;
    idle = h.idle;
    stamped = h.stamped;
    unstamped = h.unstamped;
  };
}

extend_lease-KeepsAttempt : (expiry : ℕ) → KeepsAttempt (extend_lease expiry)
unfolding extend_lease
extend_lease-KeepsAttempt expiry = record {
  same_id = λ t. refl;
  same_token = λ t. refl;
  same_job = λ t. refl;
  same_end = λ t. refl;
  same_outcome = λ t. refl;
  same_number = λ t. refl;
}

live-IsUnfinished :
    (db : Db) (job_id lease_token now : ℕ) (a : ExecutionAttempt)
    → live_attempt job_id lease_token now db ≡ ok a
    → (q : JobRow) → find_job job_id db ≡ some q
    → IsUnfinished q
live-IsUnfinished db job_id lease_token now a live q there =
    let (r, l) = live_attempt-IsLive db job_id lease_token now a live in
    let one : r ≡ q = cc (l.found, there) in
    running-IsUnfinished q (ap (λ (z : JobRow). z.status) (sym one) ∙ l.running)

module _ (job_id lease_token lease_seconds now : ℕ) (db : Db) where
  body_keeps :
      IsConsistent db → Post (IsSound db) (heartbeat_body job_id lease_token lease_seconds now db)
  unfolding heartbeat_body
  body_keeps h = elim (live_attempt_cases db job_id lease_token now) [
    | inl (a, live) ↦ rw live (
        extended h (touch_row now) (touch_row-KeepsRow now) (extend_lease (now + lease_seconds))
          (extend_lease-KeepsAttempt (now + lease_seconds)) job_id a.attempt_id
          (live-IsUnfinished db job_id lease_token now a live))
    | inr dead ↦ rw dead tt
  ]

  pub heartbeat-IsSound :
      IsConsistent db → IsSound db (heartbeat job_id lease_token lease_seconds now db).0
  unfolding heartbeat
  heartbeat-IsSound h = elim (Bool-cases (lease_seconds == 0)) [
    | inl empty ↦ rw empty (unchanged h)
    | inr some_time ↦ rw some_time (
        transaction-Post (IsSound db) (heartbeat_body job_id lease_token lease_seconds now)
          (λ a _. validate_attempt a) db (unchanged h) (body_keeps h))
  ]
