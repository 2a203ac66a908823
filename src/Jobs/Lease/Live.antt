-- ===== src/Jobs/Lease/Live.antt =====
-- On the lease check of core/jobs/repository.py: the live lease as a predicate.
use galaxz.Prelude.{
  ℕ, ◌<◌, ◌≡◌, refl, none, some, Option, Option-cases, arith, inl, inr, ok, err, lease_conflict,
  ◌⊎◌, ap, ◌∙◌, sym, Bool-cases, leb,
}
use galaxz.Prelude.Table.{key-find}
use galaxz.Contracts.Job.{JobStatus, ExecutionAttempt}
use galaxz.Jobs.Store.{JobRow, Db, find_job, find_attempt}
use galaxz.Jobs.Lease.{active_attempt, live_attempt}

-- the lease `lease_token` on the job `job_id` is live at `now`, through the row `r` and attempt `a`
pub record IsLive (db : Db) (job_id lease_token now : ℕ) (r : JobRow) (a : ExecutionAttempt)
    : Type 0 where
  pub found : find_job job_id db ≡ some r
  pub running : r.status ≡ JobStatus.running
  pub active : r.active_attempt_id ≡ some a.attempt_id
  pub attempt : find_attempt a.attempt_id db ≡ some a
  pub token : a.lease_token ≡ lease_token
  pub unended : a.ended_at ≡ none
  pub in_time : now < a.lease_expires_at

module _ (db : Db) (job_id lease_token now : ℕ) where
  IsLive-of_row :
      (r : JobRow) (o : Option ℕ) (a : ExecutionAttempt)
      → find_job job_id db ≡ some r
      → r.active_attempt_id ≡ o
      → live_attempt job_id lease_token now db ≡ ok a
      → IsLive db job_id lease_token now r a
  unfolding live_attempt active_attempt
  IsLive-of_row r none a found active h = absurd (ground arith)
  IsLive-of_row r (some id) a found active h = elim (Option-cases (find_attempt id db)) [
    | inl missing ↦ absurd (ground arith)
    | inr (t, there) ↦
        let same : t ≡ a = ground arith in
        let key : a.attempt_id ≡ id =
          ap (λ (z : ExecutionAttempt). z.attempt_id) (sym same)
          ∙ key-find (λ (z : ExecutionAttempt). z.attempt_id) id db.attempts t there in
        record {
          found = found;
          running = ground arith;
          active = active ∙ ap some (sym key);
          attempt = ap (λ n. find_attempt n db) key ∙ there ∙ ap some same;
          token = ground arith;
          unended = ground arith;
          in_time = ground arith;
        }
  ]

  pub live_attempt-IsLive :
      (a : ExecutionAttempt)
      → live_attempt job_id lease_token now db ≡ ok a
      → (r : JobRow) × IsLive db job_id lease_token now r a
  live_attempt-IsLive a h = elim (Option-cases (find_job job_id db)) [
    | inl missing ↦ absurd (no_job missing h)
    | inr (r, found) ↦ (r, IsLive-of_row r r.active_attempt_id a found refl h)
  ]
    where
      no_job : find_job job_id db ≡ none → live_attempt job_id lease_token now db ≡ ok a → ⊥
      no_job missing e = unfold live_attempt active_attempt in ground arith

  pub IsLive-live_attempt :
      (r : JobRow) (a : ExecutionAttempt)
      → IsLive db job_id lease_token now r a
      → live_attempt job_id lease_token now db ≡ ok a
  unfolding live_attempt active_attempt
  IsLive-live_attempt r a l = ground (arith, l.found, l.attempt)

  -- the only answer but an attempt is a conflict
  pub live_attempt_cases :
      ((a : ExecutionAttempt) × (live_attempt job_id lease_token now db ≡ ok a))
      ⊎ (live_attempt job_id lease_token now db ≡ err lease_conflict)
  unfolding live_attempt
  live_attempt_cases = elim (Option-cases (active_attempt job_id lease_token db)) [
    | inl missing ↦ inr (rw missing)
    | inr (a, there) ↦ elim (Bool-cases (leb a.lease_expires_at now)) [
      | inl over ↦ inr (rw (there, over))
      | inr live ↦ inl (a, rw (there, live))
    ]
  ]
