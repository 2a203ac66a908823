-- ===== src/Jobs/Safety/Cancel.antt =====
-- On `cancel` of core/jobs/repository.py and the invariant.
use galaxz.Prelude.{ok, ℕ, ◌≡◌, refl, inl, inr, some, Bool-cases, Result-cases, arith}
use galaxz.Contracts.Job.{
  JobStatus, AttemptOutcome, status_eq, is_cancelled, validate_job_transition, accepted-Moves,
  Moves-open,
}
use galaxz.Jobs.Store.{JobRow, Db, find_job, record_transition, get_existing_job}
use galaxz.Jobs.Cancel.{stop_attempt, stop_active, cancel_row, cancel_one, cancel_body, cancel}
use galaxz.Jobs.Invariant.Consistent.{IsConsistent, RowOk}
use galaxz.Jobs.Invariant.Release.{Ends, Leaves}
use galaxz.Jobs.Invariant.Advance.{IsSound, Along, unchanged, released, changed}
use galaxz.Jobs.Safety.Post.{After, transaction-Post, with_job-Post}

pub stop_attempt-Ends : (o : AttemptOutcome) (now : ℕ) → Ends (stop_attempt o now)
unfolding stop_attempt
stop_attempt-Ends o now = record {
  same_id = λ a. ground arith;
  same_token = λ a. ground arith;
  ended = λ a. ground arith;
}

cancel_row-Leaves : (now : ℕ) (r : JobRow) → RowOk r → Leaves (cancel_row now) r
unfolding cancel_row
cancel_row-Leaves now r h = record {
  same_id = λ q. refl;
  good = record {
    positive = h.positive;
    bounded = h.bounded;
    claimable = λ e. cc;
    idle = λ e. refl;
    stamped = λ e. refl;
    unstamped = λ e. absurd (e refl);
  };
  stopped = λ e. cc;
}

cancel_row-Along :
    (now : ℕ) (r : JobRow) {u : Unit {0}}
    → validate_job_transition r.status JobStatus.cancelled ≡ ok u
    → Along r.status (cancel_row now r).status
unfolding cancel_row
cancel_row-Along now r h = inr (accepted-Moves r.status JobStatus.cancelled h)

module _ (job_id now : ℕ) (db : Db) (h : IsConsistent db) where
  one_keeps :
      (r : JobRow) → find_job job_id db ≡ some r → After (IsSound db) (cancel_one job_id now db r)
  unfolding cancel_one record_transition stop_active
  one_keeps r found = elim (Bool-cases (is_cancelled r.status)) [
    | inl already ↦ rw already (unchanged h)
    | inr live ↦ elim (Result-cases (validate_job_transition r.status JobStatus.cancelled)) [
      | inr (e, refused) ↦ rw (live, refused) tt
      | inl (u, allowed) ↦ elim (Bool-cases (status_eq r.status JobStatus.running)) [
        | inl runs ↦
            let running : r.status ≡ JobStatus.running = ground arith in
            let (a, t, o) = h.linked job_id r found running in
            rw (live, allowed, runs, o.active)
              (released h job_id r found (cancel_row now)
                (cancel_row-Leaves now r (h.row_ok job_id r found)) (cancel_row-Along now r allowed)
                a (record { running = running; active = o.active })
                (stop_attempt AttemptOutcome.cancelled now)
                (stop_attempt-Ends AttemptOutcome.cancelled now))
        | inr idle ↦
            rw (live, allowed, idle)
              (changed h job_id r found (cancel_row now) (λ e. ground arith)
                (Moves-open (accepted-Moves r.status JobStatus.cancelled allowed))
                (cancel_row-Leaves now r (h.row_ok job_id r found))
                (cancel_row-Along now r allowed))
      ]
    ]
  ]

  pub cancel-IsSound : IsSound db (cancel job_id now db).0
  unfolding cancel cancel_body
  cancel-IsSound =
      transaction-Post (IsSound db) (cancel_body job_id now) (λ _ db'. get_existing_job job_id db')
        db (unchanged h) (with_job-Post (IsSound db) job_id (cancel_one job_id now db) db one_keeps)
