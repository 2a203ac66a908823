-- ===== src/Jobs/Safety/Finish.antt =====
-- On `complete` of core/jobs/repository.py and the invariant.
use galaxz.Prelude.{
  ℕ, not, invalid_job_state, ◌≡◌, refl, inl, inr, some, none, Option, Bool-cases, Result-cases, ok,
  arith, String,
}
use galaxz.Contracts.Json.{Json}
use galaxz.Contracts.Job.{JobStatus, status_eq, validate_job_transition, Moves}
use galaxz.Jobs.Store.{
  JobRow, Db, find_job, find_output, update_attempt, record_transition, get_existing_job,
}
use galaxz.Jobs.Lease.Live.{live_attempt_cases, live_attempt-IsLive}
use galaxz.Jobs.Finish.{
  Completion, conflicts, is_repeat, end_attempt, complete_row, store_result, finish_running,
  finish_one, finish_body, complete,
}
use galaxz.Jobs.Invariant.Consistent.{IsConsistent, RowOk}
use galaxz.Jobs.Invariant.Release.{Ends, Leaves}
use galaxz.Jobs.Invariant.Advance.{IsSound, Along, unchanged, released}
use galaxz.Jobs.Safety.Post.{After, After-guard, transaction-Post, with_job-Post}

pub end_attempt-Ends : (ref : String) (now : ℕ) → Ends (end_attempt ref now)
unfolding end_attempt
end_attempt-Ends ref now = record {
  same_id = λ a. ground arith;
  same_token = λ a. ground arith;
  ended = λ a. ground arith;
}

complete_row-Leaves :
    (now : ℕ) (r : JobRow) → RowOk r → r.status ≡ JobStatus.running → Leaves (complete_row now) r
unfolding complete_row
complete_row-Leaves now r h runs = record {
  same_id = λ q. ground arith;
  good = rw runs (record {
    positive = h.positive;
    bounded = h.bounded;
    claimable = λ e. cc;
    idle = λ e. refl;
    stamped = λ e. cc;
    unstamped = λ e. h.unstamped (λ c. cc);
  });
  stopped = rw runs (λ e. cc);
}

complete_row-Along : (now : ℕ) (r : JobRow) → Along r.status (complete_row now r).status
unfolding complete_row
complete_row-Along now r = elim (Bool-cases (status_eq r.status JobStatus.running)) [
  | inl runs ↦
      let running : r.status ≡ JobStatus.running = ground arith in
      rw (runs, running) (inr Moves.finish)
  | inr idle ↦ inl (rw idle refl)
]

pub running_completes : validate_job_transition JobStatus.running JobStatus.completed ≡ ok tt
unfolding validate_job_transition
running_completes = refl

-- a stored result leaves the two tables alone
pub store_result-same :
    (job_id attempt_id now : ℕ) (o : Option Json) (db d : Db)
    → store_result job_id attempt_id now o db ≡ ok d
    → (d.jobs ≡ db.jobs) × (d.attempts ≡ db.attempts)
unfolding store_result
store_result-same job_id attempt_id now none db d e = (ground arith, ground arith)
store_result-same job_id attempt_id now (some result) db d e = (ground arith, ground arith)

module _ (c : Completion) (now : ℕ) (db : Db) (h : IsConsistent db) where
  running_keeps :
      (r : JobRow) → find_job c.job_id db ≡ some r → After (IsSound db) (finish_running c now db r)
  unfolding finish_running record_transition
  running_keeps r found = elim (Bool-cases (status_eq r.status JobStatus.running)) [
    | inr stopped ↦ rw stopped tt
    | inl runs ↦
        let running : r.status ≡ JobStatus.running = ground arith in
        elim (live_attempt_cases db c.job_id c.lease_token now) [
          | inr dead ↦ rw (runs, dead) tt
          | inl (a, live) ↦
              let ended : Db = update_attempt a.attempt_id (end_attempt c.output_ref now) db in
              elim (Result-cases (store_result c.job_id a.attempt_id now c.result ended)) [
                | inr (e, failed) ↦ rw (runs, live, running, running_completes, failed) tt
                | inl (d, stored) ↦
                    let (q, l) = live_attempt-IsLive db c.job_id c.lease_token now a live in
                    let same : q ≡ r = cc (l.found) in
                    let (rows, tries) =
                      store_result-same c.job_id a.attempt_id now c.result ended d stored in
                    rw (runs, live, running, running_completes, stored)
                      (rw (rows, tries)
                        (released h c.job_id r found (complete_row now)
                          (complete_row-Leaves now r (h.row_ok c.job_id r found) running)
                          (complete_row-Along now r) a.attempt_id
                          (record { running = running; active = cc (l.active, same) })
                          (end_attempt c.output_ref now) (end_attempt-Ends c.output_ref now)))
              ]
        ]
  ]

  one_keeps :
      (r : JobRow) → find_job c.job_id db ≡ some r → After (IsSound db) (finish_one c now db r)
  unfolding finish_one
  one_keeps r found = elim (Bool-cases (is_repeat c r db)) [
    | inl again ↦ rw again (
        After-guard (IsSound db) (not (conflicts (find_output c.job_id db) c.result))
          invalid_job_state db (unchanged h))
    | inr new ↦ rw new (running_keeps r found)
  ]

  pub complete-IsSound : IsSound db (complete c now db).0
  unfolding complete finish_body
  complete-IsSound =
      transaction-Post (IsSound db) (finish_body c now) (λ _ db'. get_existing_job c.job_id db') db
        (unchanged h) (with_job-Post (IsSound db) c.job_id (finish_one c now db) db one_keeps)
