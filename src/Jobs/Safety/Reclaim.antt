-- ===== src/Jobs/Safety/Reclaim.antt =====
-- On `reclaim_expired` of core/jobs/repository.py and the invariant.
pub mod Sweep
use galaxz.Prelude.{
  ℕ, List, ◌+◌, ◌≡◌, ◌≢◌, refl, sym, ◌∙◌, ap, true, inl, inr, some, none, Option, Result-cases, ok,
  arith, if◌then◌else◌,
}
use galaxz.Prelude.Table.{find, modify, find-modify_ne, find-modify_cases, find-modify_hit}
use galaxz.Contracts.Job.{JobStatus, AttemptOutcome, ExecutionAttempt, validate_job_transition}
use galaxz.Jobs.Store.{JobRow, Db, find_job, find_attempt, record_transition}
use galaxz.Jobs.Backoff.{retry_delay}
use galaxz.Jobs.Cancel.{stop_attempt, stop_active}
use galaxz.Jobs.Reclaim.{lease_expired, is_last, reclaim_target, reclaim_row, reclaim_one}
use galaxz.Jobs.Invariant.Consistent.{
  IsConsistent, RowOk, IsHeldBy, IsOpen, job_key, attempt_key, held_apart,
}
use galaxz.Jobs.Invariant.Release.{Leaves, release}
use galaxz.Jobs.Safety.Post.{After}
use galaxz.Jobs.Safety.Cancel.{stop_attempt-Ends}

-- the row that the loop writes for `r`
unfoldable pub written_row : ℕ → JobRow → ℕ → JobRow → JobRow
written_row now r delay =
    reclaim_row (reclaim_target r) now (if is_last r then now else now + delay)

reclaim_row-Leaves :
    (now delay : ℕ) (r : JobRow)
    → RowOk r
    → r.status ≡ JobStatus.running
    → Leaves (written_row now r delay) r
unfolding written_row reclaim_row reclaim_target is_last
reclaim_row-Leaves now delay r h runs = record {
  same_id = λ q. refl;
  good = record {
    positive = h.positive;
    bounded = h.bounded;
    claimable = λ e. ground arith;
    idle = λ e. refl;
    stamped = λ e. ground arith;
    unstamped = λ e. h.unstamped (λ c. cc);
  };
  stopped = λ e. ground arith;
}

pub target-allowed :
    (r : JobRow) → validate_job_transition JobStatus.running (reclaim_target r) ≡ ok tt
unfolding reclaim_target validate_job_transition
target-allowed r = ground arith

-- what one round of the loop does to the tables
pub record Reclaimed (now : ℕ) (r : JobRow) (db d : Db) : Type 0 where
  pub consistent : IsConsistent d
  pub others : (k : ℕ) (q : JobRow) → r.job_id ≢ k → find_job k db ≡ some q → find_job k d ≡ some q
  pub still_over :
      (k : ℕ) (q : JobRow)
      → find_job k d ≡ some q
      → lease_expired now d q ≡ true
      → (r.job_id ≢ k) × (find_job k db ≡ some q) × (lease_expired now db q ≡ true)
  pub mine :
      (delay : ℕ) × (retry_delay r.retry_policy r.attempt_count ≡ ok delay)
      × (find_job r.job_id d ≡ some (written_row now r delay r))

pub expired_running :
    (now : ℕ) (d : Db) (q : JobRow) → lease_expired now d q ≡ true → q.status ≡ JobStatus.running
unfolding lease_expired
expired_running now d q h = ground arith

-- the query reads of the attempts only the one that the row names
lease_expired-same :
    (now : ℕ) (db d : Db) (q : JobRow) (o : Option ℕ)
    → q.active_attempt_id ≡ o
    → ((b : ℕ) → o ≡ some b → find_attempt b d ≡ find_attempt b db)
    → lease_expired now d q ≡ true
    → lease_expired now db q ≡ true
unfolding lease_expired
lease_expired-same now db d q none active same h = ground arith
lease_expired-same now db d q (some b) active same h = ground (arith, same b refl)

module _ (now : ℕ) (r : JobRow) (db : Db) (h : IsConsistent db)
    (found : find_job r.job_id db ≡ some r) (runs : r.status ≡ JobStatus.running) where
  module _ (a : ℕ) (t : ExecutionAttempt) (o : IsOpen db.attempts r a t) (delay : ℕ) where
    abbrev new_rows : List JobRow
    new_rows = modify job_key r.job_id (written_row now r delay) db.jobs

    abbrev new_tries : List ExecutionAttempt
    new_tries = modify attempt_key a (stop_attempt AttemptOutcome.lease_expired now) db.attempts

    leaves : Leaves (written_row now r delay) r
    leaves = reclaim_row-Leaves now delay r (h.row_ok r.job_id r found) runs

    held : IsHeldBy r a
    held = record { running = runs; active = o.active }

    -- a lease that is over after the round was over before it, on another job
    over_before :
        (d : Db)
        → d.jobs ≡ new_rows
        → d.attempts ≡ new_tries
        → (k : ℕ) (q : JobRow) → find_job k d ≡ some q
        → lease_expired now d q ≡ true
        → (r.job_id ≢ k) × (find_job k db ≡ some q) × (lease_expired now db q ≡ true)
    over_before d rows tries k q there over =
        elim (find-modify_cases job_key (written_row now r delay) leaves.same_id r.job_id k db.jobs
          q (ap (λ l. find job_key k l) (sym rows) ∙ there)) [
            | inl (same, p, old, eq) ↦
                let one : p ≡ r = cc in
                absurd (
                  leaves.stopped (
                    ap (λ z. (written_row now r delay z).status) (sym one)
                    ∙ ap (λ (z : JobRow). z.status) (sym eq)
                    ∙ expired_running now d q over))
            | inr (other, old) ↦ (
              other,
              old,
              lease_expired-same now db d q q.active_attempt_id refl
                  (λ b active.
                    ap (find attempt_key b) tries
                    ∙ find-modify_ne attempt_key (stop_attempt AttemptOutcome.lease_expired now)
                        (stop_attempt-Ends AttemptOutcome.lease_expired now).same_id a b db.attempts
                        (held_apart h r.job_id k r q a b found old held
                          (record { running = expired_running now d q over; active = active })
                          other))
                  over,
            )
          ]

    facts :
        (d : Db)
        → retry_delay r.retry_policy r.attempt_count ≡ ok delay
        → d.jobs ≡ new_rows
        → d.attempts ≡ new_tries
        → Reclaimed now r db d
    facts d within rows tries = record {
      consistent =
          rw (rows, tries)
            (release h r.job_id r found (written_row now r delay) leaves a held
              (stop_attempt AttemptOutcome.lease_expired now)
              (stop_attempt-Ends AttemptOutcome.lease_expired now));
      others = λ k q other there. rw rows (
          find-modify_ne job_key (written_row now r delay) leaves.same_id r.job_id k db.jobs other
          ∙ there);
      still_over = over_before d rows tries;
      mine = (
        delay,
        within,
        rw rows (
            find-modify_hit job_key (written_row now r delay) leaves.same_id r.job_id db.jobs r
              found),
      );
    }

  round : After (Reclaimed now r db) (reclaim_one now r db)
  unfolding reclaim_one record_transition stop_active written_row
  round = elim (Result-cases (retry_delay r.retry_policy r.attempt_count)) [
    | inr (e, over) ↦ rw (target-allowed r, over) tt
    | inl (delay, within) ↦
        let (a, t, o) = h.linked r.job_id r found runs in
        rw (target-allowed r, within) (simp (o.active) (facts a t o delay _ within refl refl))
  ]
