-- ===== src/Jobs/Selection.antt =====
-- Which job `claim` takes, and what it does to it.
use galaxz.Prelude.{
  Result, value_error, false, sym, Option, Error, ◌>>=◌, ℕ, String, ◌≡◌, ◌≢◌, refl, ◌∙◌, Bool-cases,
  ap, List, [], ◌∷◌, inl, inr, some, none, Bool, true, ◌&&◌, ◌==◌, Option-cases, Result-cases, ok,
  err, arith,
}
use galaxz.Prelude.Table.{find, select, IsKeyed, find-modify_hit, find-modify_ne, find-append_new}
use galaxz.Contracts.Job.{Job, JobStatus, ExecutionAttempt, status_eq, validate_attempt}
use galaxz.Jobs.Store.{
  transaction, Reason, JobRow, Db, find_job, find_attempt, update_job, record_transition,
}
use galaxz.Jobs.Lease.{insert_attempt}
use galaxz.Jobs.Claim.{
  claim, claimed_job, Ids, claimable, next_job, start_row, new_attempt, updated_rows, start_job,
  claim_row, claim_body,
}
use galaxz.Jobs.Claim.Order.{IsFirst, first_row-IsFirst}
use galaxz.Jobs.Invariant.Consistent.{IsConsistent, job_key, attempt_key}
use galaxz.Jobs.Safety.Post.{transaction-ok}
use galaxz.Jobs.Safety.Claim.{
  next_job-found, IsFresh, new_attempt-IsFresh, insert_attempt-tries, queued_starts,
  start_row_same_id,
}

module _ (q : JobRow → Bool) (id : ℕ) where
  select_absent :
      (rows : List JobRow)
      → find job_key id rows ≡ none
      → select (λ (r : JobRow). r.job_id == id && q r) rows ≡ []
  unfolding find select
  select_absent [] h = refl
  select_absent (r ∷ rows) h = ground (arith, select_absent rows)

  select_one :
      (rows : List JobRow) (r : JobRow)
      → IsKeyed job_key rows
      → find job_key id rows ≡ some r
      → q r ≡ true
      → select (λ (r : JobRow). r.job_id == id && q r) rows ≡ r ∷ []
  unfolding find select
  select_one [] r d h passes = absurd (ground arith)
  select_one (p ∷ rows) r d h passes = ground (arith, select_one rows r d.1, select_absent rows)

-- the UPDATE of a claimable row changes one row
updated_one :
    (db : Db) (r : JobRow)
    → IsConsistent db
    → find_job r.job_id db ≡ some r
    → status_eq r.status JobStatus.queued ≡ true
    → updated_rows r.job_id db ≡ 1
unfolding updated_rows
updated_one db r h found waits =
    rw
      (select_one (λ p. status_eq p.status JobStatus.queued) r.job_id db.jobs r h.keyed found waits)

-- what a claim that returns a job has done
pub record IsClaimed (worker : String) (lease now : ℕ) (ids : Ids) (db d : Db)
    (a : ExecutionAttempt) : Type 0 where
  pub row : JobRow
  pub found : find_job row.job_id db ≡ some row
  pub ready : claimable now db row ≡ true
  pub first : IsFirst row (select (claimable now db) db.jobs)
  pub started : find_job row.job_id d ≡ some (start_row a.attempt_id now row)
  pub held : find_attempt a.attempt_id d ≡ some a
  pub fresh : IsFresh row ids a
  pub others : (k : ℕ) → row.job_id ≢ k → find_job k d ≡ find_job k db

module _ (worker : String) (lease now : ℕ) (ids : Ids) (db d : Db) (h : IsConsistent db) where
  unfold_idle : next_job now db ≡ none → claim_body worker lease now ids db ≡ ok (none, db)
  unfolding claim_body claim_row
  unfold_idle idle = rw idle

  pub unfold_refused :
      (r : JobRow) (x : Error)
      → next_job now db ≡ some r
      → validate_attempt (new_attempt r worker lease now ids) ≡ err x
      → claim_body worker lease now ids db ≡ err x
  unfolding claim_body claim_row
  unfold_refused r x next refused = rw (next, queued_starts, refused)

  pub unfold_started :
      (r : JobRow) (a : ExecutionAttempt)
      → next_job now db ≡ some r
      → validate_attempt (new_attempt r worker lease now ids) ≡ ok a
      → claim_body worker lease now ids db ≡ (do
        m ← insert_attempt a (update_job r.job_id (start_row a.attempt_id now) db)
        ok (
          some a,
          record_transition r.job_id (some JobStatus.queued) JobStatus.running Reason.claim now m,
        ))
  unfolding claim_body claim_row start_job claimable
  unfold_started r a next valid =
      let (found, passes) = next_job-found now db r h next in
      rw (next, queued_starts, valid, updated_one db r h found (ground arith))

  IsClaimed-row :
      (r : JobRow) (b : ExecutionAttempt) (m : Db)
      → next_job now db ≡ some r
      → validate_attempt (new_attempt r worker lease now ids) ≡ ok b
      → insert_attempt b (update_job r.job_id (start_row b.attempt_id now) db) ≡ ok m
      → (a : ExecutionAttempt) → a ≡ b
      → d.jobs ≡ m.jobs
      → d.attempts ≡ m.attempts
      → IsClaimed worker lease now ids db d a
  IsClaimed-row r b m next valid done a same rows tries =
      let (found, passes) = next_job-found now db r h next in
      let marked : Db = update_job r.job_id (start_row b.attempt_id now) db in
      let (fresh, m_rows, m_tries) = insert_attempt-tries b marked m done in
      rw same (record {
        row = r;
        found = found;
        ready = passes;
        first = first_row-IsFirst (select (claimable now db) db.jobs) r (unfold next_job in next);
        started =
            ap (find job_key r.job_id) (rows ∙ m_rows)
            ∙ find-modify_hit job_key (start_row b.attempt_id now)
                (start_row_same_id b.attempt_id now) r.job_id db.jobs r found;
        held =
            ap (find attempt_key b.attempt_id) (tries ∙ m_tries)
            ∙ find-append_new attempt_key db.attempts b fresh;
        fresh = new_attempt-IsFresh r worker lease now ids b valid;
        others = λ k other.
            ap (find job_key k) (rows ∙ m_rows)
            ∙ find-modify_ne job_key (start_row b.attempt_id now)
                (start_row_same_id b.attempt_id now) r.job_id k db.jobs other;
      })

  claim_body-IsClaimed :
      (a : ExecutionAttempt)
      → claim_body worker lease now ids db ≡ ok (some a, d)
      → IsClaimed worker lease now ids db d a
  unfolding next_job record_transition
  claim_body-IsClaimed a e = elim (Option-cases (next_job now db)) [
    | inl idle ↦ absurd (ground (arith, unfold_idle idle))
    | inr (r, next) ↦ elim (Result-cases (validate_attempt (new_attempt r worker lease now ids))) [
      | inr (x, refused) ↦ absurd (ground (arith, unfold_refused r x next refused))
      | inl (b, valid) ↦
          elim (Result-cases
            (insert_attempt b (update_job r.job_id (start_row b.attempt_id now) db))) [
              | inr (x, failed) ↦ absurd (ground (arith, unfold_started r b next valid))
              | inl (m, done) ↦
                  let same : a ≡ b = ground (arith, unfold_started r b next valid) in
                  let after : d
                      ≡ record_transition r.job_id (some JobStatus.queued) JobStatus.running
                          Reason.claim now m =
                    ground (arith, unfold_started r b next valid) in
                  IsClaimed-row r b m next valid done a same (ap (λ (z : Db). z.jobs) after)
                    (ap (λ (z : Db). z.attempts) after)
            ]
    ]
  ]

  pub claim_empty : (lease == 0) ≡ true → claim worker lease now ids db ≡ (db, err value_error)
  unfolding claim
  claim_empty e = rw e

  pub claim_timed :
      (lease == 0) ≡ false
      → claim worker lease now ids db ≡ transaction (claim_body worker lease now ids) claimed_job db
  unfolding claim
  claim_timed e = rw e

  claimed_same :
      (o : Option ExecutionAttempt) (j : Job) (a : ExecutionAttempt)
      → claimed_job o d ≡ ok (some (j, a))
      → o ≡ some a
  unfolding claimed_job
  claimed_same none j a e = absurd (ground arith)
  claimed_same (some b) j a e = ground arith

  refused :
      (j : Job) (a : ExecutionAttempt)
      → ◌≡◌ {A = Db × Result (Option (Job × ExecutionAttempt))}
          (db, err value_error)
          (d, ok (some (j, a)))
      → ⊥
  refused j a h = cc (ap (λ z. z.1) h)

  -- A claim that returns a job has taken one that was queued, due, within its attempts and keyed, with
  -- no claimable job before it in the order of priority, age and identifier. The job now runs under
  -- the returned attempt, which is new, open, numbered one more than the attempts before and lasts
  -- for the lease, and every other job is as it was.
  pub claim-IsClaimed :
      (j : Job) (a : ExecutionAttempt)
      → claim worker lease now ids db ≡ (d, ok (some (j, a)))
      → IsClaimed worker lease now ids db d a
  claim-IsClaimed j a e = elim (Bool-cases (lease == 0)) [
    | inl empty ↦ absurd (refused j a (sym (claim_empty empty) ∙ e))
    | inr some_time ↦
        let (o, body, answer) =
          transaction-ok (claim_body worker lease now ids) claimed_job db d (some (j, a))
            (sym (claim_timed some_time) ∙ e) in
        claim_body-IsClaimed a (body ∙ ap (λ z. ok (z, d)) (claimed_same o j a answer))
  ]
