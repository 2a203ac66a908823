-- ===== src/Jobs/Safety/Claim.antt =====
-- On `claim` of core/jobs/repository.py and the invariant.
use mathlib.Core.Path.{subst}
use galaxz.Prelude.{
  false, ℕ, ◌+◌, ◌≡◌, ◌≢◌, true, [], ◌∷◌, ◌++◌, refl, inl, inr, some, none, String, Option-cases,
  Bool-cases, Result-cases, ok, arith, ◌==◌,
}
use galaxz.Prelude.Table.{exists, find-exists, select}
use galaxz.Prelude.Table.Select.{All-select}
use galaxz.Contracts.Job.{
  JobStatus, ExecutionAttempt, status_eq, Moves, validate_attempt, validate_job_transition,
  IsTerminal,
}
use galaxz.Jobs.Store.{JobRow, Db, find_job, find_attempt, update_job, record_transition}
use galaxz.Jobs.Lease.{clashes, insert_attempt}
use galaxz.Jobs.Claim.Order.{first_row-All}
use galaxz.Jobs.Claim.{
  Ids, claimable, next_job, start_row, new_attempt, updated_rows, start_job, claim_row, claim_body,
  claimed_job, claim,
}
use galaxz.Jobs.Invariant.Consistent.{attempt_key, IsConsistent, RowOk, job_key}
use galaxz.Jobs.Invariant.Start.{Starts}
use galaxz.Jobs.Invariant.Advance.{IsSound, Along, unchanged, started, IsUnfinished}
use galaxz.Jobs.Safety.Post.{Post, transaction-Post}

-- the claimed row is one of the table, and passes the query's test
pub next_job-found :
    (now : ℕ) (db : Db) (r : JobRow)
    → IsConsistent db
    → next_job now db ≡ some r
    → (find_job r.job_id db ≡ some r) × (claimable now db r ≡ true)
unfolding next_job
next_job-found now db r h e =
    first_row-All (λ q. (find_job q.job_id db ≡ some q) × (claimable now db q ≡ true))
      (select (claimable now db) db.jobs) r (All-select job_key (claimable now db) db.jobs h.keyed)
      e

pub insert_attempt-tries :
    (a : ExecutionAttempt) (db d : Db)
    → insert_attempt a db ≡ ok d
    → (find_attempt a.attempt_id db ≡ none)
      × (d.jobs ≡ db.jobs)
      × (d.attempts ≡ db.attempts ++ a ∷ [])
unfolding insert_attempt
insert_attempt-tries a db d h = (ground arith, ground arith, ground arith)

-- the UNIQUE constraint on the token
insert_attempt-new :
    (a : ExecutionAttempt) (db d : Db)
    → insert_attempt a db ≡ ok d
    → (k : ℕ) (u : ExecutionAttempt) → find_attempt k db ≡ some u
    → u.lease_token ≢ a.lease_token
unfolding insert_attempt
insert_attempt-new a db d h k u there same =
    let none_clash : exists (clashes a) db.attempts ≡ false = ground arith in
    let apart = find-exists attempt_key (clashes a) k db.attempts u none_clash there in
    unfold clashes in ground (arith, apart)

-- the attempt that the validators accept
pub record IsFresh (r : JobRow) (ids : Ids) (a : ExecutionAttempt) : Type 0 where
  pub id : a.attempt_id ≡ ids.attempt_id
  pub token : a.lease_token ≡ ids.lease_token
  pub owner : a.job_id ≡ r.job_id
  pub number : a.attempt_number ≡ r.attempt_count + 1
  pub unended : a.ended_at ≡ none
  pub unsettled : a.outcome ≡ none

pub new_attempt-IsFresh :
    (r : JobRow) (worker : String) (lease now : ℕ) (ids : Ids) (a : ExecutionAttempt)
    → validate_attempt (new_attempt r worker lease now ids) ≡ ok a
    → IsFresh r ids a
unfolding new_attempt validate_attempt
new_attempt-IsFresh r worker lease now ids a h = record {
  id = ground arith;
  token = ground arith;
  owner = ground arith;
  number = ground arith;
  unended = ground arith;
  unsettled = ground arith;
}

pub start_row_same_id : (a now : ℕ) (q : JobRow) → (start_row a now q).job_id ≡ q.job_id
unfolding start_row
start_row_same_id a now q = ground arith

start_row-Starts :
    (now : ℕ) (db : Db) (r : JobRow) (ids : Ids) (a : ExecutionAttempt)
    → RowOk r
    → claimable now db r ≡ true
    → IsFresh r ids a
    → Starts (start_row a.attempt_id now) r a
unfolding start_row claimable
start_row-Starts now db r ids a h c n =
    let queued : r.status ≡ JobStatus.queued = ground arith in
    record {
      same_id = λ q. ground arith;
      good = rw queued (record {
        positive = h.positive;
        bounded = omega (arith, h.claimable queued);
        claimable = λ e. cc;
        idle = λ e. absurd (e refl);
        stamped = λ e. cc;
        unstamped = λ e. h.unstamped (λ x. cc);
      });
      held = rw queued (record { running = refl; active = refl });
      owner = rw queued n.owner;
      unended = n.unended;
      unsettled = n.unsettled;
      number = rw queued n.number;
    }

start_row-Along : (a now : ℕ) (r : JobRow) → Along r.status (start_row a now r).status
unfolding start_row
start_row-Along a now r = elim (Bool-cases (status_eq r.status JobStatus.queued)) [
  | inl waits ↦
      let queued : r.status ≡ JobStatus.queued = ground arith in
      rw (waits, queued) (inr Moves.claim)
  | inr other ↦ inl (rw other refl)
]

pub queued_starts : validate_job_transition JobStatus.queued JobStatus.running ≡ ok tt
unfolding validate_job_transition
queued_starts = refl

not_running :
    (now : ℕ) (db : Db) (r : JobRow) → claimable now db r ≡ true → r.status ≢ JobStatus.running
unfolding claimable
not_running now db r c e = ground arith

waiting-IsUnfinished : (now : ℕ) (db : Db) (r : JobRow) → claimable now db r ≡ true → IsUnfinished r
unfolding claimable
waiting-IsUnfinished now db r c final =
    let queued : r.status ≡ JobStatus.queued = ground arith in subst IsTerminal queued final

module _ (worker : String) (lease now : ℕ) (ids : Ids) (db : Db) (h : IsConsistent db) where
  start_keeps :
      (r : JobRow) (a : ExecutionAttempt)
      → next_job now db ≡ some r
      → validate_attempt (new_attempt r worker lease now ids) ≡ ok a
      → Post (IsSound db) (start_job r a now db)
  unfolding start_job record_transition
  start_keeps r a next valid = elim (Bool-cases (updated_rows r.job_id db == 1)) [
    | inr other ↦ rw other (unchanged h)
    | inl one ↦
        let marked : Db = update_job r.job_id (start_row a.attempt_id now) db in
        elim (Result-cases (insert_attempt a marked)) [
          | inr (e, failed) ↦ rw (one, failed) tt
          | inl (d, done) ↦
              let (found, passes) = next_job-found now db r h next in
              let (fresh, rows, tries) = insert_attempt-tries a marked d done in
              rw (one, done)
                (rw (rows, tries)
                  (started h r.job_id r found (start_row a.attempt_id now)
                    (not_running now db r passes) (waiting-IsUnfinished now db r passes) a fresh
                    (insert_attempt-new a marked d done)
                    (start_row-Starts now db r ids a (h.row_ok r.job_id r found) passes
                      (new_attempt-IsFresh r worker lease now ids a valid))
                    (start_row-Along a.attempt_id now r)))
        ]
  ]

  body_keeps : Post (IsSound db) (claim_body worker lease now ids db)
  unfolding claim_body claim_row
  body_keeps = elim (Option-cases (next_job now db)) [
    | inl idle ↦ rw idle (unchanged h)
    | inr (r, next) ↦ elim (Result-cases (validate_attempt (new_attempt r worker lease now ids))) [
      | inr (e, refused) ↦ rw (next, queued_starts, refused) tt
      | inl (a, valid) ↦ rw (next, queued_starts, valid) (start_keeps r a next valid)
    ]
  ]

  pub claim-IsSound : IsSound db (claim worker lease now ids db).0
  unfolding claim
  claim-IsSound = elim (Bool-cases (lease == 0)) [
    | inl empty ↦ rw empty (unchanged h)
    | inr some_time ↦ rw some_time (
        transaction-Post (IsSound db) (claim_body worker lease now ids) claimed_job db (unchanged h)
          body_keeps)
  ]
