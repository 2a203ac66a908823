-- ===== src/Jobs/Repeat/Enqueue.antt =====
-- On `enqueue` of core/jobs/repository.py, called twice with one key.
use galaxz.Prelude.{
  Error, ℕ, ◌≡◌, refl, sym, ap, ◌∙◌, inl, inr, Option, some, none, [], ◌∷◌, ◌++◌, Result, ok, err,
  Result-cases, Option-cases, arith, is_none, if◌then◌else◌,
}
use galaxz.Prelude.Text.{strip}
use galaxz.Prelude.Text.Strip.{strip-strip}
use galaxz.Prelude.Table.{find, find_by, find-append_new}
use galaxz.Prelude.Table.First.{find_by-append_new}
use galaxz.Contracts.Json.{str_eq_refl}
use galaxz.Contracts.Task.{TaskContract}
use galaxz.Contracts.Job.{Job, JobStatus, validate_policy, validate_job}
use galaxz.Jobs.Store.{
  JobRow, IdempotencyRow, Reason, Db, find_job, record_transition, job_from_row, transaction,
  settle,
}
use galaxz.Jobs.Enqueue.{
  Request, policy_of, candidate, has_key, existing_job, insert_task, stored_policy, new_row,
  insert_job, enqueue_body, answer, enqueue,
}
use galaxz.Jobs.Invariant.Consistent.{job_key}
use galaxz.Jobs.Safety.Post.{transaction-ok, err_not_ok}

-- what the validator of a record has made of it
valid_key : (i j : Job) → validate_job i ≡ ok j → j.idempotency_key ≡ strip i.idempotency_key
unfolding validate_job
valid_key i j e = ground arith

valid_again : (i j : Job) → validate_job i ≡ ok j → validate_job j ≡ ok j
unfolding validate_job
valid_again i j e = ground (arith, strip-strip i.idempotency_key)

-- what a new job is read as once it is stored: its outcomes are sorted
abbrev pub stored_job : Job → Job
stored_job j = record j { retry_policy = stored_policy j.retry_policy }

module _ (q : Request) (now id : ℕ) (j : Job) (e : candidate q now id ≡ ok j) where
  candidate_key : j.idempotency_key ≡ strip q.idempotency_key
  unfolding candidate validate_job
  candidate_key = ground arith

  candidate_row :
      validate_policy (policy_of q) ≡ ok (policy_of q)
      → job_from_row (new_row j) j.idempotency_key ≡ ok (stored_job j)
  unfolding candidate job_from_row validate_job validate_policy stored_policy new_row
  candidate_row policy = ground (arith, policy, strip-strip q.idempotency_key)

task_keeps :
    (id : ℕ) (t : Option TaskContract) (db d : Db)
    → insert_task id t db ≡ ok d
    → (d.jobs ≡ db.jobs) × (d.idempotency ≡ db.idempotency)
unfolding insert_task
task_keeps id none db d e = (ground arith, ground arith)
task_keeps id (some t) db d e = (ground arith, ground arith)

record Inserted (j : Job) (db d : Db) : Type 0 where
  no_job : find_job j.job_id db ≡ none
  no_key : find_by (has_key j.idempotency_key) db.idempotency ≡ none
  rows : d.jobs ≡ db.jobs ++ new_row j ∷ []
  keys :
      d.idempotency
      ≡ db.idempotency
        ++ record {
          idempotency_key = j.idempotency_key;
          job_id = j.job_id;
          created_at = j.created_at;
        }
          ∷ []

insert_job-Inserted :
    (j : Job) (t : Option TaskContract) (db d : Db) → insert_job j t db ≡ ok d → Inserted j db d
unfolding insert_job record_transition
insert_job-Inserted j t db d e =
    let with_key : Db = record db {
      jobs = db.jobs ++ new_row j ∷ [];
      idempotency =
          db.idempotency
          ++ record {
            idempotency_key = j.idempotency_key;
            job_id = j.job_id;
            created_at = j.created_at;
          }
            ∷ [];
    } in
    elim (Result-cases (insert_task j.job_id t with_key)) [
      | inr (x, failed) ↦ absurd (ground arith)
      | inl (m, done) ↦
          let (rows, keys) = task_keeps j.job_id t with_key m done in
          let after : d
              ≡ record_transition j.job_id none JobStatus.queued Reason.enqueue j.created_at m =
            ground arith in
          record {
            no_job = ground arith;
            no_key = ground arith;
            rows = ap (λ (z : Db). z.jobs) after ∙ rows;
            keys = ap (λ (z : Db). z.idempotency) after ∙ keys;
          }
    ]

-- the key of a new job finds its row
Inserted-exists :
    (j : Job) (db d : Db) → Inserted j db d → existing_job j.idempotency_key d ≡ some (new_row j)
unfolding existing_job new_row has_key
Inserted-exists j db d i =
    let k : IdempotencyRow = record {
      idempotency_key = j.idempotency_key;
      job_id = j.job_id;
      created_at = j.created_at;
    } in
    let first : find_by (has_key j.idempotency_key) d.idempotency ≡ some k =
      ap (find_by (has_key j.idempotency_key)) i.keys
      ∙ find_by-append_new (has_key j.idempotency_key) db.idempotency k i.no_key
          (str_eq_refl j.idempotency_key) in
    let row : find_job j.job_id d ≡ some (new_row j) =
      ap (find job_key j.job_id) i.rows ∙ find-append_new job_key db.jobs (new_row j) i.no_job in
    rw (first, existing_job) row

module _ (q : Request) (now id : ℕ) (db d : Db) (j : Job)
    (policy : validate_policy (policy_of q) ≡ ok (policy_of q)) where
  unfold_enqueue :
      (i : Job)
      → candidate q now id ≡ ok i
      → enqueue q now id db ≡ transaction (enqueue_body i q.task) (λ old _. answer i old) db
  unfolding enqueue
  unfold_enqueue i e = rw (e, enqueue) refl

  unfold_refused : (x : Error) → candidate q now id ≡ err x → enqueue q now id db ≡ (db, err x)
  unfolding enqueue
  unfold_refused x e = rw (e, enqueue) refl

  -- the job that the row under the key is read as, if the first call found a row and if not
  read_job : Option JobRow → Job
  read_job none = stored_job j
  read_job (some r) = j

  -- the row that the first call leaves under the key
  kept_row :
      (i : Job)
      → candidate q now id ≡ ok i
      → (o : Option JobRow) → enqueue_body i q.task db ≡ ok (o, d)
      → answer i o ≡ ok j
      → (r : JobRow) × (existing_job i.idempotency_key d ≡ some r)
        × (job_from_row r i.idempotency_key ≡ ok (read_job (existing_job i.idempotency_key db)))
  unfolding enqueue_body answer read_job
  kept_row i valid o body said = elim (Option-cases (existing_job i.idempotency_key db)) [
    | inr (r, there) ↦ (r, ground arith, rw (there, read_job) (ground arith))
    | inl missing ↦ elim (Result-cases (insert_job i q.task db)) [
      | inr (x, failed) ↦ absurd (ground arith)
      | inl (m, done) ↦
          let same : m ≡ d = ground arith in
          let own : i ≡ j = ground arith in
          (
            new_row i,
            Inserted-exists i db d (insert_job-Inserted i q.task db d (done ∙ ap ok same)),
            rw (missing, read_job)
                (candidate_row q now id i valid policy ∙ ap (λ z. ok (stored_job z)) own),
          )
    ]
  ]

  again :
      (p : Request) (later other : ℕ) (k s : Job) (r : JobRow)
      → candidate p later other ≡ ok k
      → existing_job k.idempotency_key d ≡ some r
      → job_from_row r k.idempotency_key ≡ ok s
      → enqueue p later other d ≡ (d, ok s)
  unfolding enqueue transaction settle answer
  again p later other k s r valid there read =
      rw (valid, enqueue) (rw (there, enqueue_body) (ap {B = Db × Result Job} (λ z. (d, z)) read))

  -- Where the retry policy is a valid one: when a request has been answered with a job, every valid
  -- request with the same stripped key leaves the tables as they are, whatever its task, priority,
  -- policy, time and new identifier, and is answered with that job if it was there before the first
  -- request, and else with the new job with its retryable outcomes sorted.
  pub enqueue-repeats :
      (p : Request) (later other : ℕ) (k : Job)
      → enqueue q now id db ≡ (d, ok j)
      → candidate p later other ≡ ok k
      → strip p.idempotency_key ≡ strip q.idempotency_key
      → enqueue p later other d
        ≡ (d, ok (if is_none (existing_job (strip q.idempotency_key) db) then stored_job j else j))
  unfolding read_job
  enqueue-repeats p later other k e valid same = elim (Result-cases (candidate q now id)) [
    | inr (x, refused) ↦ absurd (err_not_ok (ap (λ z. z.1) (sym (unfold_refused x refused) ∙ e)))
    | inl (i, first) ↦
        let (o, body, said) =
          transaction-ok (enqueue_body i q.task) (λ old _. answer i old) db d j
            (sym (unfold_enqueue i first) ∙ e) in
        let (r, there, read) = kept_row i first o body said in
        let one : i.idempotency_key ≡ k.idempotency_key =
          candidate_key q now id i first ∙ sym same ∙ sym (candidate_key p later other k valid) in
        let own : i.idempotency_key ≡ strip q.idempotency_key = candidate_key q now id i first in
        elim (Option-cases (existing_job (strip q.idempotency_key) db)) [
          | inl new ↦
              let seen : read_job (existing_job i.idempotency_key db) ≡ stored_job j =
                rw (own, new) refl in
              rw new (
                again p later other k (stored_job j) r valid (rw (← one) there)
                  (rw (← one) (read ∙ ap ok seen)))
          | inr (x, old) ↦
              let seen : read_job (existing_job i.idempotency_key db) ≡ j = rw (own, old) refl in
              rw old (
                again p later other k j r valid (rw (← one) there) (rw (← one) (read ∙ ap ok seen)))
        ]
  ]
