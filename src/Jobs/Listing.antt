-- ===== src/Jobs/Listing.antt =====
-- The listings of core/jobs/repository.py: `list_jobs`, `transitions` and `attempts`.
use galaxz.Prelude.{
  ℕ, Bool, ◌&&◌, ◌||◌, List, [], ◌∷◌, ◌==◌, ltb, leb, take, Result, ok, guard, value_error, is_some,
  Option, none, some, ◌>>=◌, ◌>>◌, if◌then◌else◌,
}
use galaxz.Prelude.Table.{select}
use galaxz.Contracts.Job.{Job, ExecutionAttempt, validate_attempt}
use galaxz.Jobs.Store.{JobRow, IdempotencyRow, TransitionRow, Db, find_key, job_from_row}

-- `ORDER BY created_at DESC, job_id DESC`
newer : JobRow → JobRow → Bool
newer r s = ltb s.created_at r.created_at || (r.created_at == s.created_at && ltb s.job_id r.job_id)

insert_newest : JobRow → List JobRow → List JobRow
insert_newest r [] = r ∷ []
insert_newest r (s ∷ rows) =
    let rest = insert_newest r rows in if newer s r then s ∷ rest else r ∷ s ∷ rows

unfoldable pub newest_first : List JobRow → List JobRow
unfolding newer insert_newest
newest_first [] = []
newest_first (r ∷ rows) = insert_newest r (newest_first rows)

-- `_job_from_row` on the row of the join
read_job : JobRow → Option IdempotencyRow → List Job → Result (List Job)
read_job r none rest = ok rest
read_job r (some k) rest = do j ← job_from_row r k.idempotency_key; ok (j ∷ rest)

read_jobs : List JobRow → Db → Result (List Job)
unfolding read_job
read_jobs [] db = ok []
read_jobs (r ∷ rows) db = do rest ← read_jobs rows db; read_job r (find_key r.job_id db) rest

unfoldable pub list_jobs : ℕ → Db → Result (List Job)
unfolding read_jobs
list_jobs limit db = do
  guard (leb 1 limit && leb limit 500) value_error
  read_jobs
      (take limit (newest_first (select (λ (r : JobRow). is_some (find_key r.job_id db)) db.jobs)))
      db

unfoldable pub transitions : ℕ → Db → List TransitionRow
transitions job_id db = select (λ (t : TransitionRow). t.job_id == job_id) db.transitions

-- `ORDER BY attempt_number`
insert_attempt_row : ExecutionAttempt → List ExecutionAttempt → List ExecutionAttempt
insert_attempt_row a [] = a ∷ []
insert_attempt_row a (b ∷ bs) =
    let rest = insert_attempt_row a bs in
    if ltb b.attempt_number a.attempt_number then b ∷ rest else a ∷ b ∷ bs

unfoldable pub by_number : List ExecutionAttempt → List ExecutionAttempt
unfolding insert_attempt_row
by_number [] = []
by_number (a ∷ as') = insert_attempt_row a (by_number as')

read_attempts : List ExecutionAttempt → Result (List ExecutionAttempt)
read_attempts [] = ok []
read_attempts (a ∷ rest) = do b ← validate_attempt a; bs ← read_attempts rest; ok (b ∷ bs)

unfoldable pub attempts : ℕ → Db → Result (List ExecutionAttempt)
unfolding read_attempts
attempts job_id db =
    read_attempts (by_number (select (λ (a : ExecutionAttempt). a.job_id == job_id) db.attempts))
