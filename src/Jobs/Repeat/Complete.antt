-- ===== src/Jobs/Repeat/Complete.antt =====
-- On `complete` of core/jobs/repository.py, called twice.
use galaxz.Prelude.{
  ℕ, true, false, ◌≡◌, refl, sym, ap, ◌∙◌, inl, inr, some, Result, ok, Result-cases, Bool-cases,
  Option-cases, arith,
}
use mathlib.Core.Path.{subst}
use galaxz.Prelude.Table.{find, modify, find-modify_hit, key-find}
use galaxz.Prelude.Table.First.{find_by-hit, find_by-find}
use galaxz.Contracts.Json.{str_eq_refl}
use galaxz.Contracts.Job.{Job, JobStatus, AttemptOutcome, ExecutionAttempt, status_eq}
use galaxz.Jobs.Store.{
  settle, Reason, JobRow, Db, find_job, find_attempt, find_output, update_job, update_attempt,
  Reason, get_existing_job, with_job, transaction, record_transition,
}
use galaxz.Jobs.Lease.{live_attempt}
use galaxz.Jobs.Lease.Live.{live_attempt_cases, live_attempt-IsLive}
use galaxz.Jobs.Finish.{
  Completion, prior_of, is_repeat, conflicts, end_attempt, complete_row, store_result,
  finish_running, finish_one, finish_body, complete,
}
use galaxz.Jobs.Invariant.Consistent.{IsConsistent, IsOpen-attempt, job_key, attempt_key}
use galaxz.Jobs.Safety.Post.{transaction-ok}
use galaxz.Jobs.Safety.Finish.{
  complete-IsSound, store_result-same, end_attempt-Ends, running_completes,
}
use galaxz.Jobs.Repeat.Stored.{agrees}

module _ (c : Completion) (d : Db) (h : IsConsistent d) where
  -- a job that the lease has completed, with the same reference
  settled :
      (r : JobRow) (a : ExecutionAttempt)
      → find_attempt a.attempt_id d ≡ some a
      → r.status ≡ JobStatus.completed
      → a.job_id ≡ c.job_id
      → a.lease_token ≡ c.lease_token
      → a.outcome ≡ some AttemptOutcome.completed
      → a.output_ref ≡ some c.output_ref
      → is_repeat c r d ≡ true
  unfolding is_repeat
  settled r a there stopped mine token outcome ref =
      let (b, first, passes) =
        find_by-hit (prior_of c.job_id c.lease_token) attempt_key d.attempts a.attempt_id a there
          (ground arith) in
      let found : find_attempt b.attempt_id d ≡ some b =
        find_by-find (prior_of c.job_id c.lease_token) attempt_key d.attempts b h.keyed_tries
          first in
      let tokens : b.lease_token ≡ a.lease_token = ground arith in
      let same : b.attempt_id ≡ a.attempt_id =
        h.tokens b.attempt_id a.attempt_id b a found there tokens in
      let one : b ≡ a = ground (arith, found, there, same) in
      ground (arith, one, str_eq_refl c.output_ref)

module _ (c : Completion) (now : ℕ) (db d : Db) (h : IsConsistent db) (hd : IsConsistent d) where
  -- what a running job's completion has gone through
  record Ran (r : JobRow) : Type 0 where
    runs : r.status ≡ JobStatus.running
    attempt : ExecutionAttempt
    live : live_attempt c.job_id c.lease_token now db ≡ ok attempt
    stored : Db
    result :
        store_result c.job_id attempt.attempt_id now c.result
          (update_attempt attempt.attempt_id (end_attempt c.output_ref now) db)
        ≡ ok stored
    after :
        d
        ≡ record_transition c.job_id
            (some r.status)
            JobStatus.completed
            Reason.finished
            now
            (update_job c.job_id (complete_row now) stored)

  ran : (r : JobRow) → finish_running c now db r ≡ ok d → Ran r
  unfolding finish_running
  ran r e = elim (Bool-cases (status_eq r.status JobStatus.running)) [
    | inr stopped ↦ absurd (ground arith)
    | inl runs ↦ elim (live_attempt_cases db c.job_id c.lease_token now) [
      | inr dead ↦ absurd (ground arith)
      | inl (a, live) ↦
          let running : r.status ≡ JobStatus.running = ground arith in
          let ended : Db = update_attempt a.attempt_id (end_attempt c.output_ref now) db in
          elim (Result-cases (store_result c.job_id a.attempt_id now c.result ended)) [
            | inr (x, failed) ↦ absurd (ground (arith, running_completes))
            | inl (m, stored) ↦ record {
              runs = running;
              attempt = a;
              live = live;
              stored = m;
              result = stored;
              after = ground (arith, running_completes);
            }
          ]
    ]
  ]

  after_running :
      (r : JobRow)
      → find_job c.job_id db ≡ some r
      → Ran r
      → (q : JobRow) × (find_job c.job_id d ≡ some q)
        × (is_repeat c q d ≡ true)
        × (conflicts (find_output c.job_id d) c.result ≡ false)
  unfolding record_transition complete_row end_attempt
  after_running r found g =
      let a = g.attempt in
      let b : ExecutionAttempt = end_attempt c.output_ref now a in
      let ended : Db = update_attempt a.attempt_id (end_attempt c.output_ref now) db in
      let (q, l) = live_attempt-IsLive db c.job_id c.lease_token now a g.live in
      let same : q ≡ r = cc (l.found, found) in
      let (t, o) =
        IsOpen-attempt h c.job_id r a.attempt_id found
          (record { running = g.runs; active = cc (l.active, same) }) in
      let one : t ≡ a = cc (o.found, l.attempt) in
      let (rows, tries) =
        store_result-same c.job_id a.attempt_id now c.result ended g.stored g.result in
      let ends = end_attempt-Ends c.output_ref now in
      let own : a.job_id ≡ c.job_id =
        ap (λ (z : ExecutionAttempt). z.job_id) (sym one)
        ∙ o.owner
        ∙ key-find job_key c.job_id db.jobs r found in
      let mine : b.job_id ≡ c.job_id = ground (arith, l.unended, own) in
      let row : find_job c.job_id d ≡ some (complete_row now r) =
        ap (λ (z : Db). find_job c.job_id z) g.after
        ∙ ap (λ z. find job_key c.job_id (modify job_key c.job_id (complete_row now) z)) rows
        ∙ find-modify_hit job_key (complete_row now) (λ z. ground arith) c.job_id db.jobs r found in
      let try : find_attempt a.attempt_id d ≡ some b =
        ap (λ (z : Db). find_attempt a.attempt_id z) g.after
        ∙ ap (λ z. find attempt_key a.attempt_id z) tries
        ∙ find-modify_hit attempt_key (end_attempt c.output_ref now) ends.same_id a.attempt_id
            db.attempts a l.attempt in
      (
        complete_row now r,
        row,
        settled c d hd (complete_row now r) b (rw (ends.same_id a) try) (ground (arith, g.runs))
            mine (ends.same_token a ∙ l.token) (ground (arith, l.unended))
            (ground (arith, l.unended)),
        ap (λ (z : Db). conflicts (find_output c.job_id z) c.result) g.after
            ∙ agrees c.job_id a.attempt_id now c.result ended g.stored g.result,
      )

  -- what the first call leaves: a job that the lease has completed, with the result
  done_step :
      (r : JobRow)
      → find_job c.job_id db ≡ some r
      → finish_one c now db r ≡ ok d
      → (q : JobRow) × (find_job c.job_id d ≡ some q)
        × (is_repeat c q d ≡ true)
        × (conflicts (find_output c.job_id d) c.result ≡ false)
  unfolding finish_one
  done_step r found e = elim (Bool-cases (is_repeat c r db)) [
    | inl repeated ↦ elim (Bool-cases (conflicts (find_output c.job_id db) c.result)) [
      | inl clash ↦ absurd (ground arith)
      | inr agree ↦
          let same : db ≡ d = ground arith in
          (r, rw (← same) found, rw (← same) repeated, rw (← same) agree)
    ]
    | inr new ↦ after_running r found (ran r (ground arith))
  ]

  done_body :
      finish_body c now db ≡ ok (tt, d)
      → (q : JobRow) × (find_job c.job_id d ≡ some q)
        × (is_repeat c q d ≡ true)
        × (conflicts (find_output c.job_id d) c.result ≡ false)
  unfolding finish_body with_job
  done_body e = elim (Option-cases (find_job c.job_id db)) [
    | inl missing ↦ absurd (ground arith)
    | inr (r, found) ↦ elim (Result-cases (finish_one c now db r)) [
      | inr (x, failed) ↦ absurd (ground arith)
      | inl (m, done) ↦ let same : m ≡ d = ground arith in done_step r found (done ∙ ap ok same)
    ]
  ]

  again_body : (later : ℕ) → finish_body c now db ≡ ok (tt, d) → finish_body c later d ≡ ok (tt, d)
  unfolding finish_body with_job finish_one
  again_body later e =
      let (q, there, repeated, agree) = done_body e in rw (there, repeated, agree) refl

completed-IsConsistent :
    (c : Completion) (now : ℕ) (db d : Db) (r : Result Job)
    → IsConsistent db
    → complete c now db ≡ (d, r)
    → IsConsistent d
completed-IsConsistent c now db d r h e =
    subst IsConsistent (ap (λ z. z.0) e) (complete-IsSound c now db h).consistent

-- On consistent tables, a completion that has returned a job may be sent again at any later or
-- earlier time, after the end of its lease too: the repeated call returns the same job and leaves
-- the tables as they are.
pub complete-repeats :
    (c : Completion) (now later : ℕ) (db d : Db) (j : Job)
    → IsConsistent db
    → complete c now db ≡ (d, ok j)
    → complete c later d ≡ (d, ok j)
unfolding complete transaction settle
complete-repeats c now later db d j h e =
    let (u, body, answer) =
      transaction-ok (finish_body c now) (λ _ db'. get_existing_job c.job_id db') db d j e in
    let hd = completed-IsConsistent c now db d (ok j) h e in
    rw (again_body c now db d h hd later body, answer) refl

-- A completion that returns leaves the job completed, and the result that it brought, if any, stored.
pub complete-done :
    (c : Completion) (now : ℕ) (db d : Db) (j : Job)
    → IsConsistent db
    → complete c now db ≡ (d, ok j)
    → (q : JobRow) × (find_job c.job_id d ≡ some q)
      × (q.status ≡ JobStatus.completed)
      × (conflicts (find_output c.job_id d) c.result ≡ false)
unfolding complete is_repeat
complete-done c now db d j h e =
    let (u, body, answer) =
      transaction-ok (finish_body c now) (λ _ db'. get_existing_job c.job_id db') db d j e in
    let hd = completed-IsConsistent c now db d (ok j) h e in
    let (q, there, repeated, agree) = done_body c now db d h hd body in
    (q, there, ground arith, agree)
