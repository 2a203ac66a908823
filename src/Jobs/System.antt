-- ===== src/Jobs/System.antt =====
-- The repository as a whole: every state that its operations can reach, in any order and with any
-- arguments.
use galaxz.Prelude.{
  ℕ, ◌≤◌, ◌≡◌, String, some, none, List, [], ◌∷◌, inl, inr, ap, arith, sym, ◌∙◌, refl,
}
use mathlib.Core.Path.{subst}
use galaxz.Prelude.Table.{find}
use galaxz.Contracts.Job.{JobStatus, ExecutionAttempt, IsTerminal, Reaches}
use galaxz.Jobs.Store.{JobRow, Db, empty, find_job, find_attempt}
use galaxz.Jobs.Enqueue.{Request, policy_of, enqueue}
use galaxz.Jobs.Claim.{Ids, claim}
use galaxz.Jobs.Heartbeat.{heartbeat}
use galaxz.Jobs.Finish.{Completion, complete}
use galaxz.Jobs.Failure.{Failure, record_failure, fail}
use galaxz.Jobs.Cancel.{cancel}
use galaxz.Jobs.Reclaim.{reclaim_expired}
use galaxz.Jobs.Outbox.{acknowledge_completion}
use galaxz.Jobs.Invariant.Consistent.{IsConsistent}
use galaxz.Jobs.Invariant.Advance.{IsSound, Along, unchanged}
use galaxz.Jobs.Safety.Enqueue.{enqueue-IsSound}
use galaxz.Jobs.Safety.Claim.{claim-IsSound}
use galaxz.Jobs.Safety.Heartbeat.{heartbeat-IsSound}
use galaxz.Jobs.Safety.Finish.{complete-IsSound}
use galaxz.Jobs.Safety.Failure.{record_failure-IsSound, fail-IsSound}
use galaxz.Jobs.Safety.Cancel.{cancel-IsSound}
use galaxz.Jobs.Recovery.{reclaim_expired-IsSound}

-- A call of the repository. The retry policy of a request has passed its own validator.
pub data Call : Type 0 where
  enqueued : (q : Request) (now id : ℕ) → 1 ≤ (policy_of q).max_attempts → Call
  claimed : (worker : String) (lease now : ℕ) (ids : Ids) → Call
  beaten : (job_id lease_token lease now : ℕ) → Call
  completed : (c : Completion) (now : ℕ) → Call
  failed : (f : Failure) (now : ℕ) → Call
  given_up : (f : Failure) (now : ℕ) → Call
  cancelled : (job_id now : ℕ) → Call
  reclaimed : (now : ℕ) → Call
  acknowledged : (job_id now : ℕ) → Call

-- the tables after the call, whether it returns or raises
unfoldable pub perform : Call → Db → Db
perform (enqueued q now id few) db = (enqueue q now id db).0
perform (claimed worker lease now ids) db = (claim worker lease now ids db).0
perform (beaten job_id lease_token lease now) db = (heartbeat job_id lease_token lease now db).0
perform (completed c now) db = (complete c now db).0
perform (failed f now) db = (record_failure f now db).0
perform (given_up f now) db = (fail f now db).0
perform (cancelled job_id now) db = (cancel job_id now db).0
perform (reclaimed now) db = (reclaim_expired now db).0
perform (acknowledged job_id now) db = acknowledge_completion job_id now db

unfoldable pub perform_all : List Call → Db → Db
unfolding perform
perform_all [] db = db
perform_all (c ∷ cs) db = perform_all cs (perform c db)

perform-IsSound : (c : Call) (db : Db) → IsConsistent db → IsSound db (perform c db)
unfolding perform acknowledge_completion
perform-IsSound (enqueued q now id few) db h = enqueue-IsSound q now id db h few
perform-IsSound (claimed worker lease now ids) db h = claim-IsSound worker lease now ids db h
perform-IsSound (beaten job_id lease_token lease now) db h =
    heartbeat-IsSound job_id lease_token lease now db h
perform-IsSound (completed c now) db h = complete-IsSound c now db h
perform-IsSound (failed f now) db h = record_failure-IsSound f now db h
perform-IsSound (given_up f now) db h = fail-IsSound f now db h
perform-IsSound (cancelled job_id now) db h = cancel-IsSound job_id now db h
perform-IsSound (reclaimed now) db h = reclaim_expired-IsSound now db h
perform-IsSound (acknowledged job_id now) db h = unchanged h

empty-IsConsistent : IsConsistent empty
unfolding find
empty-IsConsistent = record {
  keyed = tt;
  row_ok = λ id r e. absurd (ground arith);
  linked = λ id r e runs. absurd (ground arith);
  owned = λ id a e open_still. absurd (ground arith);
  keyed_tries = tt;
  tokens = λ a b t u there_t there_u same. absurd (ground arith);
}

-- from one state to a later one
pub perform_all-IsSound :
    (cs : List Call) (db : Db)
    → IsConsistent db
    → IsConsistent (perform_all cs db)
      × ((k : ℕ) (q : JobRow)
          → find_job k db ≡ some q
          → (p : JobRow) × (find_job k (perform_all cs db) ≡ some p)
            × Reaches q.status p.status
            × (IsTerminal q.status → p ≡ q))
unfolding perform_all
perform_all-IsSound [] db h = (h, λ k q there. (q, there, Reaches.here, λ final. refl))
perform_all-IsSound (c ∷ cs) db h =
    let s = perform-IsSound c db h in
    let (end, on) = perform_all-IsSound cs (perform c db) s.consistent in
    (
      end,
      λ k q there.
          let (p, next, (same, along)) = s.advances k q there in
          let (o, last, reach, kept) = on k p next in
          (
            o,
            last,
            before along reach,
            λ final.
                kept (subst (λ (z : JobRow). IsTerminal z.status) (sym (same final)) final)
                ∙ same final,
          ),
    )
  where
    before : {a b z : JobStatus} → Along a b → Reaches b z → Reaches a z
    before {z = z} (inl e) r = subst (λ x. Reaches x z) e r
    before (inr m) r = Reaches.then m r

-- The invariant holds after every sequence of calls on an empty repository, in any order and with
-- any arguments, also where calls raise: identifiers of jobs are unique, attempts are within the
-- policy, a queued job has attempts left, a running job has the open attempt that it names, every
-- attempt that has not ended is the one that its running job names, no lease token is shared, and
-- `cancelled_at` is set exactly on cancelled jobs.
pub perform_all-IsConsistent : (cs : List Call) → IsConsistent (perform_all cs empty)
perform_all-IsConsistent cs = (perform_all-IsSound cs empty empty-IsConsistent).0

-- From any state that is reached, no sequence of calls removes a job, its status moves along the
-- diagram of transitions, and once it is completed, failed or cancelled its row never changes again.
pub perform_all-moves :
    (before after : List Call) (k : ℕ) (q : JobRow)
    → find_job k (perform_all before empty) ≡ some q
    → (p : JobRow) × (find_job k (perform_all after (perform_all before empty)) ≡ some p)
      × Reaches q.status p.status
      × (IsTerminal q.status → p ≡ q)
perform_all-moves before after k q there =
    (perform_all-IsSound after (perform_all before empty) (perform_all-IsConsistent before)).1 k q
      there

-- At most one worker holds a job: in every state that is reached, two attempts of one job that have
-- not ended are one attempt.
pub perform_all-one_holder :
    (cs : List Call) (a b : ℕ) (t u : ExecutionAttempt)
    → find_attempt a (perform_all cs empty) ≡ some t
    → find_attempt b (perform_all cs empty) ≡ some u
    → t.ended_at ≡ none
    → u.ended_at ≡ none
    → t.job_id ≡ u.job_id
    → a ≡ b
perform_all-one_holder cs a b t u found_t found_u open_t open_u same =
    let h = perform_all-IsConsistent cs in
    let (r, owner_r, held_r) = h.owned a t found_t open_t in
    let (q, owner_q, held_q) = h.owned b u found_u open_u in
    let one : r ≡ q = cc (owner_r, owner_q, same) in
    cc (ap (λ (z : JobRow). z.active_attempt_id) one, held_r.active, held_q.active)
