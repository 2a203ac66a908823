-- ===== src/Jobs/Invariant/Start.antt =====
-- A job that is not running starts under a new attempt, and a running job's lease is extended.
use galaxz.Prelude.{ℕ, ◌≡◌, ◌≢◌, none, some, List, [], ◌∷◌, ◌++◌, inl, inr, ◌∙◌, ap}
use galaxz.Prelude.Table.{
  find, modify, key-find, IsKeyed-modify, find-modify_ne, find-modify_hit, find-modify_cases,
  IsKeyed-append, find-append_cases, find-append_old, find-append_new,
}
use galaxz.Contracts.Job.{JobStatus, ExecutionAttempt}
use galaxz.Jobs.Store.{JobRow}
use galaxz.Jobs.Invariant.Consistent.{
  job_key, attempt_key, RowOk, Linked, IsHeldBy, Owned, TokensDiffer-append, Consistent,
}

-- an update of the row to one that runs under the attempt `t`
pub record Starts (f : JobRow → JobRow) (r : JobRow) (t : ExecutionAttempt) : Type 0 where
  pub same_id : (q : JobRow) → (f q).job_id ≡ q.job_id
  pub good : RowOk (f r)
  pub held : IsHeldBy (f r) t.attempt_id
  pub owner : t.job_id ≡ (f r).job_id
  pub unended : t.ended_at ≡ none
  pub unsettled : t.outcome ≡ none
  pub number : t.attempt_number ≡ (f r).attempt_count

module _ {rows : List JobRow} {tries : List ExecutionAttempt} (h : Consistent rows tries) (id : ℕ)
    (r : JobRow) (found : find job_key id rows ≡ some r) (idle : r.status ≢ JobStatus.running)
    (f : JobRow → JobRow) (t : ExecutionAttempt)
    (fresh : find attempt_key t.attempt_id tries ≡ none)
    (new : (k : ℕ) (u : ExecutionAttempt)
      → find attempt_key k tries ≡ some u
      → u.lease_token ≢ t.lease_token)
    (s : Starts f r t) where
  start-RowOk : (k : ℕ) (q : JobRow) → find job_key k (modify job_key id f rows) ≡ some q → RowOk q
  start-RowOk k q e = elim (find-modify_cases job_key f s.same_id id k rows q e) [
    | inl (same, p, there, eq) ↦ let same_row : p ≡ r = cc in rw (eq, same_row) s.good
    | inr (other, there) ↦ h.row_ok k q there
  ]

  start-Linked :
      (k : ℕ) (q : JobRow)
      → find job_key k (modify job_key id f rows) ≡ some q
      → q.status ≡ JobStatus.running
      → Linked (tries ++ t ∷ []) q
  start-Linked k q there runs = elim (find-modify_cases job_key f s.same_id id k rows q there) [
    | inl (same, p, old, eq) ↦
        let same_row : p ≡ r = cc in
        (
          t.attempt_id,
          t,
          rw (eq, same_row)
              (record {
                active = s.held.active;
                found = find-append_new attempt_key tries t fresh;
                owner = s.owner;
                unended = s.unended;
                unsettled = s.unsettled;
                number = s.number;
              }),
        )
    | inr (other, old) ↦
        let (b, u, o) = h.linked k q old runs in
        (
          b,
          u,
          record {
            active = o.active;
            found = find-append_old attempt_key b tries t u o.found;
            owner = o.owner;
            unended = o.unended;
            unsettled = o.unsettled;
            number = o.number;
          },
        )
  ]

  not_mine : (k : ℕ) (q : JobRow) (a : ℕ) → find job_key k rows ≡ some q → IsHeldBy q a → id ≢ k
  not_mine k q a there holds same =
      let same_row : r ≡ q = cc (ap (λ n. find job_key n rows) same) in
      idle (ap (λ (p : JobRow). p.status) same_row ∙ holds.running)

  start-Owned :
      (k : ℕ) (u : ExecutionAttempt)
      → find attempt_key k (tries ++ t ∷ []) ≡ some u
      → u.ended_at ≡ none
      → Owned (modify job_key id f rows) k u
  start-Owned k u there unended = elim (find-append_cases attempt_key k tries t u there) [
    | inl old ↦
        let (q, owner, holds) = h.owned k u old unended in
        (
          q,
          find-modify_ne job_key f s.same_id id u.job_id rows (not_mine u.job_id q k owner holds)
              ∙ owner,
          holds,
        )
    | inr (missing, key, eq) ↦
        let mine : u.job_id ≡ id = cc (
          ap (λ (v : ExecutionAttempt). v.job_id) eq,
          s.owner,
          s.same_id r,
          key-find job_key id rows r found,
        ) in
        (f r, rw mine (find-modify_hit job_key f s.same_id id rows r found), rw (← key) s.held)
  ]

  -- a job starts
  pub start : Consistent (modify job_key id f rows) (tries ++ t ∷ [])
  start = record {
    keyed = IsKeyed-modify job_key f s.same_id id rows h.keyed;
    row_ok = start-RowOk;
    linked = start-Linked;
    owned = start-Owned;
    keyed_tries = IsKeyed-append attempt_key tries t h.keyed_tries fresh;
    tokens = TokensDiffer-append tries t new h.tokens;
  }
