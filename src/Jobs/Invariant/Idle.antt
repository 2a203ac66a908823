-- ===== src/Jobs/Invariant/Idle.antt =====
-- A job that is not running changes and still does not run, or a new job is added: no attempt is
-- touched.
use galaxz.Prelude.{ℕ, ◌≡◌, ◌≢◌, none, some, List, [], ◌∷◌, ◌++◌, inl, inr, ◌∙◌, ap}
use galaxz.Prelude.Table.{
  find, modify, IsKeyed-modify, IsKeyed-append, find-modify_ne, find-modify_cases,
  find-append_cases, find-append_old,
}
use galaxz.Contracts.Job.{JobStatus, ExecutionAttempt}
use galaxz.Jobs.Store.{JobRow}
use galaxz.Jobs.Invariant.Consistent.{
  job_key, attempt_key, RowOk, Linked, IsHeldBy, Owned, Consistent,
}
use galaxz.Jobs.Invariant.Release.{Leaves}

module _ {rows : List JobRow} {tries : List ExecutionAttempt} (h : Consistent rows tries) where
  module _ (id : ℕ) (r : JobRow) (found : find job_key id rows ≡ some r)
      (idle : r.status ≢ JobStatus.running) (f : JobRow → JobRow) (l : Leaves f r) where
    idle-RowOk : (k : ℕ) (q : JobRow) → find job_key k (modify job_key id f rows) ≡ some q → RowOk q
    idle-RowOk k q e = elim (find-modify_cases job_key f l.same_id id k rows q e) [
      | inl (same, p, there, eq) ↦ let same_row : p ≡ r = cc in rw (eq, same_row) l.good
      | inr (other, there) ↦ h.row_ok k q there
    ]

    idle-Linked :
        (k : ℕ) (q : JobRow)
        → find job_key k (modify job_key id f rows) ≡ some q
        → q.status ≡ JobStatus.running
        → Linked tries q
    idle-Linked k q there runs = elim (find-modify_cases job_key f l.same_id id k rows q there) [
      | inl (same, p, old, eq) ↦
          let same_row : p ≡ r = cc in absurd (l.stopped (rw (← same_row, ← eq) runs))
      | inr (other, old) ↦ h.linked k q old runs
    ]

    not_mine : (k : ℕ) (q : JobRow) (a : ℕ) → find job_key k rows ≡ some q → IsHeldBy q a → id ≢ k
    not_mine k q a there holds same =
        let same_row : r ≡ q = cc (ap (λ n. find job_key n rows) same) in
        idle (ap (λ (p : JobRow). p.status) same_row ∙ holds.running)

    idle-Owned :
        (k : ℕ) (t : ExecutionAttempt)
        → find attempt_key k tries ≡ some t
        → t.ended_at ≡ none
        → Owned (modify job_key id f rows) k t
    idle-Owned k t there unended =
        let (q, owner, holds) = h.owned k t there unended in
        (
          q,
          find-modify_ne job_key f l.same_id id t.job_id rows (not_mine t.job_id q k owner holds)
              ∙ owner,
          holds,
        )

    -- an idle job changes
    pub change_idle : Consistent (modify job_key id f rows) tries
    change_idle = record {
      keyed = IsKeyed-modify job_key f l.same_id id rows h.keyed;
      row_ok = idle-RowOk;
      linked = idle-Linked;
      owned = idle-Owned;
      keyed_tries = h.keyed_tries;
      tokens = h.tokens;
    }

  module _ (r : JobRow) (fresh : find job_key r.job_id rows ≡ none)
      (idle : r.status ≢ JobStatus.running) (good : RowOk r) where
    -- a job is added
    pub add_job : Consistent (rows ++ r ∷ []) tries
    add_job = record {
      keyed = IsKeyed-append job_key rows r h.keyed fresh;
      row_ok = λ k q there. elim (find-append_cases job_key k rows r q there) [
        | inl old ↦ h.row_ok k q old
        | inr (missing, key, eq) ↦ rw eq good
      ];
      linked = λ k q there runs. elim (find-append_cases job_key k rows r q there) [
        | inl old ↦ h.linked k q old runs
        | inr (missing, key, eq) ↦ absurd (idle (rw (← eq) runs))
      ];
      owned = λ k t there unended.
          let (q, owner, holds) = h.owned k t there unended in
          (q, find-append_old job_key t.job_id rows r q owner, holds);
      keyed_tries = h.keyed_tries;
      tokens = h.tokens;
    }
