-- ===== src/Jobs/Invariant/Release.antt =====
-- A running job gives up its attempt: the row leaves `running`, and the attempt ends.
use galaxz.Prelude.{ℕ, ◌≡◌, ◌≢◌, none, some, List, arith, inl, inr, true, is_some, ◌∙◌, ap}
use galaxz.Prelude.Table.{find, modify, IsKeyed-modify, find-modify_ne, find-modify_cases}
use galaxz.Contracts.Job.{JobStatus, ExecutionAttempt}
use galaxz.Jobs.Store.{JobRow}
use galaxz.Jobs.Invariant.Consistent.{
  job_key, attempt_key, RowOk, Linked, IsHeldBy, Owned, Consistent, held_apart, TokensDiffer-modify,
}

-- an update of attempts that ends whatever is open
pub record Ends (g : ExecutionAttempt → ExecutionAttempt) : Type 0 where
  pub same_id : (a : ExecutionAttempt) → (g a).attempt_id ≡ a.attempt_id
  pub same_token : (a : ExecutionAttempt) → (g a).lease_token ≡ a.lease_token
  pub ended : (a : ExecutionAttempt) → is_some (g a).ended_at ≡ true

-- an update of the row found for the job, to one that does not run
pub record Leaves (f : JobRow → JobRow) (r : JobRow) : Type 0 where
  pub same_id : (q : JobRow) → (f q).job_id ≡ q.job_id
  pub good : RowOk (f r)
  pub stopped : (f r).status ≢ JobStatus.running

module _ {rows : List JobRow} {tries : List ExecutionAttempt} (h : Consistent rows tries) (id : ℕ)
    (r : JobRow) (found : find job_key id rows ≡ some r) (f : JobRow → JobRow)
    (l : Leaves f r) where
  release-RowOk :
      (k : ℕ) (q : JobRow) → find job_key k (modify job_key id f rows) ≡ some q → RowOk q
  release-RowOk k q e = elim (find-modify_cases job_key f l.same_id id k rows q e) [
    | inl (same, p, there, eq) ↦ let same_row : p ≡ r = cc in rw (eq, same_row) l.good
    | inr (other, there) ↦ h.row_ok k q there
  ]

  module _ (a : ℕ) (held : IsHeldBy r a) (g : ExecutionAttempt → ExecutionAttempt)
      (e : Ends g) where
    -- another running job has another attempt
    release-Linked :
        (k : ℕ) (q : JobRow)
        → find job_key k (modify job_key id f rows) ≡ some q
        → q.status ≡ JobStatus.running
        → Linked (modify attempt_key a g tries) q
    release-Linked k q there runs = elim (find-modify_cases job_key f l.same_id id k rows q there) [
      | inl (same, p, old, eq) ↦
          let same_row : p ≡ r = cc in absurd (l.stopped (rw (← same_row, ← eq) runs))
      | inr (other, old) ↦
          let (b, t, o) = h.linked k q old runs in
          (
            b,
            t,
            record {
              active = o.active;
              found =
                  find-modify_ne attempt_key g e.same_id a b tries (
                    held_apart h id k r q a b found old held
                      (record { running = runs; active = o.active }) other)
                  ∙ o.found;
              owner = o.owner;
              unended = o.unended;
              unsettled = o.unsettled;
              number = o.number;
            },
          )
    ]

    release-Owned :
        (k : ℕ) (t : ExecutionAttempt)
        → find attempt_key k (modify attempt_key a g tries) ≡ some t
        → t.ended_at ≡ none
        → Owned (modify job_key id f rows) k t
    release-Owned k t there open_still =
        elim (find-modify_cases attempt_key g e.same_id a k tries t there) [
          | inl (same, p, old, eq) ↦ absurd (ground (arith, e.ended p))
          | inr (other, old) ↦
              let (q, owner, holds) = h.owned k t old open_still in
              (
                q,
                find-modify_ne job_key f l.same_id id t.job_id rows
                      (λ mine. other (taken t q mine owner holds))
                    ∙ owner,
                holds,
              )
        ]
      where
        taken :
            {k : ℕ} (t : ExecutionAttempt) (q : JobRow)
            → id ≡ t.job_id
            → find job_key t.job_id rows ≡ some q
            → IsHeldBy q k
            → a ≡ k
        taken t q mine owner holds =
            let same_row : r ≡ q = cc (ap (λ n. find job_key n rows) mine) in
            cc (ap (λ (p : JobRow). p.active_attempt_id) same_row, held.active, holds.active)

    pub release : Consistent (modify job_key id f rows) (modify attempt_key a g tries)
    release = record {
      keyed = IsKeyed-modify job_key f l.same_id id rows h.keyed;
      row_ok = release-RowOk;
      linked = release-Linked;
      owned = release-Owned;
      keyed_tries = IsKeyed-modify attempt_key g e.same_id a tries h.keyed_tries;
      tokens = TokensDiffer-modify tries a g e.same_id e.same_token h.tokens;
    }
