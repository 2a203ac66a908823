-- ===== src/Jobs/Invariant/Extend.antt =====
-- Updates that leave alone what the invariant reads, such as the extension of a lease.
use galaxz.Prelude.{ℕ, ◌≡◌, none, some, List, inl, inr, ◌∙◌, sym, ap}
use galaxz.Prelude.Table.{find, modify, IsKeyed-modify, find-modify-some, find-modify_cases}
use galaxz.Contracts.Job.{ExecutionAttempt}
use galaxz.Jobs.Store.{JobRow}
use galaxz.Jobs.Invariant.Consistent.{
  TokensDiffer-modify, job_key, attempt_key, RowOk, Linked, IsHeldBy, Consistent,
}

pub record KeepsRow (f : JobRow → JobRow) : Type 0 where
  pub same_id : (q : JobRow) → (f q).job_id ≡ q.job_id
  pub same_status : (q : JobRow) → (f q).status ≡ q.status
  pub same_active : (q : JobRow) → (f q).active_attempt_id ≡ q.active_attempt_id
  pub same_count : (q : JobRow) → (f q).attempt_count ≡ q.attempt_count
  pub good : (q : JobRow) → RowOk q → RowOk (f q)

pub record KeepsAttempt (g : ExecutionAttempt → ExecutionAttempt) : Type 0 where
  pub same_id : (t : ExecutionAttempt) → (g t).attempt_id ≡ t.attempt_id
  pub same_token : (t : ExecutionAttempt) → (g t).lease_token ≡ t.lease_token
  pub same_job : (t : ExecutionAttempt) → (g t).job_id ≡ t.job_id
  pub same_end : (t : ExecutionAttempt) → (g t).ended_at ≡ t.ended_at
  pub same_outcome : (t : ExecutionAttempt) → (g t).outcome ≡ t.outcome
  pub same_number : (t : ExecutionAttempt) → (g t).attempt_number ≡ t.attempt_number

module _ (tries : List ExecutionAttempt) (g : ExecutionAttempt → ExecutionAttempt)
    (ka : KeepsAttempt g) (a : ℕ) where
  link_kept : (q : JobRow) → Linked tries q → Linked (modify attempt_key a g tries) q
  link_kept q (b, t, o) =
      let (u, there, which) = find-modify-some attempt_key g ka.same_id a b tries t o.found in
      (
        b,
        u,
        elim which [
          | inl eq ↦ record {
            active = o.active;
            found = there;
            owner = rw eq (ka.same_job t ∙ o.owner);
            unended = rw eq (ka.same_end t ∙ o.unended);
            unsettled = rw eq (ka.same_outcome t ∙ o.unsettled);
            number = rw eq (ka.same_number t ∙ o.number);
          }
          | inr eq ↦ record {
            active = o.active;
            found = there;
            owner = rw eq o.owner;
            unended = rw eq o.unended;
            unsettled = rw eq o.unsettled;
            number = rw eq o.number;
          }
        ],
      )

module _ (f : JobRow → JobRow) (kr : KeepsRow f) where
  link_moved : (tries : List ExecutionAttempt) (q : JobRow) → Linked tries q → Linked tries (f q)
  link_moved tries q (b, t, o) = (
    b,
    t,
    record {
      active = kr.same_active q ∙ o.active;
      found = o.found;
      owner = o.owner ∙ sym (kr.same_id q);
      unended = o.unended;
      unsettled = o.unsettled;
      number = o.number ∙ sym (kr.same_count q);
    },
  )

  holder_kept :
      (rows : List JobRow) (id k j : ℕ) (r : JobRow)
      → find job_key j rows ≡ some r
      → IsHeldBy r k
      → (q : JobRow) × (find job_key j (modify job_key id f rows) ≡ some q) × IsHeldBy q k
  holder_kept rows id k j r found held =
      let (q, there, which) = find-modify-some job_key f kr.same_id id j rows r found in
      (
        q,
        there,
        elim which [
          | inl eq ↦ rw eq (record {
            running = kr.same_status r ∙ held.running;
            active = kr.same_active r ∙ held.active;
          })
          | inr eq ↦ rw eq held
        ],
      )

module _ {rows : List JobRow} {tries : List ExecutionAttempt} (f : JobRow → JobRow)
    (kr : KeepsRow f) (g : ExecutionAttempt → ExecutionAttempt) (ka : KeepsAttempt g)
    (id a : ℕ) where
  pub extend :
      Consistent rows tries → Consistent (modify job_key id f rows) (modify attempt_key a g tries)
  extend h = record {
    keyed = IsKeyed-modify job_key f kr.same_id id rows h.keyed;
    row_ok = λ k q there. elim (find-modify_cases job_key f kr.same_id id k rows q there) [
      | inl (same, p, old, eq) ↦ rw eq (kr.good p (h.row_ok id p old))
      | inr (other, old) ↦ h.row_ok k q old
    ];
    linked = λ k q there runs.
        link_kept tries g ka a q (elim (find-modify_cases job_key f kr.same_id id k rows q there) [
          | inl (same, p, old, eq) ↦ rw eq (
              link_moved f kr tries p (
                h.linked id p old
                  (sym (kr.same_status p) ∙ ap (λ (z : JobRow). z.status) (sym eq) ∙ runs)))
          | inr (other, old) ↦ h.linked k q old runs
        ]);
    owned = λ k u there unended.
        elim (find-modify_cases attempt_key g ka.same_id a k tries u there) [
          | inl (same, t, old, eq) ↦
              let still : t.ended_at ≡ none =
                sym (ka.same_end t)
                ∙ ap (λ (z : ExecutionAttempt). z.ended_at) (sym eq)
                ∙ unended in
              let (r, owner, held) = h.owned a t old still in
              let owner' : find job_key u.job_id rows ≡ some r =
                ap (λ (z : ExecutionAttempt). find job_key z.job_id rows) eq
                ∙ ap (λ n. find job_key n rows) (ka.same_job t)
                ∙ owner in
              holder_kept f kr rows id k u.job_id r owner' (rw (← same) held)
          | inr (other, old) ↦
              let (r, owner, held) = h.owned k u old unended in
              holder_kept f kr rows id k u.job_id r owner held
        ];
    keyed_tries = IsKeyed-modify attempt_key g ka.same_id a tries h.keyed_tries;
    tokens = TokensDiffer-modify tries a g ka.same_id ka.same_token h.tokens;
  }
