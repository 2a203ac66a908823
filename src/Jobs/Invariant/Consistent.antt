-- ===== src/Jobs/Invariant/Consistent.antt =====
-- What holds of the tables `jobs` and `execution_attempts` between two transactions.
use galaxz.Prelude.{
  sym, ◌∙◌, refl, inl, inr, ◌++◌, [], ◌∷◌, ℕ, ◌≤◌, ◌<◌, ◌≡◌, ◌≢◌, none, some, List, ap, is_some,
  true,
}
use mathlib.Core.Path.{subst}
use galaxz.Prelude.Table.{find-modify_cases, find-append_cases, modify, key-find, find, IsKeyed}
use galaxz.Contracts.Job.{JobStatus, ExecutionAttempt}
use galaxz.Jobs.Store.{JobRow, Db}

abbrev pub job_key : JobRow → ℕ
job_key r = r.job_id

abbrev pub attempt_key : ExecutionAttempt → ℕ
attempt_key a = a.attempt_id

-- what a row of `jobs` says by itself
pub record RowOk (r : JobRow) : Type 0 where
  pub positive : 1 ≤ r.retry_policy.max_attempts
  pub bounded : r.attempt_count ≤ r.retry_policy.max_attempts
  pub claimable : r.status ≡ JobStatus.queued → r.attempt_count < r.retry_policy.max_attempts
  pub idle : r.status ≢ JobStatus.running → r.active_attempt_id ≡ none
  pub stamped : r.status ≡ JobStatus.cancelled → is_some r.cancelled_at ≡ true
  pub unstamped : r.status ≢ JobStatus.cancelled → r.cancelled_at ≡ none

-- `a`, the attempt `id`, is the open attempt of the row
pub record IsOpen (tries : List ExecutionAttempt) (r : JobRow) (id : ℕ) (a : ExecutionAttempt)
    : Type 0 where
  pub active : r.active_attempt_id ≡ some id
  pub found : find attempt_key id tries ≡ some a
  pub owner : a.job_id ≡ r.job_id
  pub unended : a.ended_at ≡ none
  pub unsettled : a.outcome ≡ none
  pub number : a.attempt_number ≡ r.attempt_count

abbrev pub Linked : List ExecutionAttempt → JobRow → Type 0
Linked tries r = (id : ℕ) × (a : ExecutionAttempt) × IsOpen tries r id a

-- the row is running under the attempt `id`
pub record IsHeldBy (r : JobRow) (id : ℕ) : Type 0 where
  pub running : r.status ≡ JobStatus.running
  pub active : r.active_attempt_id ≡ some id

abbrev pub Owned : List JobRow → ℕ → ExecutionAttempt → Type 0
Owned rows id a = (r : JobRow) × (find job_key a.job_id rows ≡ some r) × IsHeldBy r id

-- no two attempts have one lease token
abbrev pub TokensDiffer : List ExecutionAttempt → Type 0
TokensDiffer tries =
    (a b : ℕ) (t u : ExecutionAttempt)
    → find attempt_key a tries ≡ some t
    → find attempt_key b tries ≡ some u
    → t.lease_token ≡ u.lease_token
    → a ≡ b

-- No two jobs, and no two attempts, share an identifier; every row is well-formed; a running job has its open attempt;
-- an attempt that has not ended is the one that its running job names; and a
-- lease token names one attempt.
pub record Consistent (rows : List JobRow) (tries : List ExecutionAttempt) : Type 0 where
  pub keyed : IsKeyed job_key rows
  pub keyed_tries : IsKeyed attempt_key tries
  pub row_ok : (id : ℕ) (r : JobRow) → find job_key id rows ≡ some r → RowOk r
  pub linked :
      (id : ℕ) (r : JobRow)
      → find job_key id rows ≡ some r
      → r.status ≡ JobStatus.running
      → Linked tries r
  pub owned :
      (id : ℕ) (a : ExecutionAttempt)
      → find attempt_key id tries ≡ some a
      → a.ended_at ≡ none
      → Owned rows id a
  pub tokens : TokensDiffer tries

abbrev pub IsConsistent : Db → Type 0
IsConsistent db = Consistent db.jobs db.attempts

module _ (tries : List ExecutionAttempt) (a : ℕ) (g : ExecutionAttempt → ExecutionAttempt)
    (same_id : (t : ExecutionAttempt) → (g t).attempt_id ≡ t.attempt_id)
    (same_token : (t : ExecutionAttempt) → (g t).lease_token ≡ t.lease_token) where
  origin :
      (k : ℕ) (t : ExecutionAttempt)
      → find attempt_key k (modify attempt_key a g tries) ≡ some t
      → (u : ExecutionAttempt) × (find attempt_key k tries ≡ some u)
        × (t.lease_token ≡ u.lease_token)
  origin k t there = elim (find-modify_cases attempt_key g same_id a k tries t there) [
    | inl (same, p, old, eq) ↦ (
      p,
      ap (λ n. find attempt_key n tries) (sym same) ∙ old,
      ap (λ (z : ExecutionAttempt). z.lease_token) eq ∙ same_token p,
    )
    | inr (other, old) ↦ (t, old, refl)
  ]

  -- an update that leaves the tokens alone
  pub TokensDiffer-modify : TokensDiffer tries → TokensDiffer (modify attempt_key a g tries)
  TokensDiffer-modify differ b c t u there_t there_u same =
      let (t', old_t, token_t) = origin b t there_t in
      let (u', old_u, token_u) = origin c u there_u in
      differ b c t' u' old_t old_u (sym token_t ∙ same ∙ token_u)

-- a new attempt with a new token
pub TokensDiffer-append :
    (tries : List ExecutionAttempt) (t : ExecutionAttempt)
    → ((k : ℕ) (u : ExecutionAttempt)
        → find attempt_key k tries ≡ some u
        → u.lease_token ≢ t.lease_token)
    → TokensDiffer tries
    → TokensDiffer (tries ++ t ∷ [])
TokensDiffer-append tries t new differ a b p q there_p there_q same =
    elim (find-append_cases attempt_key a tries t p there_p) [
      | inl old_p ↦ elim (find-append_cases attempt_key b tries t q there_q) [
        | inl old_q ↦ differ a b p q old_p old_q same
        | inr (missing, key, eq) ↦
            absurd (new a p old_p (same ∙ ap (λ (z : ExecutionAttempt). z.lease_token) eq))
      ]
      | inr (missing, key, eq) ↦ elim (find-append_cases attempt_key b tries t q there_q) [
        | inl old_q ↦
            absurd (new b q old_q (sym same ∙ ap (λ (z : ExecutionAttempt). z.lease_token) eq))
        | inr (absent, key', eq') ↦ sym key ∙ key'
      ]
    ]

module _ {rows : List JobRow} {tries : List ExecutionAttempt} (h : Consistent rows tries) where
  -- the open attempt of a job that is held
  pub IsOpen-attempt :
      (id : ℕ) (r : JobRow) (a : ℕ)
      → find job_key id rows ≡ some r
      → IsHeldBy r a
      → (t : ExecutionAttempt) × IsOpen tries r a t
  IsOpen-attempt id r a found held =
      let (b, t, o) = h.linked id r found held.running in
      let same : b ≡ a = cc (o.active, held.active) in (t, subst (λ c. IsOpen tries r c t) same o)

  -- two jobs are not held by one attempt
  pub held_apart :
      (id k : ℕ) (r q : JobRow) (a b : ℕ)
      → find job_key id rows ≡ some r
      → find job_key k rows ≡ some q
      → IsHeldBy r a
      → IsHeldBy q b
      → id ≢ k
      → a ≢ b
  held_apart id k r q a b found there holds_r holds_q apart same =
      let (t, o) = IsOpen-attempt id r a found holds_r in
      let (u, p) = IsOpen-attempt k q b there holds_q in
      let one : t ≡ u = cc (o.found, p.found) in
      apart (
        cc (
          ap (λ (v : ExecutionAttempt). v.job_id) one,
          o.owner,
          p.owner,
          key-find job_key id rows r found,
          key-find job_key k rows q there,
        ))
