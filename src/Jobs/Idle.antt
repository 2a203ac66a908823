-- ===== src/Jobs/Idle.antt =====
-- When `claim` returns no job.
use galaxz.Prelude.{
  ℕ, String, ◌≡◌, refl, ap, sym, ◌∙◌, inl, inr, Bool, false, Option, none, some, List, [], ◌∷◌, ok,
  Bool-cases, Result-cases, Option-cases, arith, ◌==◌,
}
use galaxz.Prelude.Table.{All, select}
use galaxz.Contracts.Job.{ExecutionAttempt, validate_attempt}
use galaxz.Jobs.Store.{JobRow, Db, update_job}
use galaxz.Jobs.Lease.{insert_attempt}
use galaxz.Jobs.Claim.{
  claim, claimed_job, Ids, claimable, next_job, first_row, start_row, new_attempt, claim_row,
  claim_body,
}
use galaxz.Jobs.Invariant.Consistent.{IsConsistent}
use galaxz.Jobs.Safety.Post.{transaction-ok, err_not_ok}
use galaxz.Jobs.Selection.{unfold_refused, unfold_started, claim_timed, claim_empty}

first-none :
    (p : JobRow → Bool) (rows : List JobRow)
    → first_row (select p rows) ≡ none
    → All (λ r. p r ≡ false) rows
unfolding first_row select
first-none p [] e = tt
first-none p (r ∷ rows) e = elim (Bool-cases (p r)) [
  | inl passes ↦ absurd (ground arith)
  | inr fails ↦ (fails, first-none p rows (ground arith))
]

module _ (worker : String) (lease now : ℕ) (ids : Ids) (db d : Db) (h : IsConsistent db) where
  answers_none : (o : Option ExecutionAttempt) → claimed_job o d ≡ ok none → o ≡ none
  unfolding claimed_job
  answers_none none e = refl
  answers_none (some a) e = absurd (ground arith)

  body-none :
      claim_body worker lease now ids db ≡ ok (none, d)
      → (d ≡ db) × All (λ r. claimable now db r ≡ false) db.jobs
  unfolding claim_body claim_row next_job
  body-none e = elim (Option-cases (next_job now db)) [
    | inl idle ↦ (ground arith, first-none (claimable now db) db.jobs (unfold next_job in idle))
    | inr (r, next) ↦ elim (Result-cases (validate_attempt (new_attempt r worker lease now ids))) [
      | inr (x, refused) ↦
          absurd (ground (arith, unfold_refused worker lease now ids db d h r x next refused))
      | inl (a, valid) ↦
          elim (Result-cases
            (insert_attempt a (update_job r.job_id (start_row a.attempt_id now) db))) [
              | inr (x, failed) ↦
                  absurd (ground (arith, unfold_started worker lease now ids db d h r a next valid))
              | inl (m, done) ↦
                  absurd (ground (arith, unfold_started worker lease now ids db d h r a next valid))
            ]
    ]
  ]

  -- On consistent tables, a claim that returns no job has changed nothing, and no job can be claimed:
  -- each is not queued, not due, out of attempts or without a key.
  pub claim-none :
      claim worker lease now ids db ≡ (d, ok none)
      → (d ≡ db) × All (λ r. claimable now db r ≡ false) db.jobs
  claim-none e = elim (Bool-cases (lease == 0)) [
    | inl empty ↦
        absurd
          (err_not_ok (ap (λ z. z.1) (sym (claim_empty worker lease now ids db d h empty) ∙ e)))
    | inr some_time ↦
        let (o, body, answer) =
          transaction-ok (claim_body worker lease now ids) claimed_job db d none
            (sym (claim_timed worker lease now ids db d h some_time) ∙ e) in
        body-none (body ∙ ap (λ z. ok (z, d)) (answers_none o answer))
  ]
