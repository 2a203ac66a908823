-- ===== src/Jobs/Recovery.antt =====
-- On `reclaim_expired` of core/jobs/repository.py as a whole, its failing branch included.
use galaxz.Prelude.{
  ◌*◌, ◌^◌, ◌-◌, min, ℕ, ◌≤◌, ◌<◌, List, [], ◌∷◌, ◌≡◌, refl, sym, ◌∙◌, true, false, inl, inr, some,
  Bool-cases, ok, err, Error, overflow_error, Result-cases, arith,
}
use galaxz.Prelude.Table.{All, All-map, select}
use galaxz.Prelude.Table.Select.{All-select, find-select, find-select_out}
use galaxz.Contracts.Job.{JobStatus, Moves}
use galaxz.Jobs.Store.{JobRow, Db, find_job, transaction}
use galaxz.Jobs.Backoff.{retry_delay}
use galaxz.Jobs.Reclaim.{
  is_last, reclaim_target, reclaim_row, lease_expired, reclaim_one, reclaim_all, reclaim_body,
  reclaim_expired,
}
use galaxz.Jobs.Invariant.Consistent.{IsConsistent, job_key}
use galaxz.Jobs.Safety.Reclaim.{expired_running}
use galaxz.Jobs.Invariant.Advance.{
  IsSound, Along, Advances, unchanged, Steps-refl, running-IsUnfinished,
}
use galaxz.Jobs.Safety.Post.{After-ok}
use galaxz.Jobs.Safety.Reclaim.{written_row, target-allowed}
use galaxz.Jobs.Safety.Reclaim.Sweep.{Swept, swept}

-- the delay is computed
abbrev IsPayable : JobRow → Type 0
IsPayable r = r.attempt_count ≤ 1024

retry_delay-total :
    (r : JobRow)
    → IsPayable r
    → (delay : ℕ) × (retry_delay r.retry_policy r.attempt_count ≡ ok delay)
unfolding retry_delay
retry_delay-total r h = (
  min (r.retry_policy.backoff_seconds * 2 ^ (r.attempt_count - 1))
      r.retry_policy.max_backoff_seconds,
  ground arith,
)

reclaim_one-total :
    (now : ℕ) (r : JobRow) (db : Db) → IsPayable r → (d : Db) × (reclaim_one now r db ≡ ok d)
unfolding reclaim_one
reclaim_one-total now r db h = elim (Result-cases (reclaim_one now r db)) [
  | inl done ↦ done
  | inr (e, failed) ↦
      let (delay, within) = retry_delay-total r h in absurd (ground (arith, target-allowed r))
]

reclaim_all-total :
    (now : ℕ) (rows : List JobRow) (db : Db)
    → All IsPayable rows
    → (d : Db) × (reclaim_all now rows db ≡ ok d)
unfolding reclaim_all
reclaim_all-total now [] db h = (db, refl)
reclaim_all-total now (r ∷ rows) db h =
    let (d, one) = reclaim_one-total now r db h.0 in
    let (e, rest) = reclaim_all-total now rows d h.1 in (e, rw one rest)

reclaim_one-error :
    (now : ℕ) (r : JobRow) (db : Db) (e : Error) → reclaim_one now r db ≡ err e → e ≡ overflow_error
unfolding reclaim_one retry_delay
reclaim_one-error now r db e h = ground (arith, target-allowed r)

reclaim_all-error :
    (now : ℕ) (rows : List JobRow) (db : Db) (e : Error)
    → reclaim_all now rows db ≡ err e
    → e ≡ overflow_error
unfolding reclaim_all
reclaim_all-error now [] db e h = ground arith
reclaim_all-error now (r ∷ rows) db e h = elim (Result-cases (reclaim_one now r db)) [
  | inl (d, one) ↦ reclaim_all-error now rows d e (sym (rw one) ∙ h)
  | inr (x, one) ↦ reclaim_one-error now r db e (ground arith)
]

-- The leases that are over at `now` are taken back.
pub record IsRecovered (now : ℕ) (db d : Db) : Type 0 where
  pub consistent : IsConsistent d
  pub none_over : (k : ℕ) (q : JobRow) → find_job k d ≡ some q → lease_expired now d q ≡ false
  pub taken_back :
      (k : ℕ) (r : JobRow)
      → find_job k db ≡ some r
      → lease_expired now db r ≡ true
      → (delay : ℕ) × (retry_delay r.retry_policy r.attempt_count ≡ ok delay)
        × (find_job k d ≡ some (written_row now r delay r))
  pub kept :
      (k : ℕ) (r : JobRow)
      → find_job k db ≡ some r
      → lease_expired now db r ≡ false
      → find_job k d ≡ some r

module _ (now : ℕ) (db : Db) (h : IsConsistent db) where
  abbrev over : List JobRow
  over = select (lease_expired now db) db.jobs

  Swept-IsRecovered : (d : Db) → Swept now over db d → IsRecovered now db d
  Swept-IsRecovered d s = record {
    consistent = s.consistent;
    none_over = λ k q there. elim (Bool-cases (lease_expired now d q)) [
      | inr fine ↦ fine
      | inl late ↦
          let (out, old, was) = s.still_over k q there late in
          absurd (cc (find-select job_key (lease_expired now db) db.jobs k q h.keyed old was))
    ];
    taken_back = λ k r there late.
        s.moved k r (find-select job_key (lease_expired now db) db.jobs k r h.keyed there late);
    kept = λ k r there fine.
        s.kept k r (find-select_out job_key (lease_expired now db) db.jobs k r h.keyed there fine)
          there;
  }

  over-IsPayable :
      ((k : ℕ) (r : JobRow) → find_job k db ≡ some r → r.retry_policy.max_attempts ≤ 1024)
      → All IsPayable over
  over-IsPayable few =
      All-map _ IsPayable over
        (λ r e. omega (arith, few r.job_id r e.0, (h.row_ok r.job_id r e.0).bounded))
        (All-select job_key (lease_expired now db) db.jobs h.keyed)

  -- If no job has more than 1024 attempts, after the recovery at `now` no running job has
  -- a lease that is over, each job whose lease was over is failed if its attempts are used up and
  -- queued again after its delay if not, every other job is as it was, and the invariant holds.
  pub reclaim_expired-recovers :
      ((k : ℕ) (r : JobRow) → find_job k db ≡ some r → r.retry_policy.max_attempts ≤ 1024)
      → IsRecovered now db (reclaim_expired now db).0
  unfolding reclaim_expired reclaim_body transaction
  reclaim_expired-recovers few =
      let (d, done) = reclaim_all-total now over db (over-IsPayable few) in
      rw done (
        Swept-IsRecovered d
          (After-ok (Swept now over db) (reclaim_all now over db) d (swept now db h) done))

  -- One job whose lease is over, and whose attempt is beyond the 1024th, stops the recovery of all
  -- jobs: it raises OverflowError, and no table changes.
  pub reclaim_expired-blocked :
      (k : ℕ) (r : JobRow)
      → find_job k db ≡ some r
      → lease_expired now db r ≡ true
      → 1024 < r.attempt_count
      → (db ≡ (reclaim_expired now db).0) × ((reclaim_expired now db).1 ≡ err overflow_error)
  unfolding reclaim_expired reclaim_body transaction retry_delay
  reclaim_expired-blocked k r there late beyond = elim (Result-cases (reclaim_all now over db)) [
    | inl (d, done) ↦
        let s = After-ok (Swept now over db) (reclaim_all now over db) d (swept now db h) done in
        let (delay, within, moved) =
          s.moved k r (find-select job_key (lease_expired now db) db.jobs k r h.keyed there late) in
        absurd (ground arith)
    | inr (e, failed) ↦ rw (failed, reclaim_all-error now over db e failed) (refl, refl)
  ]

  moved-Along :
      (r : JobRow) (delay : ℕ)
      → r.status ≡ JobStatus.running
      → Along r.status (written_row now r delay r).status
  unfolding written_row reclaim_row reclaim_target
  moved-Along r delay runs = elim (Bool-cases (is_last r)) [
    | inl last ↦ simp (runs, last) (inr Moves.give_up)
    | inr again ↦ simp (runs, again) (inr Moves.retry)
  ]

  recovered-Advances : (d : Db) → IsRecovered now db d → Advances db.jobs d.jobs
  recovered-Advances d s k q there = elim (Bool-cases (lease_expired now db q)) [
    | inr fine ↦ (q, s.kept k q there fine, Steps-refl q)
    | inl late ↦
        let (delay, within, moved) = s.taken_back k q there late in
        let runs = expired_running now db q late in
        (
          written_row now q delay q,
          moved,
          ((λ final. absurd (running-IsUnfinished q runs final)), moved-Along q delay runs),
        )
  ]

  pub reclaim_expired-IsSound : IsSound db (reclaim_expired now db).0
  unfolding reclaim_expired reclaim_body transaction
  reclaim_expired-IsSound = elim (Result-cases (reclaim_all now over db)) [
    | inr (e, failed) ↦ rw failed (unchanged h)
    | inl (d, done) ↦
        let s =
          Swept-IsRecovered d
            (After-ok (Swept now over db) (reclaim_all now over db) d (swept now db h) done) in
        rw done (record { consistent = s.consistent; advances = recovered-Advances d s })
  ]
