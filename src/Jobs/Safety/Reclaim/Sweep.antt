-- ===== src/Jobs/Safety/Reclaim/Sweep.antt =====
-- The whole loop of `reclaim_expired`.
use galaxz.Prelude.{
  err, ◌>>=◌, ℕ, List, [], ◌∷◌, ◌≡◌, ◌≢◌, refl, true, inl, inr, some, none, Result, ok, arith, ◌==◌,
  Bool-cases,
}
use galaxz.Prelude.Table.{All, All-map, All-both, All-absent, IsKeyed, find, select}
use galaxz.Prelude.Table.Select.{All-select, IsKeyed-select}
use galaxz.Contracts.Job.{JobStatus}
use galaxz.Jobs.Store.{JobRow, Db, find_job}
use galaxz.Jobs.Backoff.{retry_delay}
use galaxz.Jobs.Reclaim.{lease_expired, reclaim_one, reclaim_all}
use galaxz.Jobs.Invariant.Consistent.{IsConsistent, job_key}
use galaxz.Jobs.Safety.Post.{After, After-map}
use galaxz.Jobs.Safety.Reclaim.{Reclaimed, round, written_row, expired_running}

abbrev IsRunning : Db → JobRow → Type 0
IsRunning db r = (find_job r.job_id db ≡ some r) × (r.status ≡ JobStatus.running)

-- what the loop over `rows` does to the tables
pub record Swept (now : ℕ) (rows : List JobRow) (db d : Db) : Type 0 where
  pub consistent : IsConsistent d
  pub kept :
      (k : ℕ) (q : JobRow)
      → find job_key k rows ≡ none
      → find_job k db ≡ some q
      → find_job k d ≡ some q
  pub still_over :
      (k : ℕ) (q : JobRow)
      → find_job k d ≡ some q
      → lease_expired now d q ≡ true
      → (find job_key k rows ≡ none) × (find_job k db ≡ some q) × (lease_expired now db q ≡ true)
  pub moved :
      (k : ℕ) (r : JobRow)
      → find job_key k rows ≡ some r
      → (delay : ℕ) × (retry_delay r.retry_policy r.attempt_count ≡ ok delay)
        × (find_job k d ≡ some (written_row now r delay r))

Swept-none : (now : ℕ) (db : Db) → IsConsistent db → Swept now [] db db
unfolding find
Swept-none now db h = record {
  consistent = h;
  kept = λ k q none_left there. there;
  still_over = λ k q there over. (refl, there, over);
  moved = λ k r e. absurd (ground arith);
}

module _ (now : ℕ) (r : JobRow) (rows : List JobRow) (db d e : Db)
    (absent : find job_key r.job_id rows ≡ none) (one : Reclaimed now r db d)
    (rest : Swept now rows d e) where
  Swept-one : Swept now (r ∷ rows) db e
  unfolding find
  Swept-one = record {
    consistent = rest.consistent;
    kept =
        λ k q out there. rest.kept k q (ground arith) (one.others k q (λ same. ground arith) there);
    still_over = λ k q there over.
        let (out, old, was) = rest.still_over k q there over in
        let (other, older, before) = one.still_over k q old was in (ground arith, older, before);
    moved = λ k q there. elim (Bool-cases (r.job_id == k)) [
      | inl same ↦
          let (delay, within, moved) = one.mine in
          let mine : q ≡ r = ground arith in
          let key : k ≡ r.job_id = ground arith in
          rw (mine, key)
            (delay, within, rest.kept r.job_id (written_row now r delay r) absent moved)
      | inr other ↦ rest.moved k q (ground arith)
    ];
  }

-- the rows that are left are still as they were selected
still-IsRunning :
    (now : ℕ) (r : JobRow) (rows : List JobRow) (db d : Db)
    → find job_key r.job_id rows ≡ none
    → Reclaimed now r db d
    → All (IsRunning db) rows
    → All (IsRunning d) rows
still-IsRunning now r rows db d absent one running =
    All-map _ (IsRunning d) rows (λ q h. (one.others q.job_id q h.0 h.1.0, h.1.1))
      (All-both (λ q. r.job_id ≢ q.job_id) (IsRunning db) rows
        (All-absent job_key r.job_id rows absent) running)

then_sweep :
    (now : ℕ) (r : JobRow) (rows : List JobRow) (db : Db) (s : Result Db)
    → find job_key r.job_id rows ≡ none
    → All (IsRunning db) rows
    → ((d : Db)
        → IsConsistent d
        → All (IsRunning d) rows
        → After (Swept now rows d) (reclaim_all now rows d))
    → After (Reclaimed now r db) s
    → After (Swept now (r ∷ rows) db) (do d ← s; reclaim_all now rows d)
then_sweep now r rows db (err x) absent running rest one = tt
then_sweep now r rows db (ok d) absent running rest one =
    After-map (Swept now rows d) (Swept now (r ∷ rows) db) (reclaim_all now rows d)
      (λ e. Swept-one now r rows db d e absent one)
      (rest d one.consistent (still-IsRunning now r rows db d absent one running))

sweep :
    (now : ℕ) (rows : List JobRow) (db : Db)
    → IsConsistent db
    → IsKeyed job_key rows
    → All (IsRunning db) rows
    → After (Swept now rows db) (reclaim_all now rows db)
unfolding reclaim_all
sweep now [] db h keyed running = Swept-none now db h
sweep now (r ∷ rows) db h keyed running =
    then_sweep now r rows db (reclaim_one now r db) keyed.0 running.1
      (λ d consistent left. sweep now rows d consistent keyed.1 left)
      (round now r db h running.0.0 running.0.1)

module _ (now : ℕ) (db : Db) (h : IsConsistent db) where
  abbrev expired : List JobRow
  expired = select (lease_expired now db) db.jobs

  expired-IsRunning : All (IsRunning db) expired
  expired-IsRunning =
      All-map _ (IsRunning db) expired (λ r e. (e.0, expired_running now db r e.1))
        (All-select job_key (lease_expired now db) db.jobs h.keyed)

  pub swept : After (Swept now expired db) (reclaim_all now expired db)
  swept =
      sweep now expired db h (IsKeyed-select job_key (lease_expired now db) db.jobs h.keyed)
        expired-IsRunning
