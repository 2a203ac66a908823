-- ===== src/Tests/Sweeps.antt =====
-- The sweep of a job that has been tried too often.
use galaxz.Prelude.{◌≡◌, refl, some, [], ◌∷◌, err, true, overflow_error, arith}
use galaxz.Contracts.Job.{ExecutionAttempt, default_retry_policy}
use galaxz.Jobs.Store.{JobRow, Db, find_job}
use galaxz.Jobs.Reclaim.{reclaim_expired, lease_expired}
use galaxz.Jobs.Invariant.Consistent.{IsConsistent}
use galaxz.Jobs.Recovery.{reclaim_expired-blocked}
use galaxz.Tests.Jobs.{program, claimed_b}
use galaxz.Tests.Runs.{row_b, attempt_b}

-- a job at its 1025th attempt
abbrev long_row : JobRow
long_row = record row_b {
  retry_policy = record default_retry_policy { max_attempts = 2000 };
  attempt_count = 1025;
}

abbrev long_attempt : ExecutionAttempt
long_attempt = record attempt_b { attempt_number = 1025 }

abbrev long_run : Db
long_run = record claimed_b { jobs = long_row ∷ []; attempts = long_attempt ∷ [] }

long_run-IsConsistent : IsConsistent long_run
unfolding program
long_run-IsConsistent = record {
  keyed = (refl, tt);
  keyed_tries = (refl, tt);
  row_ok = λ id r e.
      let same : r ≡ long_row = ground arith in
      rw same (record {
        positive = ground arith;
        bounded = ground arith;
        claimable = λ e. cc;
        idle = λ e. absurd (e refl);
        stamped = λ e. cc;
        unstamped = λ e. refl;
      });
  linked = λ id r e runs.
      let same : r ≡ long_row = ground arith in
      rw same (
        201,
        long_attempt,
        record {
          active = refl;
          found = refl;
          owner = refl;
          unended = refl;
          unsettled = refl;
          number = refl;
        },
      );
  owned = λ id a e unended.
      let same : a ≡ long_attempt = ground arith in
      let which : id ≡ 201 = ground arith in
      rw (same, which) (long_row, refl, record { running = refl; active = refl });
  tokens = λ a b t u there_t there_u same. ground arith;
}

long_late : lease_expired 50 long_run long_row ≡ true
unfolding program
long_late = refl

long_found : find_job 102 long_run ≡ some long_row
unfolding program
long_found = refl

reclaim_expired-blocked_example :
    (long_run ≡ (reclaim_expired 50 long_run).0)
    × ((reclaim_expired 50 long_run).1 ≡ err overflow_error)
reclaim_expired-blocked_example =
    reclaim_expired-blocked 50 long_run long_run-IsConsistent 102 long_row long_found long_late
      (ground arith)
