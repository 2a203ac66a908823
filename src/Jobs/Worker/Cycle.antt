-- ===== src/Jobs/Worker/Cycle.antt =====
-- On the main loop of core/jobs/worker.py: its bound on executions, and its stop.
use galaxz.Prelude.{
  is_ok, ℕ, ◌≤◌, ◌<◌, ◌≡◌, refl, ap, inl, inr, Bool, true, ◌||◌, Option, none, some, List, [], ◌∷◌,
  length, leb, Result, ok, err, Bool-cases, arith, if◌then◌else◌,
}
use galaxz.Prelude.Table.{select}
use galaxz.Contracts.Job.{Job, ExecutionAttempt}
use galaxz.Jobs.Store.{Db}
use galaxz.Jobs.Claim.{Ids, claim}
use galaxz.Jobs.Reclaim.{reclaim_expired}
use galaxz.Jobs.Worker.{
  WorkerConfig, WorkerState, running_futures, start_claimed, cycle_claimed, any_job,
  cycle_reclaimed, run_cycle,
}

running-le :
    (done : ℕ → Bool) (active : List ℕ) → length (running_futures done active) ≤ length active
unfolding running_futures select
running-le done [] = ground arith
running-le done (a ∷ as') = ground (arith, running-le done as')

-- the futures of a state are within the concurrency
abbrev pub IsWithin : WorkerConfig → WorkerState → Type 0
IsWithin c w = length w.active ≤ c.concurrency

claimed-IsWithin :
    (c : WorkerConfig) (w : WorkerState) (b : Bool)
    (r : Db × Result (Option (Job × ExecutionAttempt)))
    → length w.active < c.concurrency
    → IsWithin c (cycle_claimed w b r).1.0
unfolding cycle_claimed start_claimed
claimed-IsWithin c w b (db, err e) room = ground arith
claimed-IsWithin c w b (db, ok none) room = ground arith
claimed-IsWithin c w b (db, ok (some p)) room = ground arith

reclaimed-IsWithin :
    (c : WorkerConfig) (ids : Ids) (now : ℕ) (w : WorkerState) (r : Db × Result (List Job))
    → IsWithin c w
    → IsWithin c (cycle_reclaimed c ids now w r).1.0
unfolding cycle_reclaimed
reclaimed-IsWithin c ids now w (db, err e) h = h
reclaimed-IsWithin c ids now w (db, ok jobs) h =
    elim (Bool-cases (w.stopping || leb c.concurrency (length w.active))) [
      | inl full ↦ rw full h
      | inr room ↦ rw room (
          claimed-IsWithin c w (any_job jobs) (claim c.worker_id c.lease_seconds now ids db)
            (ground arith))
    ]

reclaimed-stops :
    (c : WorkerConfig) (ids : Ids) (now : ℕ) (w : WorkerState) (r : Db × Result (List Job))
    → w.stopping ≡ true
    → ((cycle_reclaimed c ids now w r).0 ≡ r.0) × ((cycle_reclaimed c ids now w r).1.0 ≡ w)
unfolding cycle_reclaimed
reclaimed-stops c ids now w (db, err e) stops = (refl, refl)
reclaimed-stops c ids now w (db, ok jobs) stops = rw stops (refl, refl)

-- A cycle keeps the number of active executions within the concurrency, whether it returns or
-- raises; and once the worker is stopping, a cycle starts nothing, and at most takes back leases that
-- are over.
pub run_cycle-IsWithin :
    (c : WorkerConfig) (hook : Result (Unit {0})) (done : ℕ → Bool) (ids : Ids) (swept now : ℕ)
    (w : WorkerState) (db : Db)
    → IsWithin c w
    → IsWithin c (run_cycle c hook done ids swept now w db).1.0
      × (w.stopping ≡ true
          → ((run_cycle c hook done ids swept now w db).1.0.active
              ≡ (if is_ok hook then running_futures done w.active else w.active))
            × ((run_cycle c hook done ids swept now w db).0
                ≡ (if is_ok hook then (reclaim_expired swept db).0 else db)))
unfolding run_cycle
run_cycle-IsWithin c (err e) done ids swept now w db h = (h, λ stops. (refl, refl))
run_cycle-IsWithin c (ok u) done ids swept now w db h =
    let v : WorkerState = record w { active = running_futures done w.active } in
    let within : IsWithin c v = ground (arith, running-le done w.active, h) in
    (
      reclaimed-IsWithin c ids now v (reclaim_expired swept db) within,
      λ stops.
          let (same_db, same) = reclaimed-stops c ids now v (reclaim_expired swept db) stops in
          (ap (λ (z : WorkerState). z.active) same, same_db),
    )
