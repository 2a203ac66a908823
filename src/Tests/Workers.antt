-- ===== src/Tests/Workers.antt =====
-- The worker at concrete inputs.
use galaxz.Prelude.{
  ℕ, ◌≡◌, ◌<◌, ◌+◌, refl, none, some, [], ◌∷◌, String, Error, err, ok, true, false, lease_conflict,
  arith,
}
use galaxz.Prelude.Int.{pos}
use galaxz.Contracts.Json.{Json}
use galaxz.Contracts.Task.{TaskContract}
use galaxz.Jobs.Store.{Db, empty, get_task}
use galaxz.Jobs.Lease.{live_attempt}
use galaxz.Jobs.Lease.Live.{IsLive-live_attempt}
use galaxz.Jobs.Enqueue.{enqueue}
use galaxz.Jobs.Claim.{claim}
use galaxz.Jobs.Reclaim.{reclaim_expired}
use galaxz.Jobs.Stale.{IsStale}
use galaxz.Jobs.Worker.{
  WorkerConfig, WorkerState, Held, Executed, Schedule, Ending, Beat, execute, finish_execution,
  beat, run_cycle, running_futures, is_late,
}
use galaxz.Jobs.Worker.Cycle.{IsWithin, run_cycle-IsWithin}
use galaxz.Jobs.Worker.Executions.{IsTheirs, execute-stale}
use galaxz.Jobs.Worker.Beats.{HasLease, beat-HasLease}
use galaxz.Prelude.Text.Uuid.{uuid_text}
use galaxz.Tests.Jobs.{program, claimed_b, queued_two}

uuid_of_one : uuid_text 0x1f ≡ "00000000-0000-0000-0000-00000000001f"
unfolding uuid_text
uuid_of_one = refl

abbrev task : TaskContract
task = record {
  task_id = 7;
  origin = "cli";
  skill = "s.t";
  payload = Json.null;
  confidence_threshold = 0;
  workspace_root = none;
}

abbrev tasked : Db
tasked =
    (claim "w" 30 20 (record { attempt_id = 201; lease_token = 301 })
      (enqueue
        (record {
          task_id = 7;
          task = some task;
          idempotency_key = "k";
          priority = pos 0;
          retry_policy = none;
        })
        10 101 empty).0).0

abbrev held : Held
held = record { job_id = 101; lease_token = 301 }

abbrev held_b : Held
held_b = record { job_id = 102; lease_token = 301 }

abbrev message : Error → String
message e = "error"

has_task : get_task 101 tasked ≡ some task
unfolding program get_task
has_task = refl

late_t : live_attempt 101 301 50 tasked ≡ err lease_conflict
unfolding program
late_t = refl

IsStale-t : IsStale tasked 101 301 50
IsStale-t r a l = cc (late_t, IsLive-live_attempt tasked 101 301 50 r a l)

-- an executor that ends at a time, with nobody else meanwhile
abbrev schedule : ℕ → Schedule
schedule ended = record {
  start = 20;
  while_running = λ db. db;
  ended = ended;
  after_refusal = λ db. db;
  reported = 60;
}

later_t : live_attempt 101 301 60 tasked ≡ err lease_conflict
unfolding program
later_t = refl

IsStale-later : IsStale tasked 101 301 60
IsStale-later r a l = cc (later_t, IsLive-live_attempt tasked 101 301 60 r a l)

execute-stale_example :
    IsTheirs message held
      (schedule 50)
      tasked
      (execute message held (Executed.returned Json.null) false (schedule 50) tasked).0
execute-stale_example =
    execute-stale message held (schedule 50) (Executed.returned Json.null) false tasked task
      has_task IsStale-t IsStale-later

ends_in_time :
    (execute message held (Executed.returned Json.null) false (schedule 45) tasked).1
    ≡ Ending.completed
unfolding program get_task execute finish_execution is_late
ends_in_time = refl

abbrev with_task : Db
with_task = record claimed_b { tasks = record { job_id = 102; task = task } ∷ [] }

completes_b :
    (execute message held_b (Executed.returned Json.null) false (schedule 45) with_task).1
    ≡ Ending.completed
unfolding program get_task execute finish_execution is_late
completes_b = refl

beat-HasLease_example :
    ((beat held_b 30 25 claimed_b).1 ≡ Beat.continues
      → (later : ℕ) → later < 25 + 30
      → HasLease (beat held_b 30 25 claimed_b).0 102 301 later)
    × ((beat held_b 30 25 claimed_b).1 ≡ Beat.stops → (beat held_b 30 25 claimed_b).0 ≡ claimed_b)
beat-HasLease_example = beat-HasLease held_b 30 25 claimed_b

beats : (beat held_b 30 25 claimed_b).1 ≡ Beat.continues
unfolding program beat is_late
beats = refl

abbrev config : WorkerConfig
config = record {
  worker_id = "w";
  concurrency = 2;
  lease_seconds = 30;
  heartbeat_seconds = 10;
  poll_seconds = 1;
}

abbrev worker : WorkerState
worker = record { active = 7 ∷ 8 ∷ []; stopping = false }

run_cycle-IsWithin_example :
    IsWithin config
      (run_cycle config
        (ok tt)
        (λ a. false)
        (record { attempt_id = 1; lease_token = 2 })
        20
        21
        worker
        queued_two).1.0
    × (false ≡ true
        → ((run_cycle config
              (ok tt)
              (λ a. false)
              (record { attempt_id = 1; lease_token = 2 })
              20
              21
              worker
              queued_two).1.0.active
            ≡ running_futures (λ a. false) (7 ∷ 8 ∷ []))
          × ((run_cycle config
                (ok tt)
                (λ a. false)
                (record { attempt_id = 1; lease_token = 2 })
                20
                21
                worker
                queued_two).0
              ≡ (reclaim_expired 20 queued_two).0))
run_cycle-IsWithin_example =
    run_cycle-IsWithin config (ok tt) (λ a. false) (record { attempt_id = 1; lease_token = 2 }) 20
      21 worker queued_two (ground arith)
