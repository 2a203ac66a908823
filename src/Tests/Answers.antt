-- ===== src/Tests/Answers.antt =====
-- The answers of `claim` and `record_failure` at concrete inputs.
use galaxz.Prelude.{◌≡◌, refl, none, ok, false}
use galaxz.Prelude.Table.{All}
use galaxz.Contracts.Job.{Job, JobStatus}
use galaxz.Jobs.Store.{JobRow, Db}
use galaxz.Jobs.Claim.{Ids, claim, claimable}
use galaxz.Jobs.Failure.{record_failure}
use galaxz.Jobs.Idle.{claim-none}
use galaxz.Jobs.Failed.{IsFailed, record_failure-IsFailed}
use galaxz.Tests.Jobs.{program, queued_two, claimed_b, failed_b}
use galaxz.Tests.Runs.{queued_two-IsConsistent, job_b}

abbrev new_ids : Ids
new_ids = record { attempt_id = 1; lease_token = 2 }

too_early : claim "w" 30 5 new_ids queued_two ≡ (queued_two, ok none)
unfolding program
too_early = refl

claim-none_example :
    (queued_two ≡ queued_two)
    × All (λ (r : JobRow). claimable 5 queued_two r ≡ false) queued_two.jobs
claim-none_example =
    claim-none "w" 30 5 new_ids queued_two queued_two queued_two-IsConsistent too_early

abbrev waiting_b : Job
waiting_b = record (job_b JobStatus.queued 25) { available_at = 1_000_025 }

abbrev after_b : Db
after_b = (record_failure failed_b 25 claimed_b).0

fails_b : record_failure failed_b 25 claimed_b ≡ (after_b, ok waiting_b)
unfolding program
fails_b = refl

record_failure-IsFailed_example : IsFailed failed_b 25 claimed_b after_b
record_failure-IsFailed_example =
    record_failure-IsFailed failed_b 25 claimed_b after_b waiting_b fails_b
