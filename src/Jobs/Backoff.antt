-- ===== src/Jobs/Backoff.antt =====
-- The delay before a retry, `backoff_seconds * 2 ** max(attempt_count - 1, 0)` under the cap
-- `max_backoff_seconds` (core/jobs/repository.py). The product is one of a float and an integer: it
-- raises OverflowError if the power is beyond the floats, from 2 ** 1024.
use galaxz.Prelude.{ℕ, ◌*◌, ◌-◌, ◌^◌, min, ltb, Result, ok, err, overflow_error, if◌then◌else◌}
use galaxz.Contracts.Job.{RetryPolicy}

unfoldable pub retry_delay : RetryPolicy → ℕ → Result ℕ
retry_delay p attempt_count =
    if ltb 1024 attempt_count
    then err overflow_error
    else ok (min (p.backoff_seconds * 2 ^ (attempt_count - 1)) p.max_backoff_seconds)
