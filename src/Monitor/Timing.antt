-- ===== src/Monitor/Timing.antt =====
-- internal/monitor/probe.go: how many workers probe, and how long they may. A `time.Duration` and an `int` are
-- `int64` bit patterns.
use pgbouncer_aurora_operato.Base.{
  ltb, if◌then◌else◌, count, int64_mod, int64_pos, int64_lt, ℕ, zero, suc, ◌+◌, ◌*◌, ◌/◌, ◌%◌, ◌≤◌,
  ◌<◌, ◌&&◌, arith,
}
use pgbouncer_aurora_operato.Api.{PgBouncerAurora}
use pgbouncer_aurora_operato.Controller.Due.{second}

abbrev pub default_workers_per_cr : ℕ
default_workers_per_cr = 10

unfoldable pub workers_per_cr : ℕ → ℕ → ℕ
workers_per_cr workers ready_count =
    let limit = if int64_pos workers then workers else default_workers_per_cr in
    if ltb 0 ready_count && ltb ready_count limit then ready_count else limit

unfoldable pub monitor_probe_timeout : PgBouncerAurora → ℕ
monitor_probe_timeout resource =
    if int64_pos resource.spec.monitor.timeout then resource.spec.monitor.timeout else 3 * second

unfoldable pub clamp_duration : ℕ → ℕ → ℕ → ℕ
clamp_duration value min_value max_value =
    if int64_lt value min_value
    then min_value
    else if int64_lt max_value value
    then max_value
    else value

-- `(instanceCount + concurrency - 1) / concurrency`, if both are positive.
unfoldable pub batches : ℕ → ℕ → ℕ
batches zero concurrency = 1
batches (suc count) zero = 1
batches (suc count) (suc concurrency) = (suc count + concurrency) / suc concurrency

unfoldable pub job_timeout : ℕ → ℕ → PgBouncerAurora → ℕ → ℕ
job_timeout timeout workers resource instance_count =
    if int64_pos timeout
    then timeout
    else clamp_duration
        ((batches instance_count (workers_per_cr workers instance_count)
              * monitor_probe_timeout resource
            + 2 * second)
          % int64_mod)
        (8 * second) (30 * second)

clamped_low :
    (value : ℕ) → value < int64_mod → 8 * second ≤ clamp_duration value (8 * second) (30 * second)
unfolding clamp_duration
clamped_low value below = ground arith

clamped_high :
    (value : ℕ) → value < int64_mod → clamp_duration value (8 * second) (30 * second) ≤ 30 * second
unfolding clamp_duration
clamped_high value below = ground arith

-- With some instances to probe, at least one worker runs, and at most one for each. Without a configured
-- timeout a job has between 8 and 30 seconds, whatever the spec says and even where the product overflows.
pub job_timeout-bounds :
    (workers : ℕ) (resource : PgBouncerAurora) (instance_count : ℕ)
    → 0 < instance_count
    → (1 ≤ workers_per_cr workers instance_count)
      × (workers_per_cr workers instance_count ≤ instance_count)
      × (8 * second ≤ job_timeout 0 workers resource instance_count)
      × (job_timeout 0 workers resource instance_count ≤ 30 * second)
unfolding job_timeout clamp_duration workers_per_cr
job_timeout-bounds workers resource instance_count positive =
    let value =
      (batches instance_count (workers_per_cr workers instance_count)
          * monitor_probe_timeout resource
        + 2 * second)
      % int64_mod in
    (ground arith, ground arith, clamped_low value (omega arith), clamped_high value (omega arith))
