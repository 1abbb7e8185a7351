-- ===== src/Scheduler/Tests.antt =====
-- A run of the scheduler: a job is asked for twice, and another one ends in between.
mod Updates
use pgbouncer_aurora_operato.Base.{String, ◌≡◌, refl, [], ◌∷◌}
use pgbouncer_aurora_operato.Scheduler.{
  mark_in_flight, clear_in_flight, Jobs, enqueue_job, end_job, asks, ends, no_jobs, Reachable,
  start, next,
}
use pgbouncer_aurora_operato.Scheduler.Exclusion.{IsExclusive, Reachable-IsExclusive}

abbrev discovery_job : String
discovery_job = "discovery:default/pool"

abbrev monitor_job : String
monitor_job = "monitor:default/pool"

abbrev sample_jobs : Jobs
sample_jobs =
    enqueue_job discovery_job
      (end_job monitor_job (enqueue_job monitor_job (enqueue_job discovery_job no_jobs)))

sample_jobs-Reachable : Reachable sample_jobs
unfolding enqueue_job mark_in_flight
sample_jobs-Reachable =
    next (next (next (next start (asks discovery_job)) (asks monitor_job)) (ends monitor_job refl))
      (asks discovery_job)

one_discovery_runs : sample_jobs.running ≡ discovery_job ∷ []
unfolding enqueue_job mark_in_flight end_job clear_in_flight
one_discovery_runs = refl

Reachable-IsExclusive_example : IsExclusive sample_jobs
Reachable-IsExclusive_example = Reachable-IsExclusive sample_jobs-Reachable
