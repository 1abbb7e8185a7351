-- ===== src/Scheduler/Watch.antt =====
-- internal/controller/scheduler.go: which resources the operator works on, and what a tick asks for.
pub mod Names
use pgbouncer_aurora_operato.Base.{
  if◌then◌else◌, is_empty, any, trim_space, split_commas, Answer, ok, failed, ℕ, String, Bool, true,
  not, ◌&&◌, ◌||◌, List, [], ◌∷◌, ◌++◌, ◌==◌,
}
use pgbouncer_aurora_operato.Api.{PgBouncerAurora}
use pgbouncer_aurora_operato.Controller.Due.{discovery_due, monitor_due}
use pgbouncer_aurora_operato.Scheduler.{in_flight_id, Jobs, enqueue_job}

unfoldable pub matches_watch_names : String → String → Bool
matches_watch_names watch_names name =
    let names = trim_space watch_names in
    if names == "" || names == "*"
    then true
    else any (λ part. trim_space part == "*" || trim_space part == name) (split_commas names)

-- The jobs of a tick for one resource, in their order.
unfoldable pub jobs_due : PgBouncerAurora → ℕ → List String
jobs_due resource now =
    (if discovery_due resource now
      then in_flight_id "discovery" resource.namespace resource.name ∷ []
      else [])
    ++ (if monitor_due resource now && not (is_empty resource.status.last_known_topology)
        then in_flight_id "monitor" resource.namespace resource.name ∷ []
        else [])

unfoldable pub enqueue_all : List String → Jobs → Jobs
enqueue_all [] jobs = jobs
enqueue_all (id ∷ ids) jobs = enqueue_all ids (enqueue_job id jobs)

-- The loop over the resources that the API lists.
unfoldable pub enqueue_listed : String → ℕ → List PgBouncerAurora → Jobs → Jobs
enqueue_listed watch_name now [] jobs = jobs
enqueue_listed watch_name now (resource ∷ rest) jobs = enqueue_listed watch_name now rest (
    if matches_watch_names watch_name resource.name
    then enqueue_all (jobs_due resource now) jobs
    else jobs)

-- A list that fails asks for nothing.
unfoldable pub enqueue_due_jobs : String → String → ℕ → Answer (List PgBouncerAurora) → Jobs → Jobs
enqueue_due_jobs namespace watch_name now (failed error) jobs = jobs
enqueue_due_jobs namespace watch_name now (ok resources) jobs =
    if trim_space namespace == "" then jobs else enqueue_listed watch_name now resources jobs
