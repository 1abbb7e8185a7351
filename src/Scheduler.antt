-- ===== src/Scheduler.antt =====
-- internal/controller/scheduler.go: the jobs that run. A job is a goroutine; between its start and the
-- deferred `clearInFlight` other jobs start and end, in any order.
pub mod Exclusion
pub mod Watch
pub mod Updates
pub mod Work
mod Tests
use pgbouncer_aurora_operato.Base.{
  if◌then◌else◌, filter, contains, String, ◌^^◌, ◌≡◌, Bool, true, false, not, List, [], ◌∷◌, ◌==◌,
}

-- `kind:namespace/name`; the text of the namespaced name is `namespace/name`.
unfoldable pub in_flight_id : String → String → String → String
in_flight_id kind namespace name = kind ^^ ":" ^^ namespace ^^ "/" ^^ name

-- The keys of the map `inFlight`. The result tells whether the job may start.
unfoldable pub mark_in_flight : String → List String → Bool × List String
mark_in_flight id in_flight =
    if contains in_flight id then (false, in_flight) else (true, id ∷ in_flight)

unfoldable pub clear_in_flight : String → List String → List String
clear_in_flight id in_flight = filter (λ other. not (other == id)) in_flight

-- The map, and the jobs that have started and not ended.
pub record Jobs : Type 0 where
  pub in_flight : List String
  pub running : List String

-- `enqueueJob`, up to the start of the goroutine.
unfoldable pub enqueue_job : String → Jobs → Jobs
enqueue_job id jobs =
    let (starts, in_flight) = mark_in_flight id jobs.in_flight in
    record { in_flight = in_flight; running = if starts then id ∷ jobs.running else jobs.running }

-- One of the running jobs with the key ends.
abbrev pub end_one : String → List String → List String
end_one id [] = []
end_one id (other ∷ rest) =
    let later = end_one id rest in if other == id then rest else other ∷ later

-- The end of a job, with its deferred call.
unfoldable pub end_job : String → Jobs → Jobs
end_job id jobs = record {
  in_flight = clear_in_flight id jobs.in_flight;
  running = end_one id jobs.running;
}

-- A tick of the scheduler asks for a job, whether it runs or not; a running job ends.
pub data Step : Jobs → Jobs → Type 0 where
  asks : (id : String) {jobs : Jobs} → Step jobs (enqueue_job id jobs)
  ends : (id : String) {jobs : Jobs} → contains jobs.running id ≡ true → Step jobs (end_job id jobs)

abbrev pub no_jobs : Jobs
no_jobs = record { in_flight = []; running = [] }

pub data Reachable : Jobs → Type 0 where
  start : Reachable no_jobs
  next : {jobs jobs' : Jobs} → Reachable jobs → Step jobs jobs' → Reachable jobs'
