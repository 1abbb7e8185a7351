-- ===== src/Scheduler/Exclusion.antt =====
-- internal/controller/scheduler.go: no two jobs of one kind and one resource run at a time.
use pgbouncer_aurora_operato.Base.{
  ltb, if◌then◌else◌, count, contains, contains-filter, ◌-◌, ◌≤◌, String, ◌≡◌, refl, false, not,
  List, [], ◌∷◌, arith, ◌==◌, eq_iff,
}
use pgbouncer_aurora_operato.Scheduler.{
  mark_in_flight, clear_in_flight, Jobs, enqueue_job, end_one, end_job, asks, ends, Reachable,
  start, next,
}

-- Each key is in flight just if one job with it runs, and no two run.
pub record IsExclusive (jobs : Jobs) : Type 0 where
  pub flight : (id : String) → contains jobs.in_flight id ≡ contains jobs.running id
  pub single : (id : String) → count (λ job. job == id) jobs.running ≤ 1

contains-clear :
    (id k : String) (ids : List String)
    → contains (clear_in_flight id ids) k ≡ (if contains ids k then not (k == id) else false)
unfolding clear_in_flight
contains-clear id k ids = contains-filter (λ other. not (other == id)) ids k

count-contains :
    (ids : List String) (k : String) → contains ids k ≡ ltb 0 (count (λ job. job == k) ids)
count-contains [] k = refl
count-contains (id ∷ ids) k = ground (arith, count-contains ids k)

count-end_one :
    (id k : String) (ids : List String)
    → count (λ job. job == k) (end_one id ids)
      ≡ (if id == k then count (λ job. job == k) ids - 1 else count (λ job. job == k) ids)
count-end_one id k [] = ground arith
count-end_one id k (job ∷ jobs) = ground (
  arith,
  eq_iff job id,
  eq_iff id k,
  eq_iff job k,
  count-end_one id k jobs,
  count-contains jobs k,
)

enqueue_job-IsExclusive :
    (id : String) (jobs : Jobs) → IsExclusive jobs → IsExclusive (enqueue_job id jobs)
unfolding enqueue_job mark_in_flight
enqueue_job-IsExclusive id jobs e = record {
  flight = λ k. ground (arith, e.flight k);
  single = λ k. ground (
    arith,
    e.flight id,
    e.single k,
    eq_iff id k,
    count-contains jobs.running id,
    count-contains jobs.running k,
  );
}

end_job-IsExclusive : (id : String) (jobs : Jobs) → IsExclusive jobs → IsExclusive (end_job id jobs)
unfolding end_job
end_job-IsExclusive id jobs e = record {
  flight = λ k. ground (
    arith,
    contains-clear id k jobs.in_flight,
    e.flight k,
    e.single k,
    eq_iff id k,
    eq_iff k id,
    count-end_one id k jobs.running,
    count-contains jobs.running k,
    count-contains (end_one id jobs.running) k,
  );
  single = λ k. ground (arith, count-end_one id k jobs.running, e.single k);
}

-- In every state that the scheduler reaches, whatever the order in which jobs are asked for and end, at
-- most one job runs for each key, and the key is in flight just while it does.
pub Reachable-IsExclusive : {jobs : Jobs} → Reachable jobs → IsExclusive jobs
Reachable-IsExclusive start = record { flight = λ id. refl; single = λ id. omega arith }
Reachable-IsExclusive (next {jobs = jobs} r (asks id)) =
    enqueue_job-IsExclusive id jobs (Reachable-IsExclusive r)
Reachable-IsExclusive (next {jobs = jobs} r (ends id h)) =
    end_job-IsExclusive id jobs (Reachable-IsExclusive r)
