-- ===== src/Scheduler/Updates/Order.antt =====
-- internal/controller/scheduler.go and reconciler.go: the discovery job, the monitor job and the reconcile
-- write one status, in any order. The API server refuses a write that is not made from the stored status.
use pgbouncer_aurora_operato.Base.{
  leb, if_cases, and_elim, is_false, is_empty, ℕ, String, ◌≡◌, refl, sym, ap, subst, ◌∙◌, ◌⊎◌, inl,
  inr, Bool, true, false, not, ◌&&◌, ◌||◌, Option, none, some, List, arith, ◌==◌,
}
use pgbouncer_aurora_operato.Api.{
  PgBouncerAurora, InstanceTopologyStatus, MissingInstanceStatus, Condition, PgBouncerAuroraStatus,
}
use pgbouncer_aurora_operato.Domain.{DiscoveryResult}
use pgbouncer_aurora_operato.Planner.{plan, Output}
use pgbouncer_aurora_operato.Controller.Stored.{
  Results, Hashes, is_newer, records_discovery, records_monitor, store_discovery_time,
  store_monitor_time, store_topology, store_instances, store_membership, updated_status,
}
use pgbouncer_aurora_operato.Scheduler.Updates.{
  update_discovery_status, is_stale, update_monitor_status,
}

-- `none`, then earlier times, then later ones.
abbrev pub time_le : Option ℕ → Option ℕ → Bool
time_le none later = true
time_le (some earlier) none = false
time_le (some earlier) (some later) = leb earlier later

time_le_refl : (t : Option ℕ) → time_le t t ≡ true
time_le_refl none = refl
time_le_refl (some t) = ground arith

time_le_trans : (a b c : Option ℕ) → time_le a b ≡ true → time_le b c ≡ true → time_le a c ≡ true
time_le_trans none b c h k = refl
time_le_trans (some a) none c h k = cc
time_le_trans (some a) (some b) none h k = cc
time_le_trans (some a) (some b) (some c) h k = ground (arith, h, k)

is_newer-le : (t : Option ℕ) (now : ℕ) → is_newer t now ≡ false → time_le t (some now) ≡ true
is_newer-le none now h = refl
is_newer-le (some t) now h = ground (arith, h)

-- Neither of the two times has gone back, and the hash is that of the topology or both are as they were.
pub record Follows (hash_topology : List InstanceTopologyStatus → String)
    (before after : PgBouncerAuroraStatus) : Type 0 where
  pub discovered : time_le before.last_discovery_time after.last_discovery_time ≡ true
  pub monitored : time_le before.last_monitor_time after.last_monitor_time ≡ true
  pub hashed :
      (after.topology_hash ≡ hash_topology after.last_known_topology)
      ⊎ ((after.topology_hash ≡ before.topology_hash)
          × (after.last_known_topology ≡ before.last_known_topology))

hashed_trans :
    (hash_topology : List InstanceTopologyStatus → String) (a b c : PgBouncerAuroraStatus)
    → (b.topology_hash ≡ hash_topology b.last_known_topology)
      ⊎ ((b.topology_hash ≡ a.topology_hash) × (b.last_known_topology ≡ a.last_known_topology))
    → (c.topology_hash ≡ hash_topology c.last_known_topology)
      ⊎ ((c.topology_hash ≡ b.topology_hash) × (c.last_known_topology ≡ b.last_known_topology))
    → (c.topology_hash ≡ hash_topology c.last_known_topology)
      ⊎ ((c.topology_hash ≡ a.topology_hash) × (c.last_known_topology ≡ a.last_known_topology))
hashed_trans hash_topology a b c h (inl k) = inl k
hashed_trans hash_topology a b c (inl h) (inr k) = inl (k.0 ∙ h ∙ ap hash_topology (sym k.1))
hashed_trans hash_topology a b c (inr h) (inr k) = inr (k.0 ∙ h.0, k.1 ∙ h.1)

Follows-refl :
    (hash_topology : List InstanceTopologyStatus → String) (s : PgBouncerAuroraStatus)
    → Follows hash_topology s s
Follows-refl hash_topology s = record {
  discovered = time_le_refl s.last_discovery_time;
  monitored = time_le_refl s.last_monitor_time;
  hashed = inr (refl, refl);
}

Follows-trans :
    (hash_topology : List InstanceTopologyStatus → String) (a b c : PgBouncerAuroraStatus)
    → Follows hash_topology a b
    → Follows hash_topology b c
    → Follows hash_topology a c
Follows-trans hash_topology a b c h k = record {
  discovered =
      time_le_trans a.last_discovery_time b.last_discovery_time c.last_discovery_time h.discovered
        k.discovered;
  monitored =
      time_le_trans a.last_monitor_time b.last_monitor_time c.last_monitor_time h.monitored
        k.monitored;
  hashed = hashed_trans hash_topology a b c h.hashed k.hashed;
}

same_times :
    {hash_topology : List InstanceTopologyStatus → String} (s t : PgBouncerAuroraStatus)
    → t.last_discovery_time ≡ s.last_discovery_time
    → t.last_monitor_time ≡ s.last_monitor_time
    → t.topology_hash ≡ s.topology_hash
    → t.last_known_topology ≡ s.last_known_topology
    → Follows hash_topology s t
same_times {hash_topology = hash_topology} s t d m h k = record {
  discovered =
      subst (λ u. time_le s.last_discovery_time u ≡ true) (sym d)
        (time_le_refl s.last_discovery_time);
  monitored =
      subst (λ u. time_le s.last_monitor_time u ≡ true) (sym m) (time_le_refl s.last_monitor_time);
  hashed = inr (h, k);
}

module _ (hashes : Hashes) (role_service_name : String → String → String) where
  -- One write by one of the three, with whatever results.
  pub data Write : PgBouncerAuroraStatus → PgBouncerAuroraStatus → Type 0 where
    by_discovery_job :
        (discovery : DiscoveryResult) (missing : List MissingInstanceStatus)
        (discovery_failed : Bool) (now : ℕ) (s : PgBouncerAuroraStatus)
        → Write s (update_discovery_status hashes.topology discovery missing discovery_failed now s)
    by_monitor_job :
        (discovery : DiscoveryResult) (plan : Output) (monitor_err : String) (now : ℕ)
        (fresh : PgBouncerAurora)
        → Write fresh.status (
            update_monitor_status hashes.topology role_service_name discovery plan monitor_err now
              fresh)
    by_reconcile :
        (conditions : List Condition → List Condition) (results : Results)
        (s : PgBouncerAuroraStatus)
        → Write s (updated_status hashes role_service_name conditions results s)

  pub data Writes : PgBouncerAuroraStatus → PgBouncerAuroraStatus → Type 0 where
    done : {s : PgBouncerAuroraStatus} → Writes s s
    then_one : {s t u : PgBouncerAuroraStatus} → Writes s t → Write t u → Writes s u

  update_discovery_status-Follows :
      (discovery : DiscoveryResult) (missing : List MissingInstanceStatus) (discovery_failed : Bool)
      (now : ℕ) (s : PgBouncerAuroraStatus)
      → Follows hashes.topology s
          (update_discovery_status hashes.topology discovery missing discovery_failed now s)
  unfolding update_discovery_status
  update_discovery_status-Follows discovery missing discovery_failed now s =
      if_cases (Follows hashes.topology s) (is_newer s.last_discovery_time now) _ _
        (λ _. Follows-refl hashes.topology s)
        λ current. record {
          discovered = is_newer-le s.last_discovery_time now current;
          monitored =
              if_cases
                (λ (t : PgBouncerAuroraStatus).
                  time_le s.last_monitor_time t.last_monitor_time ≡ true)
                discovery.trusted _ _ (λ _. time_le_refl s.last_monitor_time)
                (λ _. time_le_refl s.last_monitor_time);
          hashed =
              if_cases
                (λ (t : PgBouncerAuroraStatus).
                  (t.topology_hash ≡ hashes.topology t.last_known_topology)
                  ⊎ ((t.topology_hash ≡ s.topology_hash)
                      × (t.last_known_topology ≡ s.last_known_topology)))
                discovery.trusted _ _ (λ _. inl refl) (λ _. inr (refl, refl));
        }

  update_monitor_status-Follows :
      (discovery : DiscoveryResult) (plan : Output) (monitor_err : String) (now : ℕ)
      (fresh : PgBouncerAurora)
      → Follows hashes.topology fresh.status (
          update_monitor_status hashes.topology role_service_name discovery plan monitor_err now
            fresh)
  unfolding update_monitor_status
  update_monitor_status-Follows discovery plan monitor_err now fresh =
      let s = fresh.status in
      if_cases (Follows hashes.topology s) (is_newer s.last_monitor_time now) _ _
        (λ _. Follows-refl hashes.topology s)
        λ current.
          if_cases (Follows hashes.topology s) (is_stale hashes.topology discovery s) _ _
            (λ _. Follows-refl hashes.topology s)
            λ _. record {
              discovered = time_le_refl s.last_discovery_time;
              monitored = is_newer-le s.last_monitor_time now current;
              hashed = inr (refl, refl);
            }

  store_discovery_time-Follows :
      (r : Results) (s : PgBouncerAuroraStatus)
      → Follows hashes.topology s (store_discovery_time r s)
  unfolding store_discovery_time
  store_discovery_time-Follows r s =
      if_cases (Follows hashes.topology s) (records_discovery r s) _ _
        (λ recorded. record {
          discovered =
              is_newer-le s.last_discovery_time r.now
                (is_false (and_elim r.discovery_ran _ recorded).1);
          monitored = time_le_refl s.last_monitor_time;
          hashed = inr (refl, refl);
        })
        (λ _. Follows-refl hashes.topology s)

  store_monitor_time-Follows :
      (r : Results) (s : PgBouncerAuroraStatus) → Follows hashes.topology s (store_monitor_time r s)
  unfolding store_monitor_time
  store_monitor_time-Follows r s =
      if_cases (Follows hashes.topology s) (records_monitor r s) _ _
        (λ recorded. record {
          discovered = time_le_refl s.last_discovery_time;
          monitored =
              is_newer-le s.last_monitor_time r.now
                (is_false (and_elim r.monitor_ran _ recorded).1);
          hashed = inr (refl, refl);
        })
        (λ _. Follows-refl hashes.topology s)

  store_topology-Follows :
      (r : Results) (recorded : Bool) (s : PgBouncerAuroraStatus)
      → Follows hashes.topology s (store_topology hashes r recorded s)
  unfolding store_topology
  store_topology-Follows r recorded s =
      if_cases (Follows hashes.topology s) (r.discovery.trusted && recorded) _ _
        (λ _. record {
          discovered = time_le_refl s.last_discovery_time;
          monitored = time_le_refl s.last_monitor_time;
          hashed = inl refl;
        })
        λ _.
          if_cases (Follows hashes.topology s)
            (r.discovery.trusted
              && not r.discovery_ran
              && not (hashes.missing s.missing_instances == hashes.missing r.missing_instances))
            (record s { missing_instances = r.missing_instances }) s
            (λ _.
              same_times s (record s { missing_instances = r.missing_instances }) refl refl refl
                refl)
            (λ _. Follows-refl hashes.topology s)

  store_instances-Follows :
      (r : Results) (recorded : Bool) (s : PgBouncerAuroraStatus)
      → Follows hashes.topology s (store_instances r recorded s)
  unfolding store_instances
  store_instances-Follows r recorded s =
      if_cases (Follows hashes.topology s) (not r.plan.frozen && (recorded || is_empty s.instances))
        _ _ (λ _. same_times s _ refl refl refl refl) (λ _. Follows-refl hashes.topology s)

  store_membership-Follows :
      (r : Results) (s : PgBouncerAuroraStatus) → Follows hashes.topology s (store_membership r s)
  unfolding store_membership
  store_membership-Follows r s =
      if_cases (Follows hashes.topology s) r.plan.frozen _ _ (λ _. Follows-refl hashes.topology s)
        (λ _. same_times s _ refl refl refl refl)

  updated_status-Follows :
      (conditions : List Condition → List Condition) (r : Results) (s : PgBouncerAuroraStatus)
      → Follows hashes.topology s (updated_status hashes role_service_name conditions r s)
  unfolding updated_status
  updated_status-Follows conditions r s =
      let discovered = store_discovery_time r s in
      let timed = store_monitor_time r discovered in
      let known = store_topology hashes r (records_discovery r s) timed in
      let stored = store_instances r (records_monitor r s) known in
      Follows-trans hashes.topology s discovered _ (store_discovery_time-Follows r s) (
        Follows-trans hashes.topology discovered timed _ (store_monitor_time-Follows r discovered) (
          Follows-trans hashes.topology timed known _
            (store_topology-Follows r (records_discovery r s) timed)
            (Follows-trans hashes.topology known stored _
              (store_instances-Follows r (records_monitor r s) known)
              (Follows-trans hashes.topology stored (store_membership r stored) _
                (store_membership-Follows r stored)
                (same_times (store_membership r stored) _ refl refl refl refl)))))

  Write-Follows :
      {before after : PgBouncerAuroraStatus}
      → Write before after
      → Follows hashes.topology before after
  Write-Follows (by_discovery_job discovery missing discovery_failed now s) =
      update_discovery_status-Follows discovery missing discovery_failed now s
  Write-Follows (by_monitor_job discovery plan monitor_err now fresh) =
      update_monitor_status-Follows discovery plan monitor_err now fresh
  Write-Follows (by_reconcile conditions r s) = updated_status-Follows conditions r s

  -- However many writes the discovery jobs, the monitor jobs and the reconciles make, in whatever order and
  -- with whatever results, the stored discovery time and the stored monitor time never go back, and the
  -- stored hash is that of the stored topology, if both are not just as they were at the start.
  pub Writes-Follows :
      {before after : PgBouncerAuroraStatus}
      → Writes before after
      → Follows hashes.topology before after
  Writes-Follows (done {s = s}) = Follows-refl hashes.topology s
  Writes-Follows (then_one {s = s} {t = t} {u = u} writes write) =
      Follows-trans hashes.topology s t u (Writes-Follows writes) (Write-Follows write)
