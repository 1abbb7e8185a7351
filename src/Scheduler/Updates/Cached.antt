-- ===== src/Scheduler/Updates/Cached.antt =====
-- internal/controller/scheduler.go: what a job stores and a reconcile reads back.
use pgbouncer_aurora_operato.Base.{
  if◌then◌else◌, Bool-cases, or_left, if_cases, if_true, if_false, or_false, is_empty, ℕ, String,
  ◌≡◌, refl, sym, ap, subst, ◌∙◌, ◌⊎◌, inl, inr, Bool, true, false, not, ◌||◌, List, [], ◌∷◌, arith,
  ◌==◌, eq_iff,
}
use pgbouncer_aurora_operato.Api.{
  PgBouncerAurora, InstanceTopologyStatus, MissingInstanceStatus, Condition, condition_true,
  condition_false, PgBouncerAuroraStatus,
}
use pgbouncer_aurora_operato.Domain.{InstanceObservation, DiscoveryResult}
use pgbouncer_aurora_operato.Planner.{plan, Output}
use pgbouncer_aurora_operato.Controller.Cache.{
  trusted_in, last_discovery_trusted, topology_observations, topology_status, cached_result,
  cached_discovery,
}
use pgbouncer_aurora_operato.Controller.Conditions.{transition_from, condition_with_transition}
use pgbouncer_aurora_operato.Controller.Stored.{is_newer}
use pgbouncer_aurora_operato.Controller.Reported.Degraded.{transition_from-KeepsStatus}
use pgbouncer_aurora_operato.Scheduler.Updates.{
  discovery_reason, discovery_status, replace_or_append, discovery_only_conditions,
  update_discovery_status, is_stale, update_monitor_status,
}

trusted_in-replace_or_append :
    (condition : Condition) (previous : List Condition)
    → condition.type ≡ "DiscoveryTrusted"
    → trusted_in (replace_or_append condition previous) ≡ (condition.status == condition_true)
unfolding trusted_in replace_or_append
trusted_in-replace_or_append condition [] e =
    if_true _ _ ((eq_iff condition.type "DiscoveryTrusted").1 e)
trusted_in-replace_or_append condition (old ∷ rest) e =
    if_cases
      (λ (conditions : List Condition).
        trusted_in conditions ≡ (condition.status == condition_true))
      (old.type == condition.type) _ _
      (λ _. if_true _ _ ((eq_iff condition.type "DiscoveryTrusted").1 e))
      λ other.
        if_false _ _ (subst (λ (s : String). old.type == s ≡ false) e other)
        ∙ trusted_in-replace_or_append condition rest e

discovery_status-true :
    (trusted : Bool)
    → (if trusted then condition_true else condition_false) == condition_true ≡ trusted
discovery_status-true true = refl
discovery_status-true false = refl

is_empty-topology_status :
    (instances : List InstanceObservation)
    → is_empty (topology_status instances) ≡ is_empty instances
is_empty-topology_status [] = refl
is_empty-topology_status (i ∷ rest) = refl

discovery_only_conditions-trusted :
    (previous : List Condition) (discovery : DiscoveryResult) (discovery_failed : Bool) (now : ℕ)
    → trusted_in (discovery_only_conditions previous discovery discovery_failed now)
      ≡ discovery.trusted
unfolding discovery_only_conditions condition_with_transition
discovery_only_conditions-trusted previous discovery discovery_failed now =
    let fresh : Condition = record {
      type = "DiscoveryTrusted";
      status = discovery_status discovery;
      reason = discovery_reason discovery discovery_failed;
      message = discovery.reason;
      last_transition_time = now;
    } in
    let kept = transition_from-KeepsStatus fresh previous in
    trusted_in-replace_or_append (transition_from fresh previous) previous kept.0
    ∙ ap (λ s. s == condition_true) kept.1
    ∙ discovery_status-true discovery.trusted

observations-topology_status :
    (instances : List InstanceObservation)
    → topology_observations (topology_status instances) ≡ instances
observations-topology_status [] = refl
observations-topology_status (i ∷ rest) = ap (λ is. i ∷ is) (observations-topology_status rest)

module _ (hash_topology : List InstanceTopologyStatus → String) (resource : PgBouncerAurora)
    (discovery : DiscoveryResult) (missing : List MissingInstanceStatus) (discovery_failed : Bool)
    (now : ℕ) where
  abbrev pub stored : PgBouncerAurora
  stored = record resource {
    status =
        update_discovery_status hash_topology discovery missing discovery_failed now
          resource.status;
  }

  stored_trusted :
      is_newer resource.status.last_discovery_time now ≡ false
      → last_discovery_trusted stored ≡ discovery.trusted
  unfolding last_discovery_trusted update_discovery_status
  stored_trusted current =
      ap (λ (s : PgBouncerAuroraStatus). trusted_in s.conditions) (if_false _ _ current)
      ∙ discovery_only_conditions-trusted resource.status.conditions discovery discovery_failed now

  stored_topology :
      is_newer resource.status.last_discovery_time now ≡ false
      → discovery.trusted ≡ true
      → stored.status.last_known_topology ≡ topology_status discovery.instances
  unfolding update_discovery_status
  stored_topology current trusted =
      ap (λ (s : PgBouncerAuroraStatus). s.last_known_topology) (if_false _ _ current)
      ∙ ap (λ (s : PgBouncerAuroraStatus). s.last_known_topology) (if_true _ _ trusted)

  -- If no later discovery is stored, then a reconcile after the job has written trusts the cached discovery
  -- just if the job's result, with at least one instance, is trusted, and reads back the instances of it.
  pub cached_discovery-stored :
      is_newer resource.status.last_discovery_time now ≡ false
      → is_empty discovery.instances ≡ false
      → ((cached_discovery stored).trusted ≡ discovery.trusted)
        × (cached_discovery stored).instances
          ≡ (if discovery.trusted then discovery.instances else [])
  unfolding cached_discovery cached_result
  cached_discovery-stored current some_instance = elim (Bool-cases discovery.trusted) [
    | inl e ↦
        let known = stored_topology current e in
        let read =
          if_false
            {b = not (last_discovery_trusted stored) || is_empty stored.status.last_known_topology}
            _ _
            (or_false (ap not (stored_trusted current ∙ e))
              (ap is_empty known ∙ is_empty-topology_status discovery.instances ∙ some_instance)) in
        (
          ap (λ (d : DiscoveryResult). d.trusted) read ∙ sym e,
          ap (λ (d : DiscoveryResult). d.instances) read
              ∙ ap topology_observations known
              ∙ observations-topology_status discovery.instances
              ∙ sym (if_true _ _ e),
        )
    | inr e ↦
        let read =
          if_true
            {b = not (last_discovery_trusted stored) || is_empty stored.status.last_known_topology}
            _ _
            (or_left (is_empty stored.status.last_known_topology)
              (ap not (stored_trusted current ∙ e))) in
        (
          ap (λ (d : DiscoveryResult). d.trusted) read ∙ sym e,
          ap (λ (d : DiscoveryResult). d.instances) read ∙ sym (if_false _ _ e),
        )
  ]

-- Suppose that the hashes of the stored and of the monitored topology are not empty, and differ if the
-- topologies do, and that the stored hash is that of the stored topology. Then a monitor job leaves the status
-- as it is, or it monitored the stored topology.
pub update_monitor_status-same_topology :
    (hash_topology : List InstanceTopologyStatus → String)
    (role_service_name : String → String → String) (discovery : DiscoveryResult) (plan : Output)
    (monitor_err : String) (now : ℕ) (fresh : PgBouncerAurora)
    → (hash_topology fresh.status.last_known_topology
          ≡ hash_topology (topology_status discovery.instances)
        → fresh.status.last_known_topology ≡ topology_status discovery.instances)
    → hash_topology fresh.status.last_known_topology == "" ≡ false
    → hash_topology (topology_status discovery.instances) == "" ≡ false
    → fresh.status.topology_hash ≡ hash_topology fresh.status.last_known_topology
    → (update_monitor_status hash_topology role_service_name discovery plan monitor_err now fresh
        ≡ fresh.status)
      ⊎ (fresh.status.last_known_topology ≡ topology_status discovery.instances)
unfolding update_monitor_status
update_monitor_status-same_topology hash_topology role_service_name discovery plan monitor_err now
      fresh injective stored_shown monitored_shown hashed =
    let s = fresh.status in
    let monitored = hash_topology (topology_status discovery.instances) in
    elim (Bool-cases (is_newer s.last_monitor_time now)) [
      | inl newer ↦ inl (if_true _ _ newer)
      | inr current ↦ elim (Bool-cases (is_stale hash_topology discovery s)) [
        | inl stale ↦ inl (if_false _ _ current ∙ if_true _ _ stale)
        | inr same ↦
            let left : s.topology_hash == "" ≡ false =
              subst (λ (h : String). h == "" ≡ false) (sym hashed) stored_shown in
            let equal : s.topology_hash == monitored ≡ true =
              ground (arith, left, monitored_shown, same) in
            inr (injective (sym hashed ∙ (eq_iff s.topology_hash monitored).0 equal))
      ]
    ]
