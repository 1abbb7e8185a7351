-- ===== src/Controller/Stored/Agrees.antt =====
-- internal/controller/reconciler.go: what the stored status has to do with the plan.
use pgbouncer_aurora_operato.Base.{
  if_cases, if_true, if_false, is_empty, any, contains, String, ◌≡◌, refl, ap, ◌∙◌, Bool, true,
  false, not, ◌&&◌, ◌||◌, List, [], ◌∷◌, arith, ◌==◌, eq_refl,
}
use pgbouncer_aurora_operato.Api.{Condition, PgBouncerAuroraStatus}
use pgbouncer_aurora_operato.Planner.{plan, Output}
use pgbouncer_aurora_operato.Controller.Membership.{membership_changed}
use pgbouncer_aurora_operato.Controller.Membership.Sets.{AreDistinct, membership_changed-same}
use pgbouncer_aurora_operato.Controller.Stored.{
  Results, Hashes, records_discovery, records_monitor, store_discovery_time, store_monitor_time,
  store_topology, store_instances, members_changed, store_membership, updated_status,
}

contains_each :
    (xs ys : List String)
    → ((name : String) → contains ys name ≡ true → contains xs name ≡ true)
    → any (λ value. not (contains xs value)) ys ≡ false
contains_each xs [] h = refl
contains_each xs (y ∷ ys) h =
    let here : contains xs y ≡ true = h y (ground (arith, eq_refl y)) in
    let rest = contains_each xs ys (λ name inside. h name (ground (arith, inside))) in
    ground (arith, here, rest)

membership_changed_self : (xs : List String) → membership_changed xs xs ≡ false
unfolding membership_changed
membership_changed_self xs = ground (arith, contains_each xs xs (λ name h. h))

members_changed_self :
    (plan : Output)
    → members_changed
        (record { writer = plan.membership.writer; reader = plan.membership.reader })
        plan
      ≡ false
members_changed_self plan = ground (
  arith,
  membership_changed_self plan.membership.writer,
  membership_changed_self plan.membership.reader,
)

store_membership-agrees :
    (r : Results) (fresh : PgBouncerAuroraStatus)
    → r.plan.frozen ≡ false
    → members_changed (store_membership r fresh).last_applied_membership r.plan ≡ false
unfolding store_membership
store_membership-agrees r fresh live =
    if_cases
      (λ (status : PgBouncerAuroraStatus).
        members_changed status.last_applied_membership r.plan ≡ false)
      r.plan.frozen _ _ (λ frozen. cc)
      λ _.
        if_cases (λ membership. members_changed membership r.plan ≡ false)
          (members_changed fresh.last_applied_membership r.plan) _ _
          (λ _. members_changed_self r.plan) (λ same. same)

or_silent : (a : Bool) {b : Bool} → (a || b) ≡ false → (a ≡ false) × (b ≡ false)
or_silent true h = cc
or_silent false h = (refl, h)

store_topology-untrusted :
    (hashes : Hashes) (r : Results) (recorded : Bool) (fresh : PgBouncerAuroraStatus)
    → r.discovery.trusted ≡ false
    → store_topology hashes r recorded fresh ≡ fresh
unfolding store_topology
store_topology-untrusted hashes r recorded fresh h =
    if_false _ _ (ap (λ b. b && recorded) h)
    ∙ if_false _ _ (
        ap
          (λ b.
            b
            && not r.discovery_ran
            && not (hashes.missing fresh.missing_instances == hashes.missing r.missing_instances))
          h)

store_frozen :
    (r : Results) (recorded : Bool) (fresh : PgBouncerAuroraStatus)
    → r.plan.frozen ≡ true
    → store_membership r (store_instances r recorded fresh) ≡ fresh
unfolding store_membership store_instances
store_frozen r recorded fresh h =
    if_true _ _ h ∙ if_false _ _ (ap (λ b. not b && (recorded || is_empty fresh.instances)) h)

-- Two statuses with the same topology, missing instances, instances and applied membership.
pub record SameState (a b : PgBouncerAuroraStatus) : Type 0 where
  pub topology : a.last_known_topology ≡ b.last_known_topology
  pub missing : a.missing_instances ≡ b.missing_instances
  pub instances : a.instances ≡ b.instances
  pub membership : a.last_applied_membership ≡ b.last_applied_membership
  pub applied : a.last_applied_time ≡ b.last_applied_time

same_state : (a : PgBouncerAuroraStatus) → SameState a a
same_state a = record {
  topology = refl;
  missing = refl;
  instances = refl;
  membership = refl;
  applied = refl;
}

timed-SameState :
    (r : Results) (fresh : PgBouncerAuroraStatus)
    → SameState (store_monitor_time r (store_discovery_time r fresh)) fresh
unfolding store_monitor_time store_discovery_time
timed-SameState r fresh =
    let discovered =
      if_cases (λ s. SameState s fresh) (records_discovery r fresh) _ _
        (λ _. record {
          topology = refl;
          missing = refl;
          instances = refl;
          membership = refl;
          applied = refl;
        })
        (λ _. same_state fresh) in
    if_cases (λ s. SameState s fresh) (records_monitor r (store_discovery_time r fresh)) _ _
      (λ _. record {
        topology = discovered.topology;
        missing = discovered.missing;
        instances = discovered.instances;
        membership = discovered.membership;
        applied = discovered.applied;
      })
      (λ _. discovered)

module _ (hashes : Hashes) (role_service_name : String → String → String)
    (conditions_for : List Condition → List Condition) (r : Results)
    (fresh : PgBouncerAuroraStatus) where
  -- If the plan is not frozen, and its membership names no one twice, then the stored membership names the same
  -- instances as the plan's, for the writer and for the reader.
  pub updated_status-agrees :
      r.plan.frozen ≡ false
      → AreDistinct r.plan.membership.writer
      → AreDistinct r.plan.membership.reader
      → (name : String)
      → (let stored =
            (updated_status hashes role_service_name conditions_for r
              fresh).last_applied_membership in
          (contains stored.writer name ≡ contains r.plan.membership.writer name)
          × (contains stored.reader name ≡ contains r.plan.membership.reader name))
  unfolding updated_status
  updated_status-agrees live writers readers name =
      let stored = store_membership r (
        store_instances r (records_monitor r fresh) (
          store_topology hashes r (records_discovery r fresh)
            (store_monitor_time r (store_discovery_time r fresh)))) in
      let kept = stored.last_applied_membership in
      let same = or_silent _ (store_membership-agrees r _ live) in
      (
        membership_changed-same kept.writer r.plan.membership.writer writers same.0 name,
        membership_changed-same kept.reader r.plan.membership.reader readers same.1 name,
      )

  -- After a discovery that is not trusted, with the frozen plan it leads to, the stored topology, missing
  -- instances, instances, applied membership and its time stay as they are.
  pub updated_status-SameState :
      r.discovery.trusted ≡ false
      → r.plan.frozen ≡ true
      → SameState (updated_status hashes role_service_name conditions_for r fresh) fresh
  unfolding updated_status
  updated_status-SameState untrusted frozen =
      let timed = store_monitor_time r (store_discovery_time r fresh) in
      let recorded = records_discovery r fresh in
      let same =
        store_frozen r (records_monitor r fresh) (store_topology hashes r recorded timed) frozen
        ∙ store_topology-untrusted hashes r recorded timed untrusted in
      let kept = timed-SameState r fresh in
      record {
        topology = ap (λ s. s.last_known_topology) same ∙ kept.topology;
        missing = ap (λ s. s.missing_instances) same ∙ kept.missing;
        instances = ap (λ s. s.instances) same ∙ kept.instances;
        membership = ap (λ s. s.last_applied_membership) same ∙ kept.membership;
        applied = ap (λ s. s.last_applied_time) same ∙ kept.applied;
      }
