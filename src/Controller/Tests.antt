-- ===== src/Controller/Tests.antt =====
-- Each theorem about the controller at a concrete input.
mod Topology
mod Applying
mod Storing
mod Reporting
use pgbouncer_aurora_operato.Base.{
  if◌then◌else◌, if_cases, lookup, insert, lookup-insert, ok, String, ◌≡◌, refl, sym, ap, subst,
  ◌∙◌, Bool, true, false, Option, none, some, List, [], ◌∷◌, arith, ◌==◌, eq_iff,
}
use pgbouncer_aurora_operato.Api.{role_writer, role_reader}
use pgbouncer_aurora_operato.Domain.{HealthStatus}
use pgbouncer_aurora_operato.Planner.{
  physical_identity_changed, override_disables, instance_disabled,
}
use pgbouncer_aurora_operato.Samples.{sample_instance, sample_observation, sample_input}
use pgbouncer_aurora_operato.Controller.Throttle.{
  reconcile_throttle_remaining, started_at, Spaced, starts_keep_interval,
}
use pgbouncer_aurora_operato.Controller.Labels.{
  Labels, label_instance, label_role, label_writer, label_reader, bool_membership_label_exact,
  membership_labels_exact, set_bool_label, set_role_label, exact_labels,
}
use pgbouncer_aurora_operato.Controller.Pods.{
  Patched, patched, gone, refused, PodApi, IsStore, Desired, is_exact, to_exact,
  patch_pod_membership_additions, patch_pod_membership_exact, for_each_pod,
}
use pgbouncer_aurora_operato.Controller.Pods.Exact.{
  AddedAfter, patch_pod_membership_additions-AddedAfter,
}
use pgbouncer_aurora_operato.Controller.Hysteresis.{
  status_after, IsTracked, status_after-failures, status_after-successes,
}

starts_keep_interval_example :
    Spaced 5 none
      (started_at 5 "a" [] (("a", 10) ∷ ("b", 11) ∷ ("a", 12) ∷ ("a", 3) ∷ ("a", 15) ∷ []))
starts_keep_interval_example =
    starts_keep_interval 5 "a" (("a", 10) ∷ ("b", 11) ∷ ("a", 12) ∷ ("a", 3) ∷ ("a", 15) ∷ [])
      (omega arith)

started_at_five_apart :
    started_at 5 "a" [] (("a", 10) ∷ ("b", 11) ∷ ("a", 12) ∷ ("a", 3) ∷ ("a", 15) ∷ [])
    ≡ 10 ∷ 15 ∷ []
unfolding started_at reconcile_throttle_remaining
started_at_five_apart = refl

-- A server that keeps the labels in a map and never fails.
abbrev Store : Type 0
Store = List (String × Labels)

abbrev store_patch : Store → String → Labels → Option Labels → Patched Store
store_patch s name labels none = gone s
store_patch s name labels (some before) = patched (insert name labels s)

abbrev store_api : PodApi Store
store_api = record {
  get = λ s name. ok (lookup name s);
  patch = λ s name labels. store_patch s name labels (lookup name s);
}

patched_to : Patched Store → Store
patched_to (patched s) = s
patched_to (gone s) = s
patched_to (refused error) = []

store_patched :
    (s s' : Store) (name : String) (labels : Labels) (found : Option Labels) (k : String)
    → store_patch s name labels found ≡ patched s'
    → lookup k s' ≡ (if name == k then some labels else lookup k s)
unfolding patched_to
store_patched s s' name labels none k e = cc
store_patched s s' name labels (some before) k e =
    ap (lookup k) (sym (ap patched_to e)) ∙ lookup-insert name k labels s

store_gone :
    (s s' : Store) (name : String) (labels : Labels) (found : Option Labels) (k : String)
    → lookup name s ≡ found
    → store_patch s name labels found ≡ gone s'
    → lookup k s' ≡ (if name == k then none else lookup k s)
unfolding patched_to
store_gone s s' name labels none k f e =
    ap (lookup k) (sym (ap patched_to e))
    ∙ if_cases (λ o. lookup k s ≡ o) (name == k) none (lookup k s)
        (λ same. subst (λ j. lookup j s ≡ none) ((eq_iff name k).0 same) f) (λ _. refl)
store_gone s s' name labels (some before) k f e = cc

store_api-IsStore : IsStore store_api
store_api-IsStore = record {
  get-patched = λ {s} {s'} {name} {labels} k e.
      ap ok (store_patched s s' name labels (lookup name s) k e) ∙ sym (ok_if (name == k) _ _);
  get-gone = λ {s} {s'} {name} {labels} k e.
      ap ok (store_gone s s' name labels (lookup name s) k refl e) ∙ sym (ok_if (name == k) _ _);
}
  where
    ok_if : (b : Bool) (x y : Option Labels) → (if b then ok x else ok y) ≡ ok (if b then x else y)
    ok_if true x y = refl
    ok_if false x y = refl

-- `p1` was the writer's pod and is a reader's now; `p2` has no membership yet; `p3` has gone.
abbrev sample_pods : Store
sample_pods =
    ("p1", (label_instance, "db-2") ∷ (label_writer, "true") ∷ ("app", "pool") ∷ [])
    ∷ ("p2", (label_instance, "db-1") ∷ [])
    ∷ []

abbrev sample_desired : Desired
sample_desired = record {
  writer = "db-1" ∷ [];
  reader = "db-2" ∷ [];
  roles = ("db-1", role_writer) ∷ ("db-2", role_reader) ∷ [];
}

patch_pod_membership_additions-AddedAfter_example :
    AddedAfter store_api sample_desired sample_pods ("p1" ∷ "p2" ∷ "p3" ∷ []) (
      for_each_pod
        (patch_pod_membership_additions store_api sample_desired)
        sample_pods
        ("p1" ∷ "p2" ∷ "p3" ∷ []))
patch_pod_membership_additions-AddedAfter_example =
    patch_pod_membership_additions-AddedAfter store_api sample_desired sample_pods
      ("p1" ∷ "p2" ∷ "p3" ∷ []) store_api-IsStore

sample_pods_patched :
    for_each_pod
      (patch_pod_membership_exact store_api sample_desired)
      sample_pods
      ("p1" ∷ "p2" ∷ [])
    ≡ ok (
      (
        "p1",
        (label_instance, "db-2")
            ∷ ("app", "pool")
            ∷ (label_reader, "true")
            ∷ (label_role, "reader")
            ∷ [],
      )
          ∷ ("p2", (label_instance, "db-1") ∷ (label_writer, "true") ∷ (label_role, "writer") ∷ [])
          ∷ [],
      "p1" ∷ "p2" ∷ [],
    )
unfolding for_each_pod patch_pod_membership_exact is_exact membership_labels_exact
    bool_membership_label_exact to_exact exact_labels set_role_label set_bool_label
sample_pods_patched = refl

abbrev failed_health : HealthStatus
failed_health = record { healthy = false; reason = "connection refused"; ready_replicas = 1 }

abbrev passed_health : HealthStatus
passed_health = record { healthy = true; reason = ""; ready_replicas = 1 }

db_1_IsTracked :
    (healthy : Bool)
    → IsTracked sample_input
        (sample_observation "db-1" role_writer)
        (sample_instance "db-1" role_writer healthy)
unfolding instance_disabled override_disables physical_identity_changed
db_1_IsTracked healthy = record { enabled = refl; same_machine = refl }

-- The default threshold is three failures.
status_after-failures_example :
    (status_after sample_input
      (sample_observation "db-1" role_writer)
      (sample_instance "db-1" role_writer true)
      (failed_health ∷ failed_health ∷ [])).healthy
    ≡ true
status_after-failures_example =
    status_after-failures sample_input (sample_observation "db-1" role_writer)
      (sample_instance "db-1" role_writer true) failed_health (failed_health ∷ [])
      (db_1_IsTracked true) (refl, (refl, tt)) (omega arith)

-- The instance has one success already, and the default threshold is two.
status_after-successes_example :
    (status_after sample_input
      (sample_observation "db-1" role_writer)
      (sample_instance "db-1" role_writer false)
      (passed_health ∷ [])).healthy
    ≡ true
status_after-successes_example =
    status_after-successes sample_input (sample_observation "db-1" role_writer)
      (sample_instance "db-1" role_writer false) passed_health [] (db_1_IsTracked false) (refl, tt)
      (omega arith)
