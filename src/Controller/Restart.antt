-- ===== src/Controller/Restart.antt =====
-- internal/controller/reconciler.go: deployments that restart after a change of the writer. The API server
-- is a parameter with a state `S`, as for the pods; the name of a deployment is `InstanceResourceName` of
-- internal/render/resources.go, and `hash_token` the hash of the payload. An update that conflicts is
-- tried again by the client library after a new read; `update` answers for the last try.
use pgbouncer_aurora_operato.Base.{
  if◌then◌else◌, Bool-cases, is_empty, All, All-map, sort_strings, contains, contains-sort_strings,
  lookup, insert, lookup-insert, Answer, ok, failed, map_answer, String, ◌≡◌, refl, ap, subst, ◌∙◌,
  inl, inr, Bool, true, not, ◌||◌, Option, none, some, List, [], ◌∷◌, ◌++◌, map, arith, ◌==◌,
  eq_iff, eq_refl,
}
use pgbouncer_aurora_operato.Api.{PgBouncerAurora, keep_existing, restart_writers, restart_all}
use pgbouncer_aurora_operato.Planner.{plan, Output, last_writer}
use pgbouncer_aurora_operato.Controller.Labels.{Labels, text_of, label}
use pgbouncer_aurora_operato.Controller.Missing.{add_candidate}
use pgbouncer_aurora_operato.Controller.Missing.Candidates.{contains-add_candidate}
use pgbouncer_aurora_operato.Controller.Pods.{
  Patched, patched, gone, refused, PodApi, IsStore, active_plan_instances, update_found,
  for_each_pod,
}
use pgbouncer_aurora_operato.Controller.Pods.Loop.{Passes, IsFault, EndAll, for_each_pod-EndAll}
use pgbouncer_aurora_operato.Controller.Membership.{
  membership_changed, InstanceApplyShape, instance_apply_shape_from_plan,
}

abbrev pub restarted_at_annotation : String
restarted_at_annotation = "pgbouncer-aurora.io/restarted-at"

unfoldable pub effective_writer_change_connection_handling : PgBouncerAurora → String
effective_writer_change_connection_handling resource =
    if resource.spec.topology_policy.writer_change_connection_handling == ""
    then restart_writers
    else resource.spec.topology_policy.writer_change_connection_handling

-- The keys of the set of some names, sorted.
unfoldable pub distinct : List String → List String
distinct [] = []
distinct (name ∷ names) = add_candidate name (distinct names)

unfoldable pub sorted_bool_map_keys : List String → List String
sorted_bool_map_keys names = sort_strings (distinct names)

-- The names that are to restart; an unknown policy restarts none.
unfoldable pub restart_targets : String → PgBouncerAurora → Output → Option (List String)
restart_targets policy resource plan =
    if policy == restart_writers
    then some (last_writer resource ++ plan.membership.writer)
    else if policy == restart_all
    then some (map (λ p. p.name) (active_plan_instances plan.instances) ++ last_writer resource)
    else none

pub record WriterRestartTokenPayload : Type 0 where
  pub policy : String
  pub previous_writer : List String
  pub desired_writer : List String
  pub restart_targets : List String
  pub instances : List InstanceApplyShape

unfoldable pub writer_restart_token :
    (WriterRestartTokenPayload → String) → PgBouncerAurora → Output → String → List String → String
writer_restart_token hash_token resource plan policy names = hash_token (record {
  policy = policy;
  previous_writer = sort_strings (last_writer resource);
  desired_writer = sort_strings plan.membership.writer;
  restart_targets = sorted_bool_map_keys names;
  instances = instance_apply_shape_from_plan plan.instances;
})

-- `Get` of the annotations of a deployment's pod template and `Update` of them, by name.
pub record DeploymentApi (S : Type 0) : Type 0 where
  pub get : S → String → Answer (Option Labels)
  pub update : S → String → Labels → Answer S

abbrev pub updated : {S : Type 0} → Answer S → Patched S
updated (ok s) = patched s
updated (failed error) = refused error

-- The calls in the form of those on pods; an update of a deployment that is gone is an error.
abbrev pub deployment_calls : {S : Type 0} → DeploymentApi S → PodApi S
deployment_calls api = record {
  get = api.get;
  patch = λ s name annotations. updated (api.update s name annotations);
}

abbrev pub is_restarted : String → Labels → Bool
is_restarted token annotations = label annotations restarted_at_annotation == token

abbrev pub restarted : String → Labels → Labels
restarted token annotations = insert restarted_at_annotation token annotations

module _ {S : Type 0} (api : DeploymentApi S) (resource_name : String → String → String) where
  unfoldable pub restart_instance_deployments :
      PgBouncerAurora → S → List String → String → Answer S
  restart_instance_deployments resource s instance_names token =
      map_answer (λ r. r.0)
        (for_each_pod
          (λ s' name.
            update_found (deployment_calls api) (is_restarted token) (restarted token) s' name
              (api.get s' name))
          s (map (resource_name resource.name) (sorted_bool_map_keys instance_names)))

  -- The last step, for the names that are to restart.
  abbrev pub restart_named :
      (WriterRestartTokenPayload → String)
      → PgBouncerAurora
      → Output
      → S
      → String
      → Option (List String)
      → Answer S
  restart_named hash_token resource plan s policy none = ok s
  restart_named hash_token resource plan s policy (some names) =
      restart_instance_deployments resource s names
        (writer_restart_token hash_token resource plan policy names)

  unfoldable pub handle_writer_change_connection :
      (WriterRestartTokenPayload → String) → PgBouncerAurora → Output → S → Answer S
  handle_writer_change_connection hash_token resource plan s =
      let policy = effective_writer_change_connection_handling resource in
      if policy == keep_existing
        || not (membership_changed (last_writer resource) plan.membership.writer)
        || is_empty (last_writer resource)
      then ok s
      else restart_named hash_token resource plan s policy (restart_targets policy resource plan)

-- What holds for no one else writes the annotations during the restarts.
pub record IsDeploymentStore {S : Type 0} (api : DeploymentApi S) : Type 0 where
  pub get-updated :
      {s s' : S} {name : String} {annotations : Labels} (k : String)
      → api.update s name annotations ≡ ok s'
      → api.get s' k ≡ (if name == k then ok (some annotations) else api.get s k)

state_of_patched : {S : Type 0} → S → Patched S → S
state_of_patched s (patched s') = s'
state_of_patched s (gone s') = s'
state_of_patched s (refused error) = s

updated-patched :
    {S : Type 0} (s s' : S) (answer : Answer S) → updated answer ≡ patched s' → answer ≡ ok s'
unfolding state_of_patched
updated-patched s s' (ok s'') e = ap (λ p. ok (state_of_patched s p)) e
updated-patched s s' (failed error) e = cc

updated-gone : {S : Type 0} (s' : S) (answer : Answer S) → updated answer ≡ gone s' → ⊥
updated-gone s' (ok s'') e = cc
updated-gone s' (failed error) e = cc

deployment_calls-IsStore :
    {S : Type 0} (api : DeploymentApi S) → IsDeploymentStore api → IsStore (deployment_calls api)
deployment_calls-IsStore api store = record {
  get-patched = λ {s} {s'} {name} {labels} k e.
      store.get-updated k (updated-patched s s' (api.update s name labels) e);
  get-gone = λ {s} {s'} {name} {labels} k e. absurd (updated-gone s' (api.update s name labels) e);
}

abbrev pub carries : String → Labels → Bool
carries token annotations = text_of (lookup "pgbouncer-aurora.io/restarted-at" annotations) == token

-- Every named deployment that there is carries the token; an error is one that some call gave.
abbrev pub RestartedAfter :
    {S : Type 0} → DeploymentApi S → String → List String → Answer S → Type 0
RestartedAfter api token names (failed error) = IsFault (deployment_calls api) error
RestartedAfter api token names (ok s) = All (λ k. Passes (carries token) (api.get s k)) names

restarted-is_restarted :
    (token : String) (annotations : Labels)
    → is_restarted token (restarted token annotations) ≡ true
restarted-is_restarted token annotations =
    ap (λ o. text_of o == token)
      (lookup-insert restarted_at_annotation restarted_at_annotation token annotations)
    ∙ eq_refl token

contains-distinct :
    (names : List String) (k : String) → contains (distinct names) k ≡ contains names k
unfolding distinct
contains-distinct [] k = refl
contains-distinct (name ∷ names) k =
    contains-add_candidate name k (distinct names) ∙ ground (arith, contains-distinct names k)

contains-sorted_bool_map_keys :
    (names : List String) (k : String) → contains (sorted_bool_map_keys names) k ≡ contains names k
unfolding sorted_bool_map_keys
contains-sorted_bool_map_keys names k =
    contains-sort_strings (distinct names) k ∙ contains-distinct names k

All-contains :
    (P : String → Type 0) (f : String → String) (names : List String) (k : String)
    → All P (map f names)
    → contains names k ≡ true
    → P (f k)
All-contains P f [] k h inside = cc
All-contains P f (name ∷ names) k h inside = elim (Bool-cases (name == k)) [
  | inl same ↦ subst (λ n. P (f n)) ((eq_iff name k).0 same) h.0
  | inr other ↦ All-contains P f names k h.1 (ground (arith, other, inside))
]

-- What holds for the keys holds for all names.
All-names :
    (P : String → Type 0) (f : String → String) (keys names : List String)
    → All P (map f keys)
    → All (λ name. contains keys name ≡ true) names
    → All P (map f names)
All-names P f keys [] h inside = tt
All-names P f keys (name ∷ names) h inside =
    (All-contains P f keys name h inside.0, All-names P f keys names h inside.1)

All-own : (names : List String) → All (λ name. contains names name ≡ true) names
All-own [] = tt
All-own (name ∷ names) = (
  ground (arith, eq_refl name),
  All-map (λ k. contains names k ≡ true) (λ k inside. ground (arith, inside)) names (All-own names),
)

restart_instance_deployments-RestartedKeys :
    {S : Type 0} (api : DeploymentApi S) (resource_name : String → String → String)
    (resource : PgBouncerAurora) (s : S) (instance_names : List String) (token : String)
    → IsDeploymentStore api
    → RestartedAfter api token
        (map (resource_name resource.name) (sorted_bool_map_keys instance_names))
        (restart_instance_deployments api resource_name resource s instance_names token)
unfolding restart_instance_deployments
restart_instance_deployments-RestartedKeys {S = S} api resource_name resource s instance_names token
      store =
    let names = map (resource_name resource.name) (sorted_bool_map_keys instance_names) in
    let calls = deployment_calls api in
    after
      (for_each_pod
        (λ s' name.
          update_found calls (is_restarted token) (restarted token) s' name (api.get s' name))
        s names)
      (for_each_pod-EndAll calls (deployment_calls-IsStore api store) (is_restarted token)
        (restarted token) (restarted-is_restarted token) s names)
  where
    after :
        (answer : Answer (S × List String))
        → EndAll
            (deployment_calls api)
            (deployment_calls-IsStore api store)
            (is_restarted token)
            (restarted token)
            (restarted-is_restarted token)
            (map (resource_name resource.name) (sorted_bool_map_keys instance_names))
            answer
        → RestartedAfter api token
            (map (resource_name resource.name) (sorted_bool_map_keys instance_names))
            (map_answer (λ r. r.0) answer)
    after (failed error) e = e
    after (ok (s', live)) e = e.0

-- After a restart of some instances the deployment of each of them, if it is there, carries the token, whatever
-- it carried before; an error is one that some call of the API server gave.
pub restart_instance_deployments-RestartedAfter :
    {S : Type 0} (api : DeploymentApi S) (resource_name : String → String → String)
    (resource : PgBouncerAurora) (s : S) (instance_names : List String) (token : String)
    → IsDeploymentStore api
    → RestartedAfter api token
        (map (resource_name resource.name) instance_names)
        (restart_instance_deployments api resource_name resource s instance_names token)
restart_instance_deployments-RestartedAfter {S = S} api resource_name resource s instance_names
      token store =
    to_names (restart_instance_deployments api resource_name resource s instance_names token) (
      restart_instance_deployments-RestartedKeys api resource_name resource s instance_names token
        store)
  where
    to_names :
        (answer : Answer S)
        → RestartedAfter api token
            (map (resource_name resource.name) (sorted_bool_map_keys instance_names))
            answer
        → RestartedAfter api token (map (resource_name resource.name) instance_names) answer
    to_names (failed error) e = e
    to_names (ok s') e =
        All-names (λ k. Passes (carries token) (api.get s' k)) (resource_name resource.name)
          (sorted_bool_map_keys instance_names) instance_names e
          (All-map (λ k. contains instance_names k ≡ true)
            (λ k inside. contains-sorted_bool_map_keys instance_names k ∙ inside) instance_names
            (All-own instance_names))
