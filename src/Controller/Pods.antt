-- ===== src/Controller/Pods.antt =====
-- internal/controller/reconciler.go: the labels of the pods follow the membership, first what is added
-- and then what is removed. The API server is a parameter; it keeps a state `S`. The calls are under
-- `retry.RetryOnConflict`; a merge patch without a resource version has no conflict to retry.
pub mod Loop
pub mod Exact
use pgbouncer_aurora_operato.Base.{
  if◌then◌else◌, filter, any, contains, lookup, insert, Answer, ok, failed, ◌>>=◌, String, ◌≡◌,
  Bool, true, false, not, ◌&&◌, Option, none, some, List, [], ◌∷◌, ◌==◌,
}
use pgbouncer_aurora_operato.Api.{Role}
use pgbouncer_aurora_operato.Domain.{InstancePlan}
use pgbouncer_aurora_operato.Planner.{plan, Output}
use pgbouncer_aurora_operato.Controller.Labels.{
  Labels, label_instance, text_of, label, membership_labels_exact, exact_labels, has_additions,
  added_labels,
}

-- How the server answers a patch: it holds, the pod is gone, or there is an error.
pub data Patched (S : Type 0) : Type 0 where
  patched : S → Patched S
  gone : S → Patched S
  refused : String → Patched S

-- `Get` of a pod's labels (`none` is not found) and `Patch` of them, by the pod's name.
pub record PodApi (S : Type 0) : Type 0 where
  pub get : S → String → Answer (Option Labels)
  pub patch : S → String → Labels → Patched S

-- What holds for no one else writes the labels during the patches: a patch that holds stores the
-- labels, a pod that is gone stays so, and other pods keep their labels.
pub record IsStore {S : Type 0} (api : PodApi S) : Type 0 where
  pub get-patched :
      {s s' : S} {name : String} {labels : Labels} (k : String)
      → api.patch s name labels ≡ patched s'
      → api.get s' k ≡ (if name == k then ok (some labels) else api.get s k)
  pub get-gone :
      {s s' : S} {name : String} {labels : Labels} (k : String)
      → api.patch s name labels ≡ gone s'
      → api.get s' k ≡ (if name == k then ok none else api.get s k)

abbrev pub active_plan_instances : List InstancePlan → List InstancePlan
active_plan_instances = filter (λ plan. not plan.disabled)

unfoldable pub instance_roles_from : List (String × Role) → List InstancePlan → List (String × Role)
instance_roles_from out [] = out
instance_roles_from out (plan ∷ plans) =
    instance_roles_from (if plan.name == "" then out else insert plan.name plan.role out) plans

unfoldable pub instance_role_set : List InstancePlan → List (String × Role)
instance_role_set plans = instance_roles_from [] plans

-- `writer`, `reader` and `roles` as the two functions take them.
pub record Desired : Type 0 where
  pub writer : List String
  pub reader : List String
  pub roles : List (String × Role)

unfoldable pub desired_labels : Output → Desired
desired_labels plan = record {
  writer = plan.membership.writer;
  reader = plan.membership.reader;
  roles = instance_role_set (active_plan_instances plan.instances);
}

module _ (desired : Desired) where
  abbrev pub desired_writer : Labels → Bool
  desired_writer labels = contains desired.writer (label labels label_instance)

  abbrev pub desired_reader : Labels → Bool
  desired_reader labels = contains desired.reader (label labels label_instance)

  abbrev pub desired_role : Labels → Role
  desired_role labels = text_of (lookup (label labels label_instance) desired.roles)

  unfoldable pub is_exact : Labels → Bool
  is_exact labels =
      membership_labels_exact labels (desired_writer labels) (desired_reader labels)
        (desired_role labels)

  unfoldable pub to_exact : Labels → Labels
  to_exact labels =
      exact_labels labels (desired_writer labels) (desired_reader labels) (desired_role labels)

  unfoldable pub is_covered : Labels → Bool
  is_covered labels =
      has_additions labels (desired_writer labels) (desired_reader labels) (desired_role labels)

  unfoldable pub to_covered : Labels → Labels
  to_covered labels =
      added_labels labels (desired_writer labels) (desired_reader labels) (desired_role labels)

-- The state after a patch, and whether the pod is still there.
abbrev pub after_patch : {S : Type 0} → Patched S → Answer (S × Bool)
after_patch (patched s) = ok (s, true)
after_patch (gone s) = ok (s, false)
after_patch (refused error) = failed error

-- A pod that is read gets other labels, unless they are as they should be already.
abbrev pub update_found :
    {S : Type 0}
    → PodApi S
    → (Labels → Bool)
    → (Labels → Labels)
    → S
    → String
    → Answer (Option Labels)
    → Answer (S × Bool)
update_found api is_done change s name (failed error) = failed error
update_found api is_done change s name (ok none) = ok (s, false)
update_found api is_done change s name (ok (some labels)) =
    if is_done labels then ok (s, true) else after_patch (api.patch s name (change labels))

module _ {S : Type 0} (api : PodApi S) (desired : Desired) where
  unfoldable pub patch_pod_membership_additions : S → String → Answer (S × Bool)
  patch_pod_membership_additions s name =
      update_found api (is_covered desired) (to_covered desired) s name (api.get s name)

  unfoldable pub patch_pod_membership_exact : S → String → Answer (S × Bool)
  patch_pod_membership_exact s name =
      update_found api (is_exact desired) (to_exact desired) s name (api.get s name)

-- A loop over the pods' names that stops at the first error; with the names of the pods that are
-- still there.
unfoldable pub for_each_pod :
    {S : Type 0} → (S → String → Answer (S × Bool)) → S → List String → Answer (S × List String)
for_each_pod update s [] = ok (s, [])
for_each_pod update s (name ∷ names) = do
  r ← update s name
  later ← for_each_pod update r.0 names
  ok (later.0, if r.1 then name ∷ later.1 else later.1)

-- `pods` is the answer of the list call.
unfoldable pub patch_pod_membership :
    {S : Type 0} → PodApi S → Output → S → Answer (List String) → Answer S
patch_pod_membership api plan s pods = do
  names ← pods
  added ← for_each_pod (patch_pod_membership_additions api (desired_labels plan)) s names
  exact ← for_each_pod (patch_pod_membership_exact api (desired_labels plan)) added.0 added.1
  ok exact.0

-- The drift check of the reconcile: some pod of an instance has other labels than the plan wants.
unfoldable pub pod_membership_label_drifted : Output → List Labels → Bool
pod_membership_label_drifted plan pods =
    any
      (λ labels.
        not (label labels label_instance == "") && not (is_exact (desired_labels plan) labels))
      pods
