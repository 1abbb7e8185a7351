-- ===== src/Controller/Pods/Exact.antt =====
-- internal/controller/reconciler.go: what the two passes over the pods leave behind.
use pgbouncer_aurora_operato.Base.{
  if◌then◌else◌, Bool-cases, or_left, or_right, if_cases, All, contains, lookup, Answer, ok, failed,
  String, ◌≡◌, refl, sym, ap, subst, ◌∙◌, inl, inr, Bool, true, false, not, ◌&&◌, ◌||◌, Option,
  none, some, List, ◌==◌, eq_refl,
}
use pgbouncer_aurora_operato.Api.{Role}
use pgbouncer_aurora_operato.Controller.Labels.{
  Labels, label_instance, label_role, label_writer, label_reader, text_of, label, has_additions,
  added_labels, lookup-added_labels,
}
use pgbouncer_aurora_operato.Controller.Pods.{
  PodApi, IsStore, Desired, desired_writer, desired_reader, desired_role, is_exact, is_covered,
  to_covered, patch_pod_membership_additions, for_each_pod,
}
use pgbouncer_aurora_operato.Controller.Pods.Loop.{
  Reading, Passes, IsClosed, IsFault, Keeps, for_each_pod-Keeps, EndAll, for_each_pod-EndAll,
}

covered_bool :
    (b : Bool) (o : Option String)
    → (not b || text_of (if b then some "true" else o) == "true") ≡ true
covered_bool true o = refl
covered_bool false o = refl

covered_role :
    (role : Role) (o : Option String)
    → (role == "" || text_of (if not (role == "") then some role else o) == role) ≡ true
covered_role role o = elim (Bool-cases (role == "")) [
  | inl e ↦ or_left _ e
  | inr e ↦
      or_right (role == "")
        (ap (λ b. text_of (if not b then some role else o) == role) e ∙ eq_refl role)
]

has_additions-added_labels :
    (labels : Labels) (w r : Bool) (role : Role)
    → has_additions (added_labels labels w r role) w r role ≡ true
unfolding has_additions
has_additions-added_labels labels w r role =
    rw
      (
        lookup-added_labels labels w r role label_writer,
        lookup-added_labels labels w r role label_reader,
        lookup-added_labels labels w r role label_role,
        covered_bool w (lookup label_writer labels),
        covered_bool r (lookup label_reader labels),
        covered_role role (lookup label_role labels),
      )
      refl

to_covered-is_covered :
    (desired : Desired) (labels : Labels) → is_covered desired (to_covered desired labels) ≡ true
unfolding is_covered to_covered
to_covered-is_covered desired labels =
    let w = desired_writer desired labels in
    let r = desired_reader desired labels in
    let role = desired_role desired labels in
    let same : label (added_labels labels w r role) label_instance ≡ label labels label_instance =
      ap text_of (lookup-added_labels labels w r role label_instance) in
    subst
      (λ i.
        has_additions (added_labels labels w r role) (contains desired.writer i)
          (contains desired.reader i) (text_of (lookup i desired.roles))
        ≡ true)
      (sym same) (has_additions-added_labels labels w r role)

-- The list call failed, or another call did; or the labels of every listed pod are exact.
abbrev pub ExactAfter : {S : Type 0} → PodApi S → Desired → Answer (List String) → Answer S → Type 0
ExactAfter api desired (failed error) answer = answer ≡ failed error
ExactAfter api desired (ok names) (failed error) = IsFault api error
ExactAfter api desired (ok names) (ok s) = All (λ k. Passes (is_exact desired) (api.get s k)) names

-- A label that selects the pod for a service stays, as long as there is the pod.
abbrev pub HasLabel : String → Reading → Type 0
HasLabel key (failed error) = Unit
HasLabel key (ok none) = Unit
HasLabel key (ok (some labels)) = (label labels key == "true") ≡ true

-- After the first pass every pod is a member wherever it was one before, and a listed pod wherever the
-- plan wants it.
abbrev pub AddedAfter :
    {S : Type 0} → PodApi S → Desired → S → List String → Answer (S × List String) → Type 0
AddedAfter api desired s names (failed error) = IsFault api error
AddedAfter api desired s names (ok (s', live)) =
    All (λ k. Passes (is_covered desired) (api.get s' k)) names
    × ((k : String) → HasLabel label_writer (api.get s k) → HasLabel label_writer (api.get s' k))
    × ((k : String) → HasLabel label_reader (api.get s k) → HasLabel label_reader (api.get s' k))

to_covered-HasLabel :
    (desired : Desired) (key : String)
    → (label_role == key) ≡ false
    → IsClosed (is_covered desired) (to_covered desired) (HasLabel key)
unfolding to_covered
to_covered-HasLabel desired key e = record {
  through = λ labels _ h.
      let w = desired_writer desired labels in
      let r = desired_reader desired labels in
      let role = desired_role desired labels in
      let same : (label_role == key && not (role == "")) ≡ false =
        ap (λ b. b && not (role == "")) e in
      subst (λ o. (text_of o == "true") ≡ true) (sym (lookup-added_labels labels w r role key))
        (subst
          (λ b.
            (text_of (
                if b
                then some role
                else if label_reader == key && r
                then some "true"
                else if label_writer == key && w
                then some "true"
                else lookup key labels)
              == "true")
            ≡ true)
          (sym same)
          (if_cases (λ o. (text_of o == "true") ≡ true) (label_reader == key && r) _ _ (λ _. refl)
            λ _.
              if_cases (λ o. (text_of o == "true") ≡ true) (label_writer == key && w) _ _
                (λ _. refl) λ _. h));
  outlives = λ labels h. tt;
}

-- After the pass that comes first, every pod that is still there is a member of each service it was a
-- member of before, and a listed pod has the membership and role labels the plan wants; an error is
-- one that some call of the API server gave.
pub patch_pod_membership_additions-AddedAfter :
    {S : Type 0} (api : PodApi S) (desired : Desired) (s : S) (names : List String)
    → IsStore api
    → AddedAfter api desired s names
        (for_each_pod (patch_pod_membership_additions api desired) s names)
unfolding patch_pod_membership_additions
patch_pod_membership_additions-AddedAfter {S = S} api desired s names store =
    combine (for_each_pod (patch_pod_membership_additions api desired) s names)
      (for_each_pod-EndAll api store (is_covered desired) (to_covered desired)
        (to_covered-is_covered desired) s names)
      (for_each_pod-Keeps api store (is_covered desired) (to_covered desired)
        (HasLabel label_writer) (to_covered-HasLabel desired label_writer refl) s names)
      (for_each_pod-Keeps api store (is_covered desired) (to_covered desired)
        (HasLabel label_reader) (to_covered-HasLabel desired label_reader refl) s names)
  where
    combine :
        (answer : Answer (S × List String))
        → EndAll api store
            (is_covered desired)
            (to_covered desired)
            (to_covered-is_covered desired)
            names
            answer
        → Keeps api store (is_covered desired) (to_covered desired) (HasLabel label_writer) s answer
        → Keeps api store (is_covered desired) (to_covered desired) (HasLabel label_reader) s answer
        → AddedAfter api desired s names answer
    combine (failed error) e w r = e
    combine (ok (s', live)) e w r = (e.0, w, r)
