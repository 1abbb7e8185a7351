-- ===== src/Controller/Labels.antt =====
-- internal/controller/reconciler.go: the labels of a pod that select it for the services; the names of
-- the labels are those of internal/render/resources.go.
use pgbouncer_aurora_operato.Base.{
  if◌then◌else◌, Bool-cases, lookup, insert, erase, lookup-insert, lookup-erase, String, ◌≡◌, refl,
  ap, ◌∙◌, inl, inr, Bool, true, false, not, ◌&&◌, ◌||◌, Option, none, some, List, arith, ◌==◌,
  eq_refl,
}
use pgbouncer_aurora_operato.Api.{Role}

-- A label map without labels and a nil map read alike.
abbrev pub Labels : Type 0
Labels = List (String × String)

abbrev pub label_instance : String
label_instance = "pgbouncer-aurora.io/instance"

abbrev pub label_role : String
label_role = "pgbouncer-aurora.io/role"

abbrev pub label_writer : String
label_writer = "pgbouncer-aurora.io/member-writer"

abbrev pub label_reader : String
label_reader = "pgbouncer-aurora.io/member-reader"

abbrev pub text_of : Option String → String
text_of none = ""
text_of (some text) = text

-- `labels[key]`.
abbrev pub label : Labels → String → String
label labels key = text_of (lookup key labels)

unfoldable pub bool_label_exact_in : Bool → Option String → Bool
bool_label_exact_in true none = false
bool_label_exact_in true (some value) = value == "true"
bool_label_exact_in false none = true
bool_label_exact_in false (some value) = false

unfoldable pub bool_membership_label_exact : Labels → String → Bool → Bool
unfolding bool_label_exact_in
bool_membership_label_exact labels key desired = bool_label_exact_in desired (lookup key labels)

unfoldable pub role_label_exact_in : Role → Option String → Bool
role_label_exact_in desired none = desired == ""
role_label_exact_in desired (some value) = if desired == "" then false else value == desired

unfoldable pub role_membership_label_exact : Labels → Role → Bool
unfolding role_label_exact_in
role_membership_label_exact labels desired = role_label_exact_in desired (lookup label_role labels)

unfoldable pub membership_labels_exact : Labels → Bool → Bool → Role → Bool
membership_labels_exact labels desired_writer desired_reader desired_role =
    bool_membership_label_exact labels label_writer desired_writer
    && bool_membership_label_exact labels label_reader desired_reader
    && role_membership_label_exact labels desired_role

unfoldable pub set_bool_label : Labels → String → Bool → Labels
set_bool_label labels key value = if value then insert key "true" labels else erase key labels

unfoldable pub set_role_label : Labels → Role → Labels
set_role_label labels role =
    if role == "" then erase label_role labels else insert label_role role labels

-- The labels that `patchPodMembershipExact` sends.
unfoldable pub exact_labels : Labels → Bool → Bool → Role → Labels
exact_labels labels desired_writer desired_reader desired_role =
    set_role_label
      (set_bool_label (set_bool_label labels label_writer desired_writer) label_reader
        desired_reader)
      desired_role

-- The test of `patchPodMembershipAdditions`: nothing is to be added.
unfoldable pub has_additions : Labels → Bool → Bool → Role → Bool
has_additions labels desired_writer desired_reader desired_role =
    (not desired_writer || label labels label_writer == "true")
    && (not desired_reader || label labels label_reader == "true")
    && (desired_role == "" || label labels label_role == desired_role)

-- The labels that it sends.
unfoldable pub added_labels : Labels → Bool → Bool → Role → Labels
added_labels labels desired_writer desired_reader desired_role =
    let with_writer = if desired_writer then insert label_writer "true" labels else labels in
    let with_reader =
      if desired_reader then insert label_reader "true" with_writer else with_writer in
    if desired_role == "" then with_reader else insert label_role desired_role with_reader

lookup-set_bool_label :
    (labels : Labels) (key : String) (value : Bool) (k : String)
    → lookup k (set_bool_label labels key value)
      ≡ (if key == k then (if value then some "true" else none) else lookup k labels)
unfolding set_bool_label
lookup-set_bool_label labels key true k = lookup-insert key k "true" labels
lookup-set_bool_label labels key false k = lookup-erase key k labels

lookup-set_role_label :
    (labels : Labels) (role : Role) (k : String)
    → lookup k (set_role_label labels role)
      ≡ (if label_role == k then (if role == "" then none else some role) else lookup k labels)
unfolding set_role_label
lookup-set_role_label labels role k = elim (Bool-cases (role == "")) [
  | inl e ↦ rw e (lookup-erase label_role k labels)
  | inr e ↦ rw e (lookup-insert label_role k role labels)
]

-- Every label after the exact patch.
pub lookup-exact_labels :
    (labels : Labels) (w r : Bool) (role : Role) (k : String)
    → lookup k (exact_labels labels w r role) ≡ (
        if label_role == k
        then (if role == "" then none else some role)
        else if label_reader == k
        then (if r then some "true" else none)
        else if label_writer == k
        then (if w then some "true" else none)
        else lookup k labels)
unfolding exact_labels
lookup-exact_labels labels w r role k =
    rw
      (
        lookup-set_role_label (set_bool_label (set_bool_label labels label_writer w) label_reader r)
            role k,
        lookup-set_bool_label (set_bool_label labels label_writer w) label_reader r k,
        lookup-set_bool_label labels label_writer w k,
      )
      refl

bool_label_exact-set : (b : Bool) → bool_label_exact_in b (if b then some "true" else none) ≡ true
unfolding bool_label_exact_in
bool_label_exact-set true = refl
bool_label_exact-set false = refl

role_label_exact-set :
    (role : Role) → role_label_exact_in role (if role == "" then none else some role) ≡ true
unfolding role_label_exact_in
role_label_exact-set role = elim (Bool-cases (role == "")) [
  | inl e ↦ rw e e
  | inr e ↦ rw e (ap (λ b. if b then false else role == role) e ∙ eq_refl role)
]

-- After the exact patch the labels are exact.
pub membership_labels_exact-exact_labels :
    (labels : Labels) (w r : Bool) (role : Role)
    → membership_labels_exact (exact_labels labels w r role) w r role ≡ true
unfolding membership_labels_exact bool_membership_label_exact role_membership_label_exact
membership_labels_exact-exact_labels labels w r role =
    rw
      (
        lookup-exact_labels labels w r role label_writer,
        lookup-exact_labels labels w r role label_reader,
        lookup-exact_labels labels w r role label_role,
        bool_label_exact-set w,
        bool_label_exact-set r,
        role_label_exact-set role,
      )
      refl

lookup-if_insert :
    (b : Bool) (key value : String) (labels : Labels) (k : String)
    → lookup k (if b then insert key value labels else labels)
      ≡ (if key == k && b then some value else lookup k labels)
lookup-if_insert true key value labels k = ground (arith, lookup-insert key k value labels)
lookup-if_insert false key value labels k = ground arith

-- Every label after the patch that only adds.
pub lookup-added_labels :
    (labels : Labels) (w r : Bool) (role : Role) (k : String)
    → lookup k (added_labels labels w r role) ≡ (
        if label_role == k && not (role == "")
        then some role
        else if label_reader == k && r
        then some "true"
        else if label_writer == k && w
        then some "true"
        else lookup k labels)
unfolding added_labels
lookup-added_labels labels w r role k =
    let with_writer = if w then insert label_writer "true" labels else labels in
    let with_reader = if r then insert label_reader "true" with_writer else with_writer in
    ground (
      arith,
      lookup-insert label_role k role with_reader,
      lookup-if_insert r label_reader "true" with_writer k,
      lookup-if_insert w label_writer "true" labels k,
    )
