-- ===== src/Controller/Copy/Settled.antt =====
-- internal/controller/reconciler.go: an object that was updated is not found to differ.
use pgbouncer_aurora_operato.Base.{
  ◌=?◌, if◌then◌else◌, Bool-cases, if_cases, or_false, and_intro, trim_space, lookup, insert, erase,
  lookup-insert, lookup-erase, ℕ, String, ◌≡◌, refl, sym, ap, subst, inl, inr, Bool, true, false,
  not, ◌&&◌, ◌||◌, Option, none, some, List, [], ◌∷◌, arith, ◌==◌, eq_refl,
}
use pgbouncer_aurora_operato.Controller.Apply.{ServicePort, Service, value_at}
use pgbouncer_aurora_operato.Controller.Drift.{
  ConfigMap, Deployment, label_dbi_resource_id, int32_value, same_app_protocol,
  service_ports_equal_ignoring_allocated, deployment_dbi_label, deployment_dbi_metadata_drifted,
  MapTest, config_map_differs, deployment_differs, service_spec_drifted,
}
use pgbouncer_aurora_operato.Controller.Copy.{
  PodTemplate, pod_template_semantically_equal, copy_config_map, preserve_value,
  deployment_dbi_identity, preserve_deployment_dbi_identity, preserve_restart_annotation,
  copy_deployment, node_ports_from, with_node_ports, preserve_service_node_ports,
  should_preserve_node_ports, preserve_service_allocated_fields, copy_service,
}
use pgbouncer_aurora_operato.Controller.Restart.{restarted_at_annotation}

erase-insert :
    (k : String) (v : String) (m : List (String × String)) (j : String)
    → lookup j (erase k (insert k v m)) ≡ lookup j (erase k m)
erase-insert k v m j =
    ground (arith, lookup-erase k j (insert k v m), lookup-erase k j m, lookup-insert k j v m)

same_count : (n : ℕ) → (n =? n) ≡ true
same_count n = ground arith

test_passed : {b : Bool} → b ≡ true → not b ≡ false
test_passed e = ap not e

-- The test of the labels, on their texts.
abbrev labels_differ : String → String → Bool
labels_differ kept new =
    (kept == "" && not (new == "")) || (not (kept == "") && not (new == "") && not (kept == new))

labels_settled :
    (kept new : String) → ((new == "") ≡ false → kept ≡ new) → labels_differ kept new ≡ false
labels_settled kept new same = elim (Bool-cases (new == "")) [
  | inl empty ↦ ground (arith, empty)
  | inr given ↦
      subst (λ t. labels_differ t new ≡ false) (sym (same given))
        (ground (arith, given, eq_refl new))
]

preserve_value-given :
    (key new previous : String) (values : List (String × String))
    → (new == "") ≡ false
    → preserve_value key new previous values ≡ values
preserve_value-given key new previous values given = ground (arith, given)

four_settled :
    {a b c d : Bool}
    → a ≡ false
    → b ≡ true
    → c ≡ true
    → d ≡ true
    → (a || not b || not c || not d) ≡ false
four_settled ha hb hc hd =
    or_false (or_false (or_false ha (test_passed hb)) (test_passed hc)) (test_passed hd)

app_protocol_settled :
    (app_protocol : Option String) → same_app_protocol app_protocol app_protocol ≡ true
app_protocol_settled none = refl
app_protocol_settled (some value) = eq_refl value

same_port :
    (port : ServicePort)
    → (port.name == port.name
        && port.protocol == port.protocol
        && port.port =? port.port
        && port.target_port == port.target_port
        && same_app_protocol port.app_protocol port.app_protocol)
      ≡ true
same_port port =
    and_intro
      (and_intro
        (and_intro (and_intro (eq_refl port.name) (eq_refl port.protocol)) (same_count port.port))
        (eq_refl port.target_port))
      (app_protocol_settled port.app_protocol)

same_ports : (ports : List ServicePort) → service_ports_equal_ignoring_allocated ports ports ≡ true
unfolding service_ports_equal_ignoring_allocated
same_ports [] = refl
same_ports (port ∷ ports) = and_intro (same_port port) (same_ports ports)

ports_settled :
    (node_ports : List (String × ℕ)) (ports : List ServicePort)
    → service_ports_equal_ignoring_allocated (with_node_ports node_ports ports) ports ≡ true
unfolding service_ports_equal_ignoring_allocated with_node_ports
ports_settled node_ports [] = refl
ports_settled node_ports (port ∷ ports) =
    and_intro (same_port port) (ports_settled node_ports ports)

module _ {B : Type 0} (same_map : MapTest) (same_body : B → B → Bool)
    (map_test : (a b : List (String × String))
      → ((k : String) → lookup k a ≡ lookup k b)
      → same_map a b ≡ true)
    (body_test : (body : B) → same_body body body ≡ true) where
  copy_config_map-settled :
      (existing desired : ConfigMap)
      → config_map_differs same_map (copy_config_map existing desired) desired ≡ false
  unfolding config_map_differs copy_config_map
  copy_config_map-settled existing desired =
      or_false (test_passed (map_test _ _ (λ k. refl))) (test_passed (map_test _ _ (λ k. refl)))

  template_settled :
      (body : B) (token : String) (values : List (String × String))
      → pod_template_semantically_equal same_map same_body
          (record {
            annotations =
                if token == "" then values else insert restarted_at_annotation token values;
            body = body;
          })
          (record { annotations = values; body = body })
        ≡ true
  unfolding pod_template_semantically_equal
  template_settled body token values =
      if_cases
        (λ kept.
          (same_map (erase restarted_at_annotation kept) (erase restarted_at_annotation values)
            && same_body body body)
          ≡ true)
        (token == "") _ _ (λ _. and_intro (map_test _ _ (λ k. refl)) (body_test body))
        (λ _.
          and_intro (map_test _ _ (erase-insert restarted_at_annotation token values))
            (body_test body))

  copy_deployment-settled :
      (existing desired : Deployment (PodTemplate B))
      → deployment_differs
          (pod_template_semantically_equal same_map same_body)
          (copy_deployment existing desired)
          desired
        ≡ false
  unfolding deployment_differs copy_deployment preserve_restart_annotation
      preserve_deployment_dbi_identity deployment_dbi_metadata_drifted
  copy_deployment-settled existing desired =
      let new = deployment_dbi_label desired in
      let old = deployment_dbi_label existing in
      four_settled
        (labels_settled
          (trim_space (
            value_at label_dbi_resource_id (
              preserve_value label_dbi_resource_id new (deployment_dbi_identity existing).0
                desired.labels)))
          new
          (λ given.
            ap (λ labels. trim_space (value_at label_dbi_resource_id labels))
              (preserve_value-given label_dbi_resource_id new (deployment_dbi_identity existing).0
                desired.labels given)))
        (same_count (int32_value desired.replicas)) (eq_refl desired.strategy)
        (template_settled desired.template.body
          (value_at restarted_at_annotation existing.template.annotations)
          desired.template.annotations)

  copy_service-settled :
      (existing desired : Service)
      → service_spec_drifted same_map (copy_service existing desired) desired ≡ false
  unfolding service_spec_drifted copy_service preserve_service_allocated_fields
      preserve_service_node_ports
  copy_service-settled existing desired =
      four_settled (test_passed (eq_refl desired.type)) (map_test _ _ (λ k. refl))
        (if_cases (λ ports. service_ports_equal_ignoring_allocated ports desired.ports ≡ true)
          (should_preserve_node_ports (record desired { name = existing.name })) _ _
          (λ _. ports_settled (node_ports_from [] existing.ports) desired.ports)
          (λ _. same_ports desired.ports))
        (map_test _ _ (λ k. refl))

  -- If maps with the same values count as equal, and so does a body of a pod template with itself, then a config
  -- map, a deployment and a service that were updated do not differ for the check from what they were updated to,
  -- although an update keeps a restart, the identity of the machine, and what the server allocated.
  pub copy-settled :
      (config_map desired_config_map : ConfigMap)
      (deployment desired_deployment : Deployment (PodTemplate B))
      (service desired_service : Service)
      → (config_map_differs same_map
            (copy_config_map config_map desired_config_map)
            desired_config_map
          ≡ false)
        × (deployment_differs
              (pod_template_semantically_equal same_map same_body)
              (copy_deployment deployment desired_deployment)
              desired_deployment
            ≡ false)
        × (service_spec_drifted same_map (copy_service service desired_service) desired_service
            ≡ false)
  copy-settled config_map desired_config_map deployment desired_deployment service desired_service =
      (
        copy_config_map-settled config_map desired_config_map,
        copy_deployment-settled deployment desired_deployment,
        copy_service-settled service desired_service,
      )
