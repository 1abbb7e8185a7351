-- ===== src/Monitor/Collected.antt =====
-- internal/monitor/probe.go: the health that a check gives does not depend on the order of the results.
use pgbouncer_aurora_operato.Base.{
  ◌=?◌, if◌then◌else◌, Bool-cases, if_cases, if_true, if_false, is_empty, filter, any, All, All-map,
  All-filter_test, IsIn, All-IsIn, IsIn-filter, any-same, any-map, int32_mod, contains,
  contains-filter, lookup, insert, lookup-insert, Answer, ok, ◌>>=◌, ℕ, ◌%◌, String, ◌≡◌, refl, sym,
  ap, subst, ◌∙◌, inl, inr, Bool, true, false, not, ◌&&◌, Option, some, List, [], ◌∷◌, map, arith,
  ◌==◌, eq_iff, eq_refl,
}
use pgbouncer_aurora_operato.Api.{PgBouncerAurora}
use pgbouncer_aurora_operato.Domain.{InstanceObservation, HealthStatus}
use pgbouncer_aurora_operato.Kubernetes.{Pod}
use pgbouncer_aurora_operato.Monitor.Secrets.{Credentials}
use pgbouncer_aurora_operato.Monitor.Probe.{monitor_status_is_configuration_failure}
use pgbouncer_aurora_operato.Monitor.Check.{
  ready_pods, count_ready_pods, ready_pods_by_instance, enabled_instances, probe_result, Event,
  arrived, without, collect, not_ready, not_ready_results, ready_instances, check,
}

-- No two instances have one name.
abbrev pub distinct_names : List InstanceObservation → Bool
distinct_names [] = true
distinct_names (o ∷ rest) = not (any (λ other. other.name == o.name) rest) && distinct_names rest

-- The probe of no instance fails for the configuration.
abbrev pub no_configuration_failure :
    (InstanceObservation → HealthStatus) → List InstanceObservation → Bool
no_configuration_failure probe instances =
    not (any (λ o. monitor_status_is_configuration_failure (probe o)) instances)

module _ (probe : InstanceObservation → HealthStatus) (counts : List (String × ℕ)) where
  -- The health of an instance that answers.
  abbrev pub answered : InstanceObservation → HealthStatus
  answered o = record (probe o) { ready_replicas = ready_pods counts o.name % int32_mod }

  abbrev pub delivered : List InstanceObservation → List Event
  delivered order = map (λ o. arrived (probe_result probe counts o)) order

  gathered_health :
      List (String × HealthStatus) → List InstanceObservation → List (String × HealthStatus)
  gathered_health out [] = out
  gathered_health out (o ∷ order) = gathered_health (insert o.name (answered o) out) order

  contains_none : (names : List String) → ((k : String) → contains names k ≡ false) → names ≡ []
  contains_none [] h = refl
  contains_none (n ∷ names) h = ground (arith, h n, eq_refl n)

  contains_some :
      (names : List String) (k : String) → contains names k ≡ true → is_empty names ≡ false
  contains_some [] k h = cc
  contains_some (n ∷ names) k h = refl

  without-same :
      (o : InstanceObservation) (order : List InstanceObservation) (remaining : List String)
      → ((k : String) → contains remaining k ≡ any (λ other. other.name == k) (o ∷ order))
      → any (λ other. other.name == o.name) order ≡ false
      → (k : String) → contains (without o.name remaining) k ≡ any (λ other. other.name == k) order
  without-same o order remaining same fresh k =
      contains-filter (λ other. not (other == o.name)) remaining k
      ∙ elim (Bool-cases (o.name == k)) [
        | inl e ↦
            let equal = (eq_iff o.name k).0 e in
            let gone =
              subst (λ (s : String). any (λ other. other.name == s) order ≡ false) equal fresh in
            ground (arith, gone, (eq_iff k o.name).1 (sym equal))
        | inr e ↦ ground (arith, same k, e, eq_iff k o.name, eq_iff o.name k)
      ]

  collect-delivered :
      (order : List InstanceObservation) (remaining : List String)
      (out : List (String × HealthStatus))
      → ((k : String) → contains remaining k ≡ any (λ o. o.name == k) order)
      → distinct_names order ≡ true
      → no_configuration_failure probe order ≡ true
      → collect remaining out (delivered order) ≡ ok (gathered_health out order)
  unfolding collect gathered_health probe_result
  collect-delivered [] remaining out same distinct good =
      ap (λ (names : List String). collect names out []) (contains_none remaining same)
  collect-delivered (o ∷ order) remaining out same distinct good =
      let clear : monitor_status_is_configuration_failure (probe o) ≡ false =
        ground (arith, good) in
      let some_left = contains_some remaining o.name (same o.name ∙ if_true _ _ (eq_refl o.name)) in
      if_false _ _ some_left
      ∙ ap
          (λ (answer : Answer HealthStatus). answer >>= λ status.
            collect (without o.name remaining) (insert o.name status out) (delivered order))
          (if_false _ (ok (answered o)) clear)
      ∙ collect-delivered order (without o.name remaining) (insert o.name (answered o) out)
          (without-same o order remaining same (ground (arith, distinct)))
          (ground (arith, distinct)) (ground (arith, good))

  lookup-gathered-other :
      (order : List InstanceObservation) (out : List (String × HealthStatus)) (k : String)
      → any (λ o. o.name == k) order ≡ false
      → lookup k (gathered_health out order) ≡ lookup k out
  unfolding gathered_health
  lookup-gathered-other [] out k h = refl
  lookup-gathered-other (o ∷ order) out k h =
      lookup-gathered-other order (insert o.name (answered o) out) k (ground (arith, h))
      ∙ lookup-insert o.name k (answered o) out
      ∙ if_false {b = o.name == k} (some (answered o)) (lookup k out) (ground (arith, h))

  lookup-gathered :
      (order : List InstanceObservation) (out : List (String × HealthStatus))
      → distinct_names order ≡ true
      → All (λ o. lookup o.name (gathered_health out order) ≡ some (answered o)) order
  unfolding gathered_health
  lookup-gathered [] out distinct = tt
  lookup-gathered (o ∷ order) out distinct = (
    lookup-gathered-other order (insert o.name (answered o) out) o.name (ground (arith, distinct))
        ∙ lookup-insert o.name o.name (answered o) out
        ∙ if_true _ _ (eq_refl o.name),
    lookup-gathered order (insert o.name (answered o) out) (ground (arith, distinct)),
  )

order_empty :
    (ready order : List InstanceObservation)
    → All (λ o. IsIn o ready) order
    → is_empty ready ≡ true
    → order ≡ []
order_empty [] [] asked e = refl
order_empty [] (o ∷ order) asked e = absurd asked.0.lower
order_empty (r ∷ ready) order asked e = cc

not_ready_results-kept :
    (counts : List (String × ℕ)) (instances : List InstanceObservation) (k : String)
    (out : List (String × HealthStatus))
    → lookup k out ≡ some not_ready
    → lookup k (not_ready_results counts out instances) ≡ some not_ready
unfolding not_ready_results
not_ready_results-kept counts [] k out h = h
not_ready_results-kept counts (o ∷ rest) k out h =
    not_ready_results-kept counts rest k
      (if ready_pods counts o.name =? 0 then insert o.name not_ready out else out)
      (if_cases (λ (m : List (String × HealthStatus)). lookup k m ≡ some not_ready)
        (ready_pods counts o.name =? 0) _ _
        (λ _.
          lookup-insert o.name k not_ready out
          ∙ if_cases (λ (found : Option HealthStatus). found ≡ some not_ready) (o.name == k) _ _
              (λ _. refl) (λ _. h))
        (λ _. h))

lookup-not_ready_results :
    (counts : List (String × ℕ)) (instances : List InstanceObservation)
    (out : List (String × HealthStatus))
    → All
        (λ o.
          (ready_pods counts o.name =? 0) ≡ true
          → lookup o.name (not_ready_results counts out instances) ≡ some not_ready)
        instances
unfolding not_ready_results
lookup-not_ready_results counts [] out = tt
lookup-not_ready_results counts (o ∷ rest) out = (
  λ zero_ready. not_ready_results-kept counts rest o.name _ (
      ap (lookup o.name) (if_true _ _ zero_ready)
      ∙ lookup-insert o.name o.name not_ready out
      ∙ if_true _ _ (eq_refl o.name)),
  lookup-not_ready_results counts rest _,
)

both_absurd : {b : Bool} → b ≡ true → not b ≡ true → ⊥
both_absurd {b = true} h k = cc
both_absurd {b = false} h k = cc

-- An instance without a ready pod has the name of none that has one.
unready_name :
    (counts : List (String × ℕ)) (k : String) (order : List InstanceObservation)
    → (ready_pods counts k =? 0) ≡ true
    → All (λ o. not (ready_pods counts o.name =? 0) ≡ true) order
    → any (λ o. o.name == k) order ≡ false
unready_name counts k [] unready h = refl
unready_name counts k (o ∷ order) unready h = elim (Bool-cases (o.name == k)) [
  | inl e ↦
      let same =
        subst (λ (n : String). not (ready_pods counts n =? 0) ≡ true) ((eq_iff o.name k).0 e) h.0 in
      absurd (both_absurd unready same)
  | inr e ↦ if_false _ _ e ∙ unready_name counts k order unready h.1
]

module _ (probe : InstanceObservation → HealthStatus) (pods : List Pod) (found : Credentials)
    (resource : PgBouncerAurora) (instances order : List InstanceObservation) where
  -- The health that is expected of an enabled instance.
  abbrev pub expected_health : InstanceObservation → HealthStatus
  expected_health o =
      if ready_pods (count_ready_pods [] pods) o.name =? 0
      then not_ready
      else answered probe (count_ready_pods [] pods) o

  abbrev pub with_ready_pods : List InstanceObservation
  with_ready_pods =
      ready_instances (count_ready_pods [] pods) (enabled_instances resource instances)

  each_expected :
      (out : List (String × HealthStatus)) (ready enabled : List InstanceObservation)
      → All (λ o. not (ready_pods (count_ready_pods [] pods) o.name =? 0) ≡ true) order
      → All (λ o. IsIn o order) ready
      → distinct_names order ≡ true
      → All
          (λ o.
            (ready_pods (count_ready_pods [] pods) o.name =? 0) ≡ true
            → lookup o.name out ≡ some not_ready)
          enabled
      → All
          (λ o. not (ready_pods (count_ready_pods [] pods) o.name =? 0) ≡ true → IsIn o ready)
          enabled
      → All
          (λ o.
            lookup o.name (gathered_health probe (count_ready_pods [] pods) out order)
            ≡ some (expected_health o))
          enabled
  each_expected out ready [] tests sent distinct unready inside = tt
  each_expected out ready (o ∷ enabled) tests sent distinct unready inside =
      let counts = count_ready_pods [] pods in
      let rest = each_expected out ready enabled tests sent distinct unready.1 inside.1 in
      elim (Bool-cases (ready_pods counts o.name =? 0)) [
        | inl e ↦ (
          lookup-gathered-other probe counts order out o.name
                (unready_name counts o.name order e tests)
              ∙ unready.0 e
              ∙ ap some (sym (if_true _ _ e)),
          rest,
        )
        | inr e ↦ (
          All-IsIn
                (λ p.
                  lookup p.name (gathered_health probe counts out order)
                  ≡ some (answered probe counts p))
                o order (lookup-gathered probe counts order out distinct)
                (All-IsIn (λ p. IsIn p order) o ready sent (inside.0 (ap not e)))
              ∙ ap some (sym (if_false _ _ e)),
          rest,
        )
      ]

  -- Suppose that the pods are listed, the credentials found and no probe fails for the configuration, and
  -- that the results of the instances with ready pods arrive, each once and in some order. Then the check
  -- succeeds, and gives each enabled instance the health of its probe with the number of its ready pods, or,
  -- if it has none, that of a pod that is not ready.
  pub check-any_order :
      All (λ o. IsIn o order) with_ready_pods
      → All (λ o. IsIn o with_ready_pods) order
      → distinct_names order ≡ true
      → no_configuration_failure probe order ≡ true
      → (health : List (String × HealthStatus)) × (check
            (ok pods)
            (ok found)
            (λ counts creds ready. delivered probe counts order)
            resource
            instances
          ≡ ok health)
        × All
            (λ o. lookup o.name health ≡ some (expected_health o))
            (enabled_instances resource instances)
  unfolding check ready_pods_by_instance ready_instances gathered_health
  check-any_order sent asked distinct good =
      let counts = count_ready_pods [] pods in
      let enabled = enabled_instances resource instances in
      let out = not_ready_results counts [] enabled in
      let tested = λ (o : InstanceObservation). not (ready_pods counts o.name =? 0) in
      let ready = filter tested enabled in
      let same : (k : String)
          → contains (map (λ o. o.name) ready) k ≡ any (λ o. o.name == k) order =
        λ k.
          any-map (λ v. v == k) (λ (o : InstanceObservation). o.name) ready
          ∙ any-same (λ (o : InstanceObservation). o.name == k) ready order sent asked in
      let all_ready : All (λ o. tested o ≡ true) order =
        All-map (λ o. IsIn o ready)
          (λ o inside.
            All-IsIn (λ p. tested p ≡ true) o ready (All-filter_test tested enabled) inside)
          order asked in
      (
        gathered_health probe counts out order,
        if_cases
            (λ (answer : Answer (List (String × HealthStatus))).
              answer ≡ ok (gathered_health probe counts out order))
            (is_empty ready) _ _
            (λ e.
              ap (λ os. ok (gathered_health probe counts out os))
                (sym (order_empty ready order asked e)))
            (λ _.
              collect-delivered probe counts order (map (λ o. o.name) ready) out same distinct
                good),
        each_expected out ready enabled all_ready sent distinct
            (lookup-not_ready_results counts enabled []) (IsIn-filter tested enabled),
      )
