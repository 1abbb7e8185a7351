-- ===== src/Controller/Health/Changed.antt =====
-- internal/controller/reconciler.go: what it means that the readiness of the pods has not changed.
use pgbouncer_aurora_operato.Base.{
  ◌=?◌, if◌then◌else◌, Bool-cases, if_cases, if_true, if_false, and_intro, and_false, count, any,
  int32_mod, int32_add, lookup, insert, erase, lookup-insert, lookup-erase, Answer, ok, failed, ℕ,
  suc, ◌+◌, ◌%◌, ◌<◌, String, ◌≡◌, refl, sym, ap, subst, ◌∙◌, inl, inr, Bool, true, false, not,
  ◌&&◌, Option, none, some, List, [], ◌∷◌, arith, ◌==◌, eq_iff,
}
use pgbouncer_aurora_operato.Api.{PgBouncerAurora, InstanceStatus}
use pgbouncer_aurora_operato.Kubernetes.{Pod, pod_label}
use pgbouncer_aurora_operato.Controller.Labels.{label_instance}
use pgbouncer_aurora_operato.Controller.Membership.{ready_count}
use pgbouncer_aurora_operato.Controller.Health.{
  pod_ready, count_ready, ready_pod_counts, readiness_differs, pod_readiness_changed,
}

-- The stored number of ready pods of an instance.
abbrev pub stored_ready : List InstanceStatus → String → ℕ
stored_ready [] name = 0
stored_ready (status ∷ rest) name =
    let later = stored_ready rest name in
    if status.instance_name == name then status.ready_replicas else later

ready_count-same :
    (a b : List (String × ℕ)) (k : String)
    → lookup k a ≡ lookup k b
    → ready_count a k ≡ ready_count b k
ready_count-same a b k e = ap (λ (o : Option ℕ). elim o [ none ↦ 0 | some count ↦ count ]) e

ready_count-erase :
    (counts : List (String × ℕ)) (name k : String)
    → name == k ≡ false
    → ready_count (erase name counts) k ≡ ready_count counts k
ready_count-erase counts name k other =
    ready_count-same (erase name counts) counts k (lookup-erase name k counts ∙ if_false _ _ other)

differ_absurd : true ≡ false → ⊥
differ_absurd h = cc

readiness_differs-stored :
    (counts : List (String × ℕ)) (statuses : List InstanceStatus) (k : String)
    → readiness_differs counts statuses ≡ false
    → k == "" ≡ false
    → ready_count counts k ≡ stored_ready statuses k
unfolding readiness_differs
readiness_differs-stored [] [] k same named = refl
readiness_differs-stored (c ∷ counts) [] k same named = cc
readiness_differs-stored counts (status ∷ rest) k same named =
    elim (Bool-cases (status.instance_name == "")) [
      | inl e ↦
          let other : status.instance_name == k ≡ false =
            ground
              (arith, e, named, eq_iff status.instance_name "", eq_iff status.instance_name k) in
          readiness_differs-stored counts rest k (sym (if_true _ _ e) ∙ same) named
          ∙ sym (if_false _ _ other)
      | inr e ↦
          let checked = sym (if_false _ _ e) ∙ same in
          elim (Bool-cases (ready_count counts status.instance_name =? status.ready_replicas)) [
            | inr differs ↦ absurd (differ_absurd (sym (if_true _ _ (ap not differs)) ∙ checked))
            | inl equal ↦ elim (Bool-cases (status.instance_name == k)) [
              | inl here ↦
                  subst (λ (n : String). ready_count counts n ≡ status.ready_replicas)
                    ((eq_iff status.instance_name k).0 here) (ground (arith, equal))
                  ∙ sym (if_true _ _ here)
              | inr other ↦
                  sym (ready_count-erase counts status.instance_name k other)
                  ∙ readiness_differs-stored (erase status.instance_name counts) rest k
                      (sym (if_false _ _ (ap not equal)) ∙ checked) named
                  ∙ sym (if_false _ _ other)
            ]
          ]
    ]

answered_true : Answer Bool → Bool
answered_true (ok b) = b
answered_true (failed error) = true

-- The pod belongs to the instance, is not being deleted, and has the condition `Ready`.
abbrev pub is_ready_of : String → Pod → Bool
is_ready_of name pod =
    pod_label pod label_instance == name
    && (not pod.deleting
        && any (λ condition. condition.0 == "Ready" && condition.1 == "True") pod.conditions)

pod_ready-test :
    (pod : Pod)
    → pod_ready pod ≡ (
        not pod.deleting
        && any (λ condition. condition.0 == "Ready" && condition.1 == "True") pod.conditions)
unfolding pod_ready
pod_ready-test pod = ground arith

ready_count-insert :
    (name k : String) (v : ℕ) (counts : List (String × ℕ))
    → ready_count (insert name v counts) k ≡ (if name == k then v else ready_count counts k)
ready_count-insert name k v counts = inserted (name == k) (lookup-insert name k v counts)
  where
    inserted :
        (b : Bool) {o : Option ℕ}
        → o ≡ (if b then some v else lookup k counts)
        → (elim o [ none ↦ 0 | some count ↦ count ]) ≡ (if b then v else ready_count counts k)
    inserted true e = ap (λ (o : Option ℕ). elim o [ none ↦ 0 | some count ↦ count ]) e
    inserted false e = ap (λ (o : Option ℕ). elim o [ none ↦ 0 | some count ↦ count ]) e

-- One more modulo 2 ^ 32.
add_one : (a c : ℕ) → (((a + 1) % int32_mod) + c) % int32_mod ≡ (a + suc c) % int32_mod
add_one a c = omega arith

wrapped : (a : ℕ) → a < int32_mod → a ≡ (a + 0) % int32_mod
wrapped a h = omega (arith, h)

wrapped_lt : (a : ℕ) → ((a + 1) % int32_mod) < int32_mod
wrapped_lt a = omega arith

first_fails : {a : Bool} (b : Bool) → a ≡ false → (a && b) ≡ false
first_fails {a = true} b h = cc
first_fails {a = false} b h = refl

-- What one pod does to the counts.
abbrev counted : List (String × ℕ) → Pod → List (String × ℕ)
counted counts pod =
    let name = pod_label pod label_instance in
    if not (pod_ready pod)
    then counts
    else if not (name == "")
    then insert name (int32_add (ready_count counts name) 1) counts
    else counts

counted_same :
    (counts : List (String × ℕ)) (pod : Pod) (k : String)
    → pod_label pod label_instance == k ≡ true
    → (k == "") ≡ false
    → pod_ready pod ≡ true
    → ready_count (counted counts pod) k ≡ int32_add (ready_count counts k) 1
counted_same counts pod k same named ready =
    let name = pod_label pod label_instance in
    let equal = (eq_iff name k).0 same in
    let given = ap (λ n. n == "") equal ∙ named in
    ap (λ c. ready_count c k) (if_false _ _ (ap not ready) ∙ if_true _ _ (ap not given))
    ∙ ready_count-insert name k (int32_add (ready_count counts name) 1) counts
    ∙ if_true _ _ same
    ∙ ap (λ n. int32_add (ready_count counts n) 1) equal

counted_other :
    (counts : List (String × ℕ)) (pod : Pod) (k : String)
    → pod_label pod label_instance == k ≡ false
    → ready_count (counted counts pod) k ≡ ready_count counts k
counted_other counts pod k other =
    let name = pod_label pod label_instance in
    if_cases (λ c. ready_count c k ≡ ready_count counts k) (not (pod_ready pod)) _ _ (λ _. refl)
      (λ _.
        if_cases (λ c. ready_count c k ≡ ready_count counts k) (not (name == "")) _ _
          (λ _.
            ready_count-insert name k (int32_add (ready_count counts name) 1) counts
            ∙ if_false _ _ other)
          (λ _. refl))

counted_step :
    (counts : List (String × ℕ)) (pod : Pod) (k : String)
    → (k == "") ≡ false
    → ready_count (counted counts pod) k
      ≡ (if is_ready_of k pod then int32_add (ready_count counts k) 1 else ready_count counts k)
counted_step counts pod k named = elim (Bool-cases (pod_ready pod)) [
  | inr e ↦
      ap (λ c. ready_count c k) (if_true _ _ (ap not e))
      ∙ sym (
          if_false _ _
            (and_false (pod_label pod label_instance == k) (sym (pod_ready-test pod) ∙ e)))
  | inl e ↦ elim (Bool-cases (pod_label pod label_instance == k)) [
    | inl same ↦
        counted_same counts pod k same named e
        ∙ sym (if_true _ _ (and_intro same (sym (pod_ready-test pod) ∙ e)))
    | inr other ↦
        counted_other counts pod k other
        ∙ sym (
            if_false (int32_add (ready_count counts k) 1) (ready_count counts k)
              (first_fails _ other))
  ]
]

counted_small :
    (counts : List (String × ℕ)) (pod : Pod) (k : String)
    → (k == "") ≡ false
    → ready_count counts k < int32_mod
    → ready_count (counted counts pod) k < int32_mod
counted_small counts pod k named small =
    subst (λ n. n < int32_mod) (sym (counted_step counts pod k named))
      (if_cases (λ n. n < int32_mod) (is_ready_of k pod) _ _
        (λ _. wrapped_lt (ready_count counts k)) (λ _. small))

count_ready-count :
    (counts : List (String × ℕ)) (pods : List Pod) (k : String)
    → (k == "") ≡ false
    → ready_count counts k < int32_mod
    → ready_count (count_ready counts pods) k
      ≡ (ready_count counts k + count (is_ready_of k) pods) % int32_mod
unfolding count_ready
count_ready-count counts [] k named small = wrapped (ready_count counts k) small
count_ready-count counts (pod ∷ pods) k named small =
    count_ready-count (counted counts pod) pods k named (counted_small counts pod k named small)
    ∙ ap (λ n. (n + count (is_ready_of k) pods) % int32_mod) (counted_step counts pod k named)
    ∙ one_more (is_ready_of k pod) (ready_count counts k) (count (is_ready_of k) pods)
  where
    one_more :
        (b : Bool) (a c : ℕ)
        → ((if b then int32_add a 1 else a) + c) % int32_mod
          ≡ (a + (if b then suc c else c)) % int32_mod
    one_more true a c = add_one a c
    one_more false a c = refl

-- If the readiness of the pods counts as unchanged, then for every name but the empty one the number of ready pods of
-- that instance, modulo 2 ^ 32, is the stored one, and 0 for an instance that is not stored.
pub pod_readiness_changed-stored :
    (pods : List Pod) (resource : PgBouncerAurora) (name : String)
    → pod_readiness_changed (ok pods) resource ≡ ok false
    → name == "" ≡ false
    → count (is_ready_of name) pods % int32_mod ≡ stored_ready resource.status.instances name
unfolding pod_readiness_changed ready_pod_counts answered_true
pod_readiness_changed-stored pods resource name same named =
    ap (λ n. n % int32_mod) (no_more (count (is_ready_of name) pods))
    ∙ sym (count_ready-count [] pods name named (omega arith))
    ∙ readiness_differs-stored (count_ready [] pods) resource.status.instances name
        (ap answered_true same) named
  where
    no_more : (n : ℕ) → n ≡ 0 + n
    no_more n = omega arith
