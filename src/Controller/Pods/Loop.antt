-- ===== src/Controller/Pods/Loop.antt =====
-- internal/controller/reconciler.go: one pass over the pods, for any test and any change of labels.
use pgbouncer_aurora_operato.Base.{
  if◌then◌else◌, Bool-cases, if_cases, All, All-map, contains, Answer, ok, failed, ◌>>=◌, String,
  ◌≡◌, refl, sym, ap, subst, ◌∙◌, ◌⊎◌, inl, inr, Bool, true, false, Option, none, some, List, [],
  ◌∷◌, arith, ◌==◌, eq_iff, eq_refl,
}
use pgbouncer_aurora_operato.Controller.Labels.{Labels}
use pgbouncer_aurora_operato.Controller.Pods.{
  Patched, patched, gone, refused, PodApi, IsStore, after_patch, update_found, for_each_pod,
}

abbrev pub Reading : Type 0
Reading = Answer (Option Labels)

-- The pod is gone, or its labels pass the test.
abbrev pub Passes : (Labels → Bool) → Reading → Type 0
Passes is_done (failed error) = ⊥
Passes is_done (ok none) = Unit
Passes is_done (ok (some labels)) = is_done labels ≡ true

abbrev pub IsGone : Reading → Type 0
IsGone (failed error) = ⊥
IsGone (ok none) = Unit
IsGone (ok (some labels)) = ⊥

-- A statement that outlives the pod and holds on through the change.
pub record IsClosed (is_done : Labels → Bool) (change : Labels → Labels) (Q : Reading → Type 0)
    : Type 0 where
  pub through :
      (labels : Labels)
      → is_done labels ≡ false
      → Q (ok (some labels))
      → Q (ok (some (change labels)))
  pub outlives : (labels : Labels) → Q (ok (some labels)) → Q (ok none)

pub Passes-IsClosed :
    (is_done : Labels → Bool) (change : Labels → Labels)
    → ((labels : Labels) → is_done (change labels) ≡ true)
    → IsClosed is_done change (Passes is_done)
Passes-IsClosed is_done change works = record {
  through = λ labels _ _. works labels;
  outlives = λ _ _. tt;
}

pub IsGone-IsClosed :
    (is_done : Labels → Bool) (change : Labels → Labels) → IsClosed is_done change IsGone
IsGone-IsClosed is_done change = record { through = λ _ _ h. h; outlives = λ _ h. absurd h }

-- The error is the server's answer to some call.
abbrev pub IsFault : {S : Type 0} → PodApi S → String → Type 0
IsFault {S = S} api error =
    (s : S) × (name : String) × ((api.get s name ≡ failed error)
      ⊎ ((labels : Labels) × (api.patch s name labels ≡ refused error)))

module _ {S : Type 0} (api : PodApi S) (store : IsStore api) (is_done : Labels → Bool)
    (change : Labels → Labels) where
  abbrev update : S → String → Answer (S × Bool)
  update s name = update_found api is_done change s name (api.get s name)

  -- Whatever is closed is kept for every pod.
  abbrev pub Keeps : {X : Type 0} → (Reading → Type 0) → S → Answer (S × X) → Type 0
  Keeps Q s (failed error) = IsFault api error
  Keeps Q s (ok (s', x)) = (k : String) → Q (api.get s k) → Q (api.get s' k)

  after_patch-Keeps :
      (Q : Reading → Type 0)
      → IsClosed is_done change Q
      → (s : S) (name : String) (labels : Labels) → api.get s name ≡ ok (some labels)
      → is_done labels ≡ false
      → (answer : Patched S) → api.patch s name (change labels) ≡ answer
      → Keeps Q s (after_patch answer)
  after_patch-Keeps Q closed s name labels g d (refused error) e = (s, name, inr (change labels, e))
  after_patch-Keeps Q closed s name labels g d (patched s') e = λ k. elim (Bool-cases (name == k)) [
    | inl same ↦ λ h.
        subst Q
          (sym (
            store.get-patched k e
            ∙ ap (λ b. if b then ok (some (change labels)) else api.get s k) same))
          (closed.through labels d (subst Q (ap (api.get s) (sym ((eq_iff name k).0 same)) ∙ g) h))
    | inr other ↦ λ h.
        subst Q
          (sym (
            store.get-patched k e
            ∙ ap (λ b. if b then ok (some (change labels)) else api.get s k) other))
          h
  ]
  after_patch-Keeps Q closed s name labels g d (gone s') e = λ k. elim (Bool-cases (name == k)) [
    | inl same ↦ λ h.
        subst Q (sym (store.get-gone k e ∙ ap (λ b. if b then ok none else api.get s k) same))
          (closed.outlives labels (subst Q (ap (api.get s) (sym ((eq_iff name k).0 same)) ∙ g) h))
    | inr other ↦ λ h.
        subst Q (sym (store.get-gone k e ∙ ap (λ b. if b then ok none else api.get s k) other)) h
  ]

  update_found-Keeps :
      (Q : Reading → Type 0)
      → IsClosed is_done change Q
      → (s : S) (name : String) (reading : Reading) → api.get s name ≡ reading
      → Keeps Q s (update_found api is_done change s name reading)
  update_found-Keeps Q closed s name (failed error) g = (s, name, inl g)
  update_found-Keeps Q closed s name (ok none) g = λ k h. h
  update_found-Keeps Q closed s name (ok (some labels)) g =
      if_cases (Keeps Q s) (is_done labels) (ok (s, true))
        (after_patch (api.patch s name (change labels))) (λ _ k h. h)
        (λ d. after_patch-Keeps Q closed s name labels g d (api.patch s name (change labels)) refl)

  pub for_each_pod-Keeps :
      (Q : Reading → Type 0)
      → IsClosed is_done change Q
      → (s : S) (names : List String) → Keeps Q s (for_each_pod update s names)
  unfolding for_each_pod
  for_each_pod-Keeps Q closed s [] = λ k h. h
  for_each_pod-Keeps Q closed s (name ∷ names) =
      combine (λ s'. for_each_pod-Keeps Q closed s' names) (update s name)
        (update_found-Keeps Q closed s name (api.get s name) refl)
    where
      after :
          (s' : S) (live : Bool)
          → ((k : String) → Q (api.get s k) → Q (api.get s' k))
          → (rest : Answer (S × List String)) → Keeps Q s' rest
          → Keeps Q s (rest >>= λ later. ok (later.0, if live then name ∷ later.1 else later.1))
      after s' live h (failed error) e = e
      after s' live h (ok (s'', later)) e = λ k q. e k (h k q)

      combine :
          ((s' : S) → Keeps Q s' (for_each_pod update s' names))
          → (answer : Answer (S × Bool)) → Keeps Q s answer
          → Keeps Q s (
              answer >>= λ r. for_each_pod update r.0 names >>= λ later.
              ok (later.0, if r.1 then name ∷ later.1 else later.1))
      combine ih (failed error) e = e
      combine ih (ok (s', live)) h = after s' live h (for_each_pod update s' names) (ih s')

  module _ (works : (labels : Labels) → is_done (change labels) ≡ true) where
    -- The pod passes, and is gone if it is not counted among the living.
    abbrev Ends : String → Answer (S × Bool) → Type 0
    Ends name (failed error) = Unit
    Ends name (ok (s', live)) =
        Passes is_done (api.get s' name) × (live ≡ false → IsGone (api.get s' name))

    after_patch-Ends :
        (s : S) (name : String) (labels : Labels) (answer : Patched S)
        → api.patch s name (change labels) ≡ answer
        → Ends name (after_patch answer)
    after_patch-Ends s name labels (refused error) e = tt
    after_patch-Ends s name labels (patched s') e =
        let now : api.get s' name ≡ ok (some (change labels)) =
          store.get-patched name e
          ∙ ap (λ b. if b then ok (some (change labels)) else api.get s name) (eq_refl name) in
        (subst (Passes is_done) (sym now) (works labels), λ h. cc)
    after_patch-Ends s name labels (gone s') e =
        let now : api.get s' name ≡ ok none =
          store.get-gone name e ∙ ap (λ b. if b then ok none else api.get s name) (eq_refl name) in
        (subst (Passes is_done) (sym now) tt, λ _. subst IsGone (sym now) tt)

    update_found-Ends :
        (s : S) (name : String) (reading : Reading)
        → api.get s name ≡ reading
        → Ends name (update_found api is_done change s name reading)
    update_found-Ends s name (failed error) g = tt
    update_found-Ends s name (ok none) g =
        (subst (Passes is_done) (sym g) tt, λ _. subst IsGone (sym g) tt)
    update_found-Ends s name (ok (some labels)) g =
        if_cases (Ends name) (is_done labels) (ok (s, true))
          (after_patch (api.patch s name (change labels)))
          (λ d. (subst (Passes is_done) (sym g) d, λ h. cc))
          (λ d. after_patch-Ends s name labels (api.patch s name (change labels)) refl)

    -- Every pod passes, and those that are not among the living are gone.
    abbrev pub EndAll : List String → Answer (S × List String) → Type 0
    EndAll names (failed error) = IsFault api error
    EndAll names (ok (s', live)) =
        All (λ k. Passes is_done (api.get s' k)) names
        × All (λ k. contains live k ≡ false → IsGone (api.get s' k)) names

    pub for_each_pod-EndAll :
        (s : S) (names : List String) → EndAll names (for_each_pod update s names)
    unfolding for_each_pod
    for_each_pod-EndAll s [] = (tt, tt)
    for_each_pod-EndAll s (name ∷ names) =
        combine (λ s'. for_each_pod-EndAll s' names) (update s name)
          (update_found-Ends s name (api.get s name) refl)
          (update_found-Keeps (Passes is_done) (Passes-IsClosed is_done change works) s name
            (api.get s name) refl)
      where
        after :
            (s' : S) (live : Bool)
            → Passes is_done (api.get s' name)
            → (live ≡ false → IsGone (api.get s' name))
            → (rest : Answer (S × List String)) → EndAll names rest
            → Keeps (Passes is_done) s' rest
            → Keeps IsGone s' rest
            → EndAll
                (name ∷ names)
                (rest >>= λ later. ok (later.0, if live then name ∷ later.1 else later.1))
        after s' live p g (failed error) e kp kg = e
        after s' true p g (ok (s'', later)) e kp kg = (
          (kp name p, e.0),
          (
            (λ h. absurd (name_is_live h)),
            All-map (λ k. contains later k ≡ false → IsGone (api.get s'' k))
                (λ k f h. f (other_is_live k h)) names e.1,
          ),
        )
          where
            name_is_live : contains (name ∷ later) name ≡ false → ⊥
            name_is_live h = ground (arith, h, eq_refl name)

            other_is_live :
                (k : String) → contains (name ∷ later) k ≡ false → contains later k ≡ false
            other_is_live k h = ground (arith, h)
        after s' false p g (ok (s'', later)) e kp kg =
            ((kp name p, e.0), ((λ h. kg name (g refl)), e.1))

        combine :
            ((s' : S) → EndAll names (for_each_pod update s' names))
            → (answer : Answer (S × Bool)) → Ends name answer
            → Keeps (Passes is_done) s answer
            → EndAll (name ∷ names) (
                answer >>= λ r. for_each_pod update r.0 names >>= λ later.
                ok (later.0, if r.1 then name ∷ later.1 else later.1))
        combine ih (failed error) e k = k
        combine ih (ok (s', live)) e k =
            after s' live e.0 e.1 (for_each_pod update s' names) (ih s')
              (for_each_pod-Keeps (Passes is_done) (Passes-IsClosed is_done change works) s' names)
              (for_each_pod-Keeps IsGone (IsGone-IsClosed is_done change) s' names)
