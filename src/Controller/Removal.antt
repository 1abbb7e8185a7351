-- ===== src/Controller/Removal.antt =====
-- internal/controller/reconciler.go: the removal of the resources of instances that are gone, or that
-- the spec switches off. Deletion is a call of the API server, which keeps a state `S`.
use mathlib.Core.List.{Perm, perm_middle}
use mathlib.Core.List.Perm
use pgbouncer_aurora_operato.Base.{
  if◌then◌else◌, if_false, filter, All, All-map, All-filter_test, int32_lt, time_sub, contains,
  Answer, ok, failed, map_answer, ◌>>=◌, ℕ, ◌≤◌, String, ◌≡◌, refl, ap, ◌∙◌, Bool, true, false, not,
  ◌||◌, Option, none, some, List, [], ◌∷◌, ◌++◌, map, arith,
}
use pgbouncer_aurora_operato.Api.{PgBouncerAurora, MissingInstanceStatus}
use pgbouncer_aurora_operato.Domain.{DiscoveryResult}
use pgbouncer_aurora_operato.Controller.Due.{
  remove_after_missing_count, removed_instance_retention, retention_over,
  removed_instance_ready_for_delete,
}
use pgbouncer_aurora_operato.Controller.Missing.{discovered_instance_set}

pub data ObjectKind : Type 0 where
  config_map deployment service : ObjectKind

-- How the server answers a deletion.
pub data Deleted (S : Type 0) : Type 0 where
  deleted : S → Deleted S
  not_found : S → Deleted S
  not_deleted : String → Deleted S

-- `err != nil && !apierrors.IsNotFound(err)`.
abbrev pub ignore_not_found : {S : Type 0} → Deleted S → Answer S
ignore_not_found (deleted s) = ok s
ignore_not_found (not_found s) = ok s
ignore_not_found (not_deleted error) = failed error

abbrev pub DeleteCall : Type 0 → Type 0
DeleteCall S = S → ObjectKind → String → Deleted S

module _ {S : Type 0} (delete : DeleteCall S) (resource_name : String → String → String) where
  unfoldable pub delete_instance_resources : PgBouncerAurora → S → String → Answer S
  delete_instance_resources resource s instance_name = do
    let name = resource_name resource.name instance_name
    s₁ ← ignore_not_found (delete s config_map name)
    s₂ ← ignore_not_found (delete s₁ deployment name)
    ignore_not_found (delete s₂ service name)

-- An entry that stays in the list: it is discovered again, or not ready to be removed.
abbrev pub keeps_missing : PgBouncerAurora → List String → ℕ → MissingInstanceStatus → Bool
keeps_missing resource current now missing =
    contains current missing.instance_name
    || not (removed_instance_ready_for_delete resource missing now)

module _ {S : Type 0} (delete_resources : S → String → Answer S) where
  -- The loop of `cleanupRemovedInstanceResources`.
  unfoldable pub remove_missing :
      (MissingInstanceStatus → Bool)
      → S
      → List MissingInstanceStatus
      → Answer (S × List MissingInstanceStatus)
  remove_missing keeps s [] = ok (s, [])
  remove_missing keeps s (missing ∷ rest) =
      if keeps missing
      then map_answer (λ r. (r.0, missing ∷ r.1)) (remove_missing keeps s rest)
      else delete_resources s missing.instance_name >>= λ s'. remove_missing keeps s' rest

  unfoldable pub cleanup_removed_instance_resources :
      PgBouncerAurora
      → DiscoveryResult
      → S
      → List MissingInstanceStatus
      → ℕ
      → Answer (S × List MissingInstanceStatus)
  cleanup_removed_instance_resources resource discovery s missing_instances now =
      if not discovery.trusted
      then ok (s, missing_instances)
      else remove_missing (keeps_missing resource (discovered_instance_set discovery.instances) now)
          s missing_instances

  -- The resources of some names, one after the other, up to the first error.
  unfoldable pub delete_each : S → List String → Answer S
  delete_each s [] = ok s
  delete_each s (name ∷ names) = delete_resources s name >>= λ s'. delete_each s' names

  delete_named : S → List MissingInstanceStatus → Answer S
  delete_named s gone = delete_each s (map (λ m. m.instance_name) gone)

  remove_step :
      (rm : S → Answer (S × List MissingInstanceStatus)) (kept gone : List MissingInstanceStatus)
      → ((s : S) → rm s ≡ map_answer (λ s'. (s', kept)) (delete_named s gone))
      → (s : S) (m : MissingInstanceStatus) (b : Bool)
      → (if b
          then map_answer (λ r. (r.0, m ∷ r.1)) (rm s)
          else delete_resources s m.instance_name >>= λ s'. rm s')
        ≡ map_answer
            (λ s'. (s', if b then m ∷ kept else kept))
            (delete_named s (if not b then m ∷ gone else gone))
  unfolding delete_each delete_named
  remove_step rm kept gone ih s m true =
      ap (map_answer (λ r. (r.0, m ∷ r.1))) (ih s) ∙ both (delete_named s gone)
    where
      both :
          (answer : Answer S)
          → map_answer {B = S × List MissingInstanceStatus}
              (λ r. (r.0, m ∷ r.1))
              (map_answer {B = S × List MissingInstanceStatus} (λ s'. (s', kept)) answer)
            ≡ map_answer (λ s'. (s', m ∷ kept)) answer
      both (ok s') = refl
      both (failed error) = refl
  remove_step rm kept gone ih s m false = go (delete_resources s m.instance_name)
    where
      go :
          (answer : Answer S)
          → (answer >>= λ s'. rm s')
            ≡ map_answer (λ s'. (s', kept)) (answer >>= λ s'. delete_named s' gone)
      go (ok s') = ih s'
      go (failed error) = refl

  remove_missing-delete_each :
      (keeps : MissingInstanceStatus → Bool) (s : S) (missing : List MissingInstanceStatus)
      → remove_missing keeps s missing
        ≡ map_answer
            (λ s'. (s', filter keeps missing))
            (delete_each s (map (λ m. m.instance_name) (filter (λ m. not (keeps m)) missing)))
  unfolding remove_missing delete_each delete_named
  remove_missing-delete_each keeps s [] = refl
  remove_missing-delete_each keeps s (m ∷ rest) =
      remove_step (λ s'. remove_missing keeps s' rest) (filter keeps rest)
        (filter (λ m'. not (keeps m')) rest) (λ s'. remove_missing-delete_each keeps s' rest) s m
        (keeps m)

filter_step :
    {A : Type 0} (x : A) (ks gs zs : List A)
    → Perm zs (ks ++ gs)
    → (b : Bool) → Perm (x ∷ zs) ((if b then x ∷ ks else ks) ++ (if not b then x ∷ gs else gs))
filter_step x ks gs zs h true = Perm.cons x h
filter_step x ks gs zs h false = Perm.trans (Perm.cons x h) (Perm.symm (perm_middle ks gs))

filter-Perm :
    {A : Type 0} (p : A → Bool) (xs : List A) → Perm xs (filter p xs ++ filter (λ x. not (p x)) xs)
filter-Perm p [] = Perm.refl _
filter-Perm p (x ∷ xs) =
    filter_step x (filter p xs) (filter (λ y. not (p y)) xs) xs (filter-Perm p xs) (p x)

-- An instance whose resources may be deleted: it is not discovered, was missed at least as often as the
-- threshold, and for at least the retention.
pub record IsRemovable (resource : PgBouncerAurora) (discovery : DiscoveryResult) (now : ℕ)
    (missing : MissingInstanceStatus) : Type 0 where
  pub undiscovered :
      contains (discovered_instance_set discovery.instances) missing.instance_name ≡ false
  pub often : int32_lt missing.missing_count (remove_after_missing_count resource) ≡ false
  pub since : ℕ
  pub first : missing.first_missing_time ≡ some since
  pub long : removed_instance_retention resource ≤ time_sub now since

retention_over-since :
    (first : Option ℕ) (retention now : ℕ)
    → retention_over first retention now ≡ true
    → (since : ℕ) × (first ≡ some since) × (retention ≤ time_sub now since)
retention_over-since none retention now h = cc
retention_over-since (some since) retention now h = (since, refl, ground (arith, h))

not_kept-IsRemovable :
    (resource : PgBouncerAurora) (discovery : DiscoveryResult) (now : ℕ) (m : MissingInstanceStatus)
    → not (keeps_missing resource (discovered_instance_set discovery.instances) now m) ≡ true
    → IsRemovable resource discovery now m
unfolding removed_instance_ready_for_delete
not_kept-IsRemovable resource discovery now m h =
    let r =
      retention_over-since m.first_missing_time (removed_instance_retention resource) now
        (ground (arith, h)) in
    record {
      undiscovered = ground (arith, h);
      often = ground (arith, h);
      since = r.0;
      first = r.1;
      long = r.2;
    }

-- The clean-up after a trusted discovery deletes the resources of some of the missing instances, one after
-- the other up to the first error, all of which may be removed, and forgets just these.
pub cleanup-IsRemovable :
    {S : Type 0} (delete_resources : S → String → Answer S) (resource : PgBouncerAurora)
    (discovery : DiscoveryResult) (s : S) (missing : List MissingInstanceStatus) (now : ℕ)
    → discovery.trusted ≡ true
    → (kept gone : List MissingInstanceStatus) × All (IsRemovable resource discovery now) gone
      × Perm missing (kept ++ gone)
      × (cleanup_removed_instance_resources delete_resources resource discovery s missing now
          ≡ map_answer
              (λ s'. (s', kept))
              (delete_each delete_resources s (map (λ m. m.instance_name) gone)))
unfolding cleanup_removed_instance_resources
cleanup-IsRemovable delete_resources resource discovery s missing now trusted =
    let keeps = keeps_missing resource (discovered_instance_set discovery.instances) now in
    (
      filter keeps missing,
      filter (λ m. not (keeps m)) missing,
      All-map (λ m. not (keeps m) ≡ true) (not_kept-IsRemovable resource discovery now)
          (filter (λ m. not (keeps m)) missing) (All-filter_test (λ m. not (keeps m)) missing),
      filter-Perm keeps missing,
      if_false _ _ (ap not trusted) ∙ remove_missing-delete_each delete_resources keeps s missing,
    )
