-- ===== src/RdsMetadata/Served.antt =====
-- internal/discovery/rds.go: what the cache serves after a refresh.
use pgbouncer_aurora_operato.Base.{
  if◌then◌else◌, Bool-cases, if_cases, if_true, if_false, time_after, trim_space, lookup,
  lookup-insert, lookup-erase, Answer, ok, failed, ℕ, ◌+◌, String, ◌≡◌, refl, sym, ap, ◌∙◌, inl,
  inr, Bool, true, false, Option, none, some, List, [], ◌∷◌, ◌==◌, eq_refl,
}
use pgbouncer_aurora_operato.Api.{PgBouncerAurora}
use pgbouncer_aurora_operato.Discovery.{unique_sorted, InstanceMetadata, no_metadata}
use pgbouncer_aurora_operato.RdsMetadata.{
  CachedInstanceMetadata, Cache, DbInstance, RdsApi, cluster_cache_key, cache_ttl, prune,
  store_cluster, snapshot_of, cluster_snapshot, reappeared_instance_names, without_names,
  store_instances_of, fetched, refreshed_with, refresh_cluster, served, resolve,
}

abbrev if_fresh : ℕ → Option CachedInstanceMetadata → Option CachedInstanceMetadata
if_fresh now none = none
if_fresh now (some entry) = if time_after now entry.expires_at then none else some entry

lookup-prune :
    (now : ℕ) (key : String) (cache : Cache)
    → lookup key (prune now cache) ≡ if_fresh now (lookup key cache)
unfolding prune
lookup-prune now key [] = refl
lookup-prune now key ((other, entry) ∷ cache) =
    let later = lookup-prune now key cache in
    elim (Bool-cases (time_after now entry.expires_at)) [
      | inl old ↦
          ap (lookup key) (if_true _ _ old)
          ∙ lookup-erase other key (prune now cache)
          ∙ if_cases
              (λ (found : Option CachedInstanceMetadata).
                (if other == key then none else lookup key (prune now cache)) ≡ if_fresh now found)
              (other == key) (some entry) (lookup key cache)
              (λ same. if_true _ _ same ∙ sym (if_true _ _ old))
              (λ differs. if_false _ _ differs ∙ later)
      | inr fresh ↦
          ap (lookup key) (if_false _ _ fresh)
          ∙ if_cases
              (λ (found : Option CachedInstanceMetadata).
                (if other == key then some entry else lookup key (prune now cache))
                ≡ if_fresh now found)
              (other == key) (some entry) (lookup key cache)
              (λ same. if_true _ _ same ∙ sym (if_false _ _ fresh))
              (λ differs. if_false _ _ differs ∙ later)
    ]

abbrev cluster_entry : List (String × InstanceMetadata) → ℕ → CachedInstanceMetadata
cluster_entry known expires_at = record {
  metadata = no_metadata;
  cluster = known;
  expires_at = expires_at;
}

known_of : Answer (List (String × InstanceMetadata)) → List (String × InstanceMetadata)
known_of (ok known) = known
known_of (failed error) = []

is_answered : Answer (List (String × InstanceMetadata)) → Bool
is_answered (ok known) = true
is_answered (failed error) = false

module _ (api : RdsApi) (ttl : ℕ) where
  refreshed_with-entry :
      (cluster_name : String) (start : ℕ) (cache after : Cache)
      (known : List (String × InstanceMetadata)) (answer : Answer (List DbInstance))
      → refreshed_with api ttl cluster_name start cache answer ≡ (ok known, after)
      → lookup (cluster_cache_key cluster_name) after
        ≡ some (cluster_entry known (start + cache_ttl ttl))
  unfolding known_of is_answered store_cluster
  refreshed_with-entry cluster_name start cache after known (failed error) e =
      cc (ap (λ r. is_answered r.0) e)
  refreshed_with-entry cluster_name start cache after known (ok instances) e =
      let key = cluster_cache_key cluster_name in
      let expires_at = start + cache_ttl ttl in
      let stored = store_instances_of cluster_name expires_at instances ([], cache) in
      ap (λ r. lookup key r.1) (sym e)
      ∙ lookup-insert key key (cluster_entry stored.0 expires_at) stored.1
      ∙ if_true _ _ (eq_refl key)
      ∙ ap (λ r. some (cluster_entry (known_of r.0) expires_at)) e

  -- What a cached entry serves.
  snapshot-served :
      (key : String) (now : ℕ) (cache : Cache) (reappeared : List String)
      (known : List (String × InstanceMetadata)) (expires_at : ℕ)
      → served api ttl reappeared
          (snapshot_of key now cache (if_fresh now (some (cluster_entry known expires_at)))).0
        ≡ (if time_after now expires_at then [] else without_names reappeared known)
  snapshot-served key now cache reappeared known expires_at =
      elim (Bool-cases (time_after now expires_at)) [
        | inl old ↦
            ap (λ found. served api ttl reappeared (snapshot_of key now cache found).0)
              (if_true none (some (cluster_entry known expires_at)) old)
            ∙ sym (if_true _ _ old)
        | inr fresh ↦
            ap (λ found. served api ttl reappeared (snapshot_of key now cache found).0)
              (if_false none (some (cluster_entry known expires_at)) fresh)
            ∙ ap
                (λ (r : Option (List (String × InstanceMetadata)) × Cache).
                  served api ttl reappeared r.0)
                (if_false _ _ fresh)
            ∙ sym (if_false _ _ fresh)
      ]

  -- A refresh that succeeded is what the resolver serves without calling the API, until the time to live has
  -- passed, except for the names that were missing and are asked for again; after that it serves nothing.
  pub resolve-refreshed :
      (resource : PgBouncerAurora) (instance_names : List String) (start now : ℕ)
      (cache after : Cache) (known : List (String × InstanceMetadata))
      → trim_space resource.spec.discovery.cluster_name == "" ≡ false
      → refresh_cluster api ttl resource.spec.discovery.cluster_name start cache ≡ (ok known, after)
      → (resolve api ttl true resource instance_names now after).0
        ≡ ok (
            if time_after now (start + cache_ttl ttl)
            then []
            else without_names
                (reappeared_instance_names resource (unique_sorted instance_names))
                known)
  unfolding resolve refresh_cluster cluster_snapshot
  resolve-refreshed resource instance_names start now cache after known named e =
      let cluster_name = trim_space resource.spec.discovery.cluster_name in
      let key = cluster_cache_key cluster_name in
      let reappeared = reappeared_instance_names resource (unique_sorted instance_names) in
      let entry =
        refreshed_with-entry cluster_name start (prune start cache) after known
          (fetched api ttl cluster_name) (sym (if_false _ _ named) ∙ e) in
      ap (λ (r : Answer (List (String × InstanceMetadata)) × Cache). r.0) (if_false _ _ named)
      ∙ ap (λ found. ok (served api ttl reappeared (snapshot_of key now (prune now after) found).0))
          (lookup-prune now key after ∙ ap (if_fresh now) entry)
      ∙ ap ok (snapshot-served key now (prune now after) reappeared known (start + cache_ttl ttl))
