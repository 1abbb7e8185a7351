-- ===== src/RdsMetadata.antt =====
-- internal/discovery/rds.go and internal/controller/rds_metadata_worker.go: the metadata of instances that the RDS
-- API knows, kept in a cache, and the worker that refreshes it. The API, the rate limit and the clock are
-- arguments; each operation holds the lock, and gives the cache afterwards.
pub mod Served
mod Tests
use pgbouncer_aurora_operato.Base.{
  ◌=?◌, if◌then◌else◌, is_empty, filter, any, int64_pos, time_after, trim_space, contains, lookup,
  insert, erase, Answer, ok, failed, map_answer, ◌>>=◌, ℕ, suc, ◌+◌, ◌*◌, String, ◌^^◌, Bool, true,
  false, not, ◌||◌, Option, none, some, List, [], ◌∷◌, map, ◌==◌,
}
use pgbouncer_aurora_operato.Api.{PgBouncerAurora}
use pgbouncer_aurora_operato.Discovery.{unique_sorted, InstanceMetadata, no_metadata}
use pgbouncer_aurora_operato.Controller.Due.{second}
use pgbouncer_aurora_operato.Scheduler.Watch.{matches_watch_names}

pub record CachedInstanceMetadata : Type 0 where
  pub metadata : InstanceMetadata
  pub cluster : List (String × InstanceMetadata)
  pub expires_at : ℕ

abbrev pub Cache : Type 0
Cache = List (String × CachedInstanceMetadata)

-- What is read of an instance in the answer of the API.
pub record DbInstance : Type 0 where
  pub db_instance_identifier : Option String
  pub availability_zone : Option String
  pub dbi_resource_id : Option String
  pub db_instance_status : Option String

-- The calls of the API, and the wait for the rate limit before each. A cluster counts by how many are found.
pub record RdsApi : Type 0 where
  pub wait_rate_limit : String → Answer {0} Unit
  pub describe_db_clusters : String → Answer ℕ
  pub describe_db_instances : String → Answer (List DbInstance)

abbrev pub text_or_empty : Option String → String
text_or_empty none = ""
text_or_empty (some text) = text

unfoldable pub metadata_from_db_instance : DbInstance → Option InstanceMetadata
metadata_from_db_instance db_instance =
    if text_or_empty db_instance.db_instance_identifier == ""
    then none
    else some (record {
      instance_name = text_or_empty db_instance.db_instance_identifier;
      availability_zone = text_or_empty db_instance.availability_zone;
      dbi_resource_id = text_or_empty db_instance.dbi_resource_id;
      status = text_or_empty db_instance.db_instance_status;
    })

unfoldable pub name_cache_key : String → String → String
name_cache_key cluster_name instance_name = "instance:" ^^ cluster_name ^^ ":" ^^ instance_name

unfoldable pub cluster_cache_key : String → String
cluster_cache_key cluster_name = "cluster:" ^^ cluster_name

unfoldable pub cache_ttl : ℕ → ℕ
cache_ttl ttl = if int64_pos ttl then ttl else 60 * second

unfoldable pub prune : ℕ → Cache → Cache
prune now [] = []
prune now ((key, entry) ∷ cache) =
    let rest = prune now cache in
    if time_after now entry.expires_at then erase key rest else (key, entry) ∷ rest

unfoldable pub store : String → InstanceMetadata → ℕ → Cache → Cache
store key metadata expires_at =
    insert key (record { metadata = metadata; cluster = []; expires_at = expires_at })

unfoldable pub store_cluster : String → List (String × InstanceMetadata) → ℕ → Cache → Cache
store_cluster cluster_name cluster expires_at =
    insert (cluster_cache_key cluster_name)
      (record { metadata = no_metadata; cluster = cluster; expires_at = expires_at })

-- The entry of a cluster that has not expired, and the cache without one that has.
abbrev pub snapshot_of :
    String
    → ℕ
    → Cache
    → Option CachedInstanceMetadata
    → Option (List (String × InstanceMetadata)) × Cache
snapshot_of key now cache none = (none, cache)
snapshot_of key now cache (some entry) =
    if time_after now entry.expires_at then (none, erase key cache) else (some entry.cluster, cache)

unfoldable pub cluster_snapshot :
    String → ℕ → Cache → Option (List (String × InstanceMetadata)) × Cache
cluster_snapshot cluster_name now cache =
    snapshot_of (cluster_cache_key cluster_name) now cache
      (lookup (cluster_cache_key cluster_name) cache)

abbrev pub is_known : List (String × InstanceMetadata) → String → Bool
is_known known name = elim (lookup name known) [ none ↦ false | some metadata ↦ true ]

abbrev pub if_all_known :
    List String
    → Option (List (String × InstanceMetadata))
    → Option (List (String × InstanceMetadata))
if_all_known requested none = none
if_all_known requested (some known) =
    if any (λ name. not (is_known known name)) requested then none else some known

unfoldable pub cluster_cached :
    String → List String → ℕ → Cache → Option (List (String × InstanceMetadata)) × Cache
cluster_cached cluster_name requested now cache =
    let found = cluster_snapshot cluster_name now cache in (if_all_known requested found.0, found.1)

-- The names that were missing and are asked for again.
unfoldable pub reappeared_instance_names : PgBouncerAurora → List String → List String
reappeared_instance_names resource requested =
    filter (contains (map trim_space requested))
      (map (λ missing. trim_space missing.instance_name) resource.status.missing_instances)

unfoldable pub without_names :
    List String → List (String × InstanceMetadata) → List (String × InstanceMetadata)
without_names [] known = known
without_names (name ∷ names) known = without_names names (erase name known)

-- The loop over the instances of the answer: what is found, and the cache.
abbrev pub stored_instance :
    String
    → ℕ
    → Option InstanceMetadata
    → List (String × InstanceMetadata) × Cache
    → List (String × InstanceMetadata) × Cache
stored_instance cluster_name expires_at none (out, cache) = (out, cache)
stored_instance cluster_name expires_at (some metadata) (out, cache) = (
  insert metadata.instance_name metadata out,
  store (name_cache_key cluster_name metadata.instance_name) metadata expires_at cache,
)

unfoldable pub store_instances_of :
    String
    → ℕ
    → List DbInstance
    → List (String × InstanceMetadata) × Cache
    → List (String × InstanceMetadata) × Cache
store_instances_of cluster_name expires_at [] state = state
store_instances_of cluster_name expires_at (db_instance ∷ rest) state =
    store_instances_of cluster_name expires_at rest
      (stored_instance cluster_name expires_at (metadata_from_db_instance db_instance) state)

module _ (api : RdsApi) (ttl : ℕ) where
  unfoldable pub describe_cluster : String → Answer {0} Unit
  describe_cluster cluster_name = do
    waited ← api.wait_rate_limit "DescribeDBClusters"
    clusters ← api.describe_db_clusters cluster_name
    if clusters =? 0 then failed ("DB cluster \"" ^^ cluster_name ^^ "\" not found") else ok tt

  abbrev pub fetched : String → Answer (List DbInstance)
  fetched cluster_name = do
    described ← describe_cluster cluster_name
    waited ← api.wait_rate_limit "DescribeDBInstances"
    api.describe_db_instances cluster_name

  abbrev pub refreshed_with :
      String
      → ℕ
      → Cache
      → Answer (List DbInstance)
      → Answer (List (String × InstanceMetadata)) × Cache
  refreshed_with cluster_name now cache (failed error) = (failed error, cache)
  refreshed_with cluster_name now cache (ok instances) =
      let expires_at = now + cache_ttl ttl in
      let stored = store_instances_of cluster_name expires_at instances ([], cache) in
      (ok stored.0, store_cluster cluster_name stored.0 expires_at stored.1)

  unfoldable pub refresh_cluster :
      String → ℕ → Cache → Answer (List (String × InstanceMetadata)) × Cache
  refresh_cluster cluster_name now cache =
      let name = trim_space cluster_name in
      let done = refreshed_with name now (prune now cache) (fetched name) in
      if name == ""
      then (failed "clusterName is required for RDS metadata refresh", cache)
      else done

  -- `CachedOnly`: the API is not called.
  abbrev pub served :
      List String → Option (List (String × InstanceMetadata)) → List (String × InstanceMetadata)
  served reappeared none = []
  served reappeared (some known) = without_names reappeared known

  abbrev pub cached_or :
      Answer (List (String × InstanceMetadata)) × Cache
      → Option (List (String × InstanceMetadata)) × Cache
      → Answer (List (String × InstanceMetadata)) × Cache
  cached_or refreshed (none, cache) = refreshed
  cached_or refreshed (some known, cache) = (ok known, cache)

  unfoldable pub resolve :
      Bool
      → PgBouncerAurora
      → List String
      → ℕ
      → Cache
      → Answer (List (String × InstanceMetadata)) × Cache
  resolve cached_only resource instance_names now cache =
      let cluster_name = trim_space resource.spec.discovery.cluster_name in
      let pruned = prune now cache in
      let requested = unique_sorted instance_names in
      let reappeared = reappeared_instance_names resource requested in
      let snapshot = cluster_snapshot cluster_name now pruned in
      let known = cluster_cached cluster_name requested now pruned in
      let refreshed = refresh_cluster cluster_name now known.1 in
      let forced = refresh_cluster cluster_name now pruned in
      if cluster_name == ""
      then (failed "discovery.clusterName is required for RDS metadata inventory", cache)
      else if cached_only
      then (ok (served reappeared snapshot.0), snapshot.1)
      else if not (is_empty reappeared)
      then forced
      else cached_or refreshed known

-- internal/controller/rds_metadata_worker.go: the clusters of the watched resources.
unfoldable pub watched_clusters : String → List PgBouncerAurora → List String
watched_clusters watch_name [] = []
watched_clusters watch_name (resource ∷ rest) =
    let later = watched_clusters watch_name rest in
    let cluster_name = trim_space resource.spec.discovery.cluster_name in
    if not (matches_watch_names watch_name resource.name) || cluster_name == ""
    then later
    else cluster_name ∷ later

unfoldable pub cluster_names : String → Answer (List PgBouncerAurora) → Answer (List String)
cluster_names watch_name resources =
    map_answer (λ listed. unique_sorted (watched_clusters watch_name listed)) resources

-- The loop of the worker: the cache, and the number of failures.
abbrev pub counted_failure : Answer (List (String × InstanceMetadata)) → ℕ → ℕ
counted_failure (ok known) failures = failures
counted_failure (failed error) failures = suc failures

unfoldable pub refresh_each : RdsApi → ℕ → ℕ → List String → Cache → ℕ → Cache × ℕ
refresh_each api ttl now [] cache failures = (cache, failures)
refresh_each api ttl now (cluster_name ∷ rest) cache failures =
    let done = refresh_cluster api ttl cluster_name now cache in
    refresh_each api ttl now rest done.1 (counted_failure done.0 failures)
