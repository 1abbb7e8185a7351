-- ===== src/RdsMetadata/Tests.antt =====
-- A refresh and what the cache serves of it, at a concrete input.
use pgbouncer_aurora_operato.Base.{
  if◌then◌else◌, time_after, trim_space, sort_by, Answer, ok, ◌+◌, String, ◌≡◌, refl, true, none,
  some, List, [], ◌∷◌,
}
use pgbouncer_aurora_operato.Samples.{sample_resource}
use pgbouncer_aurora_operato.Discovery.{unique, unique_sorted, InstanceMetadata}
use pgbouncer_aurora_operato.RdsMetadata.{
  Cache, RdsApi, metadata_from_db_instance, name_cache_key, cluster_cache_key, cache_ttl, prune,
  store, store_cluster, cluster_snapshot, reappeared_instance_names, without_names,
  store_instances_of, describe_cluster, refresh_cluster, resolve,
}
use pgbouncer_aurora_operato.RdsMetadata.Served.{resolve-refreshed}

abbrev sample_api : RdsApi
sample_api = record {
  wait_rate_limit = λ operation. ok tt;
  describe_db_clusters = λ cluster_name. ok 1;
  describe_db_instances = λ cluster_name. ok (
      record {
        db_instance_identifier = some "db-1";
        availability_zone = some "zone-a";
        dbi_resource_id = none;
        db_instance_status = some "available";
      }
      ∷ []);
}

abbrev sample_known : List (String × InstanceMetadata)
sample_known =
    (
      "db-1",
      record {
        instance_name = "db-1";
        availability_zone = "zone-a";
        dbi_resource_id = "";
        status = "available";
      },
    )
    ∷ []

abbrev refreshed : Answer (List (String × InstanceMetadata)) × Cache
refreshed = refresh_cluster sample_api 0 "aurora" 1000 []

refreshed_known : refreshed ≡ (ok sample_known, refreshed.1)
unfolding refresh_cluster trim_space describe_cluster store_instances_of metadata_from_db_instance
    prune
refreshed_known = refl

resolve-refreshed_example :
    (resolve sample_api 0 true sample_resource ("db-1" ∷ []) 2000 refreshed.1).0
    ≡ ok (
        if time_after 2000 (1000 + cache_ttl 0)
        then []
        else without_names
            (reappeared_instance_names sample_resource (unique_sorted ("db-1" ∷ [])))
            sample_known)
unfolding trim_space
resolve-refreshed_example =
    resolve-refreshed sample_api 0 sample_resource ("db-1" ∷ []) 1000 2000 [] refreshed.1
      sample_known refl refreshed_known

served_known :
    (resolve sample_api 0 true sample_resource ("db-1" ∷ []) 2000 refreshed.1).0 ≡ ok sample_known
unfolding resolve refresh_cluster trim_space describe_cluster store_instances_of
    metadata_from_db_instance prune cluster_snapshot store_cluster cluster_cache_key cache_ttl store
    name_cache_key reappeared_instance_names unique_sorted unique sort_by without_names
served_known = refl
