-- ===== src/Reconcile/Tests.antt =====
-- A reconcile at a concrete input: a server that keeps the resource and has no other objects.
use pgbouncer_aurora_operato.Base.{ok, failed, ◌^^◌, ◌≡◌, refl, true, false, none, some, [], ◌∷◌}
use pgbouncer_aurora_operato.Api.{PgBouncerAurora, condition_false, PgBouncerAuroraStatus}
use pgbouncer_aurora_operato.Samples.{discovery_condition, sample_status, sample_resource}
use pgbouncer_aurora_operato.Controller.Cache.{trusted_in, last_discovery_trusted, cached_discovery}
use pgbouncer_aurora_operato.Controller.Pods.{gone}
use pgbouncer_aurora_operato.Controller.Removal.{not_found}
use pgbouncer_aurora_operato.Controller.Stored.Agrees.{SameState}
use pgbouncer_aurora_operato.Reconcile.{Reconciler, reconcile_resource}
use pgbouncer_aurora_operato.Reconcile.Frozen.{reconcile_resource-untrusted}

abbrev sample_reconciler : Reconciler PgBouncerAurora
sample_reconciler = record {
  watch_names = "*";
  min_interval = 0;
  scheduled = true;
  discover = some (λ resource. failed "not asked");
  monitor = none;
  get = λ s. ok (some s);
  refresh = λ s resource. ok (some s);
  pods = λ s. ok [];
  pod_names = λ s. ok [];
  pod_api = record { get = λ s name. ok none; patch = λ s name labels. gone s };
  deployment_api = record { get = λ s name. ok none; update = λ s name annotations. ok s };
  apply_api = record {
    apply = λ resource s object. ok s;
    services = λ s. ok [];
    delete = λ s kind name. not_found s;
    auth_file_hash = λ s. "";
  };
  drift = λ s resource plan. ok (false, "");
  update = λ s change. ok (record s { status = change s.status });
  hashes = record {
    topology = λ topology. "topology";
    missing = λ missing. "missing";
    membership = λ membership. "membership";
  };
  hash_shapes = λ shapes. "shapes";
  hash_token = λ payload. "token";
  role_service_name = λ pool name. pool ^^ "-" ^^ name;
  resource_name = λ pool name. pool ^^ "-" ^^ name;
}

-- The last discovery of the resource was not trusted.
abbrev untrusted_resource : PgBouncerAurora
untrusted_resource = record sample_resource {
  status = record sample_status { conditions = discovery_condition condition_false ∷ [] };
}

reconcile_resource-untrusted_example :
    (change : PgBouncerAuroraStatus → PgBouncerAuroraStatus) × (reconcile_resource sample_reconciler
        untrusted_resource untrusted_resource 5000000000
      ≡ ok (0, record untrusted_resource { status = change untrusted_resource.status }))
    × ((fresh : PgBouncerAuroraStatus) → SameState (change fresh) fresh)
unfolding cached_discovery last_discovery_trusted trusted_in
reconcile_resource-untrusted_example =
    reconcile_resource-untrusted sample_reconciler untrusted_resource untrusted_resource 5000000000
      refl refl
