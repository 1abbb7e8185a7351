-- ===== src/Discovery/Accepted.antt =====
-- internal/discovery/aurora.go: what a trusted result is like, and when a result is trusted.
use mathlib.Core.List.Perm
use pgbouncer_aurora_operato.Base.{
  ◌=?◌, if◌then◌else◌, if_cases, length, is_empty, count, All, trim_space, sort_by, IsSortedBy,
  sort_by-perm, sort_by-IsSortedBy, count-sort_by, All-sort_by, contains, ℕ, suc, ◌≤◌, String, ◌≡◌,
  refl, sym, ap, subst, ◌∙◌, true, false, not, List, [], ◌∷◌, map, Perm, arith, ◌==◌, eq_iff,
}
use pgbouncer_aurora_operato.Api.{PgBouncerAurora, role_writer, InstanceTopologyStatus}
use pgbouncer_aurora_operato.Domain.{InstanceObservation, DiscoveryResult}
use pgbouncer_aurora_operato.Discovery.{
  Built, rejected, built, add_instance, observation_for, build_rows, finish, build_result,
  AuroraReplicaStatusRow, InstanceMetadata, role_from_session_id, previous_topology,
  endpoint_for_instance, port_for_instance, default_port,
}

-- Names, endpoints and ports are there.
abbrev pub IsUsable : InstanceObservation → Type 0
IsUsable observation =
    ((observation.name == "") ≡ false)
    × ((observation.endpoint == "") ≡ false)
    × ((observation.port =? 0) ≡ false)

abbrev names_of_rows : List AuroraReplicaStatusRow → List String
names_of_rows = map (λ row. trim_space row.server_id)

-- What the loop has built from some rows, after the names in `seen`.
abbrev BuiltFrom : List String → List AuroraReplicaStatusRow → Built → Type 0
BuiltFrom seen rows (rejected reason) = Unit
BuiltFrom seen rows (built instances writer_count) =
    (count (λ o. o.role == role_writer) instances ≡ writer_count)
    × All IsUsable instances
    × ((name : String)
        → count (λ o. o.name == name) instances ≤ (if contains seen name then 0 else 1))
    × (map (λ o. o.name) instances ≡ names_of_rows rows)

module _ (resource : PgBouncerAurora) (previous : List (String × InstanceTopologyStatus))
    (metadata : List (String × InstanceMetadata)) where
  default_port-ne-zero : (port : ℕ) → (default_port port =? 0) ≡ false
  default_port-ne-zero port = ground arith

  add_instance-BuiltFrom :
      (seen : List String) (row : AuroraReplicaStatusRow) (rows : List AuroraReplicaStatusRow)
      (later : Built)
      → let name = trim_space row.server_id in
        (name == "") ≡ false
        → contains seen name ≡ false
        → (endpoint_for_instance resource name previous == "") ≡ false
        → BuiltFrom (name ∷ seen) rows later
        → BuiltFrom seen
            (row ∷ rows)
            (add_instance (observation_for resource previous metadata name row) later)
  add_instance-BuiltFrom seen row rows (rejected reason) named new ended b = tt
  add_instance-BuiltFrom seen row rows (built instances writer_count) named new ended (c, u, d, m) =
      (
        ground arith,
        (
          (
            named,
            ended,
            default_port-ne-zero (port_for_instance resource (trim_space row.server_id) previous),
          ),
          u,
        ),
        (λ name. ground (arith, d name, eq_iff (trim_space row.server_id) name)),
        ap (◌∷◌ (trim_space row.server_id)) m,
      )

  build_rows-BuiltFrom :
      (seen : List String) (rows : List AuroraReplicaStatusRow)
      → BuiltFrom seen rows (build_rows resource previous metadata seen rows)
  unfolding build_rows
  build_rows-BuiltFrom seen [] = (refl, tt, (λ name. omega arith), refl)
  build_rows-BuiltFrom seen (row ∷ rows) =
      let name = trim_space row.server_id in
      if_cases (BuiltFrom seen (row ∷ rows)) (name == "") _ _ (λ _. tt)
        λ named.
          if_cases (BuiltFrom seen (row ∷ rows)) (contains seen name) _ _ (λ _. tt)
            λ new.
              if_cases (BuiltFrom seen (row ∷ rows))
                (endpoint_for_instance resource name previous == "") _ _ (λ _. tt)
                λ ended.
                  add_instance-BuiltFrom seen row rows
                    (build_rows resource previous metadata (name ∷ seen) rows) named new ended
                    (build_rows-BuiltFrom (name ∷ seen) rows)

-- A trusted result: one writer, usable instances, no name twice, sorted, and the names of the rows.
pub record IsSound (rows : List AuroraReplicaStatusRow) (result : DiscoveryResult) : Type 0 where
  pub one_writer : count (λ o. o.role == role_writer) result.instances ≡ 1
  pub usable : All IsUsable result.instances
  pub distinct : (name : String) → count (λ o. o.name == name) result.instances ≤ 1
  pub sorted : IsSortedBy (λ o. o.name) result.instances
  pub complete : Perm (map (λ o. o.name) result.instances) (names_of_rows rows)

finish-IsSound :
    (rows : List AuroraReplicaStatusRow) (b : Built)
    → BuiltFrom [] rows b
    → (finish b).trusted ≡ true
    → IsSound rows (finish b)
unfolding finish
finish-IsSound rows (rejected reason) b h = cc
finish-IsSound rows (built instances writer_count) (c, u, d, m) h =
    if_cases Sound (not (writer_count =? 1)) _ _ (λ _ h'. cc)
      (λ one.
        if_cases Sound (is_empty instances) _ _ (λ _ h'. cc)
          λ _ _. record {
            one_writer =
                count-sort_by (λ o. o.name) (λ o. o.role == role_writer) instances
                ∙ c
                ∙ (ground arith);
            usable = All-sort_by (λ o. o.name) IsUsable instances u;
            distinct = λ name.
                subst (λ n. n ≤ 1)
                  (sym (count-sort_by (λ o. o.name) (λ o. o.name == name) instances)) (d name);
            sorted = sort_by-IsSortedBy (λ o. o.name) instances;
            complete =
                subst (Perm (map (λ o. o.name) (sort_by (λ o. o.name) instances))) m
                  (Perm.map (λ o. o.name) (sort_by-perm (λ o. o.name) instances));
          })
      h
  where
    Sound : DiscoveryResult → Type 0
    Sound result = result.trusted ≡ true → IsSound rows result

-- A trusted topology has exactly one writer, no name twice, a name, endpoint and port for each
-- instance, and an instance for each row.
pub build_result-IsSound :
    (resource : PgBouncerAurora) (rows : List AuroraReplicaStatusRow)
    (metadata : List (String × InstanceMetadata))
    → (build_result resource rows metadata).trusted ≡ true
    → IsSound rows (build_result resource rows metadata)
unfolding build_result
build_result-IsSound resource rows metadata =
    if_cases (λ result. result.trusted ≡ true → IsSound rows result) (is_empty rows) _ _ (λ _ h. cc)
      λ _.
        finish-IsSound rows (build_rows resource (previous_topology resource) metadata [] rows)
          (build_rows-BuiltFrom resource (previous_topology resource) metadata [] rows)

-- What a row must be like for the loop to go on: a new name that is not empty, with an endpoint.
abbrev pub AreReadable : PgBouncerAurora → List String → List AuroraReplicaStatusRow → Type 0
AreReadable resource seen [] = Unit
AreReadable resource seen (row ∷ rows) =
    ((trim_space row.server_id == "") ≡ false)
    × (contains seen (trim_space row.server_id) ≡ false)
    × ((endpoint_for_instance resource (trim_space row.server_id) (previous_topology resource)
          == "")
        ≡ false)
    × AreReadable resource (trim_space row.server_id ∷ seen) rows

abbrev pub count_masters : List AuroraReplicaStatusRow → ℕ
count_masters = count (λ row. role_from_session_id row.session_id == role_writer)

abbrev IsBuilt : ℕ → ℕ → Built → Type 0
IsBuilt size masters (rejected reason) = ⊥
IsBuilt size masters (built instances writer_count) =
    (length instances ≡ size) × (writer_count ≡ masters)

add_instance-IsBuilt :
    (size masters : ℕ) (observation : InstanceObservation) (b : Built)
    → IsBuilt size masters b
    → IsBuilt
        (suc size)
        (if observation.role == role_writer then suc masters else masters)
        (add_instance observation b)
add_instance-IsBuilt size masters observation (rejected reason) h = h
add_instance-IsBuilt size masters observation (built instances writer_count) (n, m) = ground arith

build_rows-IsBuilt :
    (resource : PgBouncerAurora) (metadata : List (String × InstanceMetadata)) (seen : List String)
    (rows : List AuroraReplicaStatusRow)
    → AreReadable resource seen rows
    → IsBuilt
        (length rows)
        (count_masters rows)
        (build_rows resource (previous_topology resource) metadata seen rows)
unfolding build_rows
build_rows-IsBuilt resource metadata seen [] r = (refl, refl)
build_rows-IsBuilt resource metadata seen (row ∷ rows) (named, new, ended, r) =
    rw (named, new, ended)
      (add_instance-IsBuilt (length rows) (count_masters rows)
        (observation_for resource (previous_topology resource) metadata (trim_space row.server_id)
          row)
        (build_rows resource (previous_topology resource) metadata (trim_space row.server_id ∷ seen)
          rows)
        (build_rows-IsBuilt resource metadata (trim_space row.server_id ∷ seen) rows r))

finish-trusted : (size : ℕ) (b : Built) → IsBuilt (suc size) 1 b → (finish b).trusted ≡ true
unfolding finish
finish-trusted size (rejected reason) h = absurd h
finish-trusted size (built [] writer_count) (n, m) = absurd (omega arith)
finish-trusted size (built (o ∷ instances) writer_count) (n, m) = ground arith

-- Rows with new names that are not empty, each with an endpoint, and one master among them are
-- trusted.
pub build_result_accepts :
    (resource : PgBouncerAurora) (rows : List AuroraReplicaStatusRow)
    (metadata : List (String × InstanceMetadata))
    → AreReadable resource [] rows
    → count_masters rows ≡ 1
    → (build_result resource rows metadata).trusted ≡ true
unfolding build_result
build_result_accepts resource [] metadata r m = absurd (omega arith)
build_result_accepts resource (row ∷ rows) metadata r m = finish-trusted (length rows) _ (
    subst
      (λ n.
        IsBuilt (length (row ∷ rows)) n
          (build_rows resource (previous_topology resource) metadata [] (row ∷ rows)))
      m (build_rows-IsBuilt resource metadata [] (row ∷ rows) r))
