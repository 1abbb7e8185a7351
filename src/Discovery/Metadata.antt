-- ===== src/Discovery/Metadata.antt =====
-- internal/discovery/aurora.go: RDS metadata enriches the topology and never decides it.
use pgbouncer_aurora_operato.Base.{
  if◌then◌else◌, if_cases, is_empty, trim_space, insert_sorted, sort_by, contains, Answer, ok,
  failed, suc, String, ◌≡◌, refl, ap, ap₂, ◌∙◌, Bool, true, false, Option, none, some, List, [],
  ◌∷◌, map, arith, ◌==◌,
}
use pgbouncer_aurora_operato.Api.{PgBouncerAurora, role_writer, InstanceTopologyStatus}
use pgbouncer_aurora_operato.Domain.{InstanceObservation, DiscoveryResult}
use pgbouncer_aurora_operato.Discovery.{
  Built, rejected, built, add_instance, build_rows, finish, build_result, Provider, server_ids,
  with_metadata, resolve_metadata, discover_rows, discover_from, discover, AuroraReplicaStatusRow,
  InstanceMetadata, previous_topology, endpoint_for_instance,
}

-- An observation without what the metadata gives.
abbrev pub core : InstanceObservation → InstanceObservation
core observation = record observation { availability_zone = ""; dbi_resource_id = "" }

abbrev pub SameTopology : DiscoveryResult → DiscoveryResult → Type 0
SameTopology a b = (a.trusted ≡ b.trusted) × (map core a.instances ≡ map core b.instances)

abbrev SameBuilt : Built → Built → Type 0
SameBuilt (rejected a) (rejected b) = a ≡ b
SameBuilt (rejected a) (built js m) = ⊥
SameBuilt (built is n) (rejected b) = ⊥
SameBuilt (built is n) (built js m) = (n ≡ m) × (map core is ≡ map core js)

add_instance-SameBuilt :
    (o p : InstanceObservation) (a b : Built)
    → core o ≡ core p
    → SameBuilt a b
    → SameBuilt (add_instance o a) (add_instance p b)
add_instance-SameBuilt o p (rejected a) (rejected b) e s = s
add_instance-SameBuilt o p (rejected a) (built js m) e s = absurd s
add_instance-SameBuilt o p (built is n) (rejected b) e s = absurd s
add_instance-SameBuilt o p (built is n) (built js m) e s = (
  ap₂ (λ role count. if role == role_writer then suc count else count) (ap (λ c. c.role) e) s.0,
  ap₂ ◌∷◌ e s.1,
)

SameBuilt-if :
    (b : Bool) (x x' y y' : Built)
    → SameBuilt x x'
    → SameBuilt y y'
    → SameBuilt (if b then x else y) (if b then x' else y')
SameBuilt-if true x x' y y' s t = s
SameBuilt-if false x x' y y' s t = t

build_rows-SameBuilt :
    (resource : PgBouncerAurora) (previous : List (String × InstanceTopologyStatus))
    (m m' : List (String × InstanceMetadata)) (seen : List String)
    (rows : List AuroraReplicaStatusRow)
    → SameBuilt
        (build_rows resource previous m seen rows)
        (build_rows resource previous m' seen rows)
unfolding build_rows
build_rows-SameBuilt resource previous m m' seen [] = (refl, refl)
build_rows-SameBuilt resource previous m m' seen (row ∷ rows) =
    let name = trim_space row.server_id in
    SameBuilt-if (name == "") _ _ _ _ refl (
      SameBuilt-if (contains seen name) _ _ _ _ refl (
        SameBuilt-if (endpoint_for_instance resource name previous == "") _ _ _ _ refl (
          add_instance-SameBuilt _ _ _ _ refl
            (build_rows-SameBuilt resource previous m m' (name ∷ seen) rows))))

insert_sorted-core :
    (o : InstanceObservation) (l : List InstanceObservation)
    → map core (insert_sorted (λ o. o.name) o l) ≡ insert_sorted (λ o. o.name) (core o) (map core l)
unfolding insert_sorted
insert_sorted-core o [] = refl
insert_sorted-core o (p ∷ l) = ground (arith, insert_sorted-core o l)

sort_by-core :
    (l : List InstanceObservation)
    → map core (sort_by (λ o. o.name) l) ≡ sort_by (λ o. o.name) (map core l)
unfolding sort_by
sort_by-core [] = refl
sort_by-core (o ∷ l) =
    insert_sorted-core o (sort_by (λ o. o.name) l)
    ∙ ap (insert_sorted (λ o. o.name) (core o)) (sort_by-core l)

is_empty-core : (l : List InstanceObservation) → is_empty (map core l) ≡ is_empty l
is_empty-core [] = refl
is_empty-core (o ∷ l) = refl

finish-SameTopology : (a b : Built) → SameBuilt a b → SameTopology (finish a) (finish b)
unfolding finish
finish-SameTopology (rejected a) (rejected b) s = (refl, refl)
finish-SameTopology (rejected a) (built js m) s = absurd s
finish-SameTopology (built is n) (rejected b) s = absurd s
finish-SameTopology (built is n) (built js m) s = ground (
  arith,
  s.0,
  is_empty-core is,
  is_empty-core js,
  ap is_empty s.1,
  sort_by-core is,
  sort_by-core js,
  ap (sort_by (λ o. o.name)) s.1,
)

build_result-SameTopology :
    (resource : PgBouncerAurora) (rows : List AuroraReplicaStatusRow)
    (m m' : List (String × InstanceMetadata))
    → SameTopology (build_result resource rows m) (build_result resource rows m')
unfolding build_result
build_result-SameTopology resource [] m m' = (refl, refl)
build_result-SameTopology resource (row ∷ rows) m m' =
    finish-SameTopology _ _
      (build_rows-SameBuilt resource (previous_topology resource) m m' [] (row ∷ rows))

with_metadata-SameTopology :
    (resource : PgBouncerAurora) (rows : List AuroraReplicaStatusRow)
    (answer : Answer (List (String × InstanceMetadata)))
    → SameTopology (with_metadata resource rows answer) (build_result resource rows [])
unfolding with_metadata
with_metadata-SameTopology resource rows (ok metadata) =
    build_result-SameTopology resource rows metadata []
with_metadata-SameTopology resource rows (failed error) =
    if_cases (λ result. SameTopology result (build_result resource rows [])) (error == "") _ _
      (λ _. (refl, refl)) (λ _. (refl, refl))

discover_from-SameTopology :
    (provider : Provider) (resource : PgBouncerAurora)
    (rows : Option (PgBouncerAurora → Answer (List AuroraReplicaStatusRow)))
    → SameTopology
        (discover_from provider resource rows)
        (discover_from (record provider { metadata = none }) resource rows)
unfolding with_metadata
discover_from-SameTopology provider resource none = (refl, refl)
discover_from-SameTopology provider resource (some rows) = go (rows resource)
  where
    go :
        (answer : Answer (List AuroraReplicaStatusRow))
        → SameTopology
            (discover_rows provider resource answer)
            (discover_rows (record provider { metadata = none }) resource answer)
    go (failed error) = (refl, refl)
    go (ok rows) =
        with_metadata-SameTopology resource rows
          (resolve_metadata provider.metadata resource (server_ids rows))

-- Whatever the RDS API answers, also an error: the topology is trusted just when it is without the
-- API, and has the same instances with the same endpoints, ports and roles.
pub discover_without_metadata :
    (provider : Provider) (resource : PgBouncerAurora)
    → SameTopology
        (discover provider resource)
        (discover (record provider { metadata = none }) resource)
unfolding discover
discover_without_metadata provider resource =
    discover_from-SameTopology provider resource provider.rows
