-- ===== src/Controller/Missing/Candidates.antt =====
-- internal/controller/reconciler.go: the names and the entries that the loops of `missingInstancesFor`
-- collect.
use pgbouncer_aurora_operato.Base.{
  if◌then◌else◌, Bool-cases, if_cases, if_false, contains, lookup, insert, lookup-insert, String,
  ◌≡◌, refl, sym, ap, ◌∙◌, inl, inr, Bool, true, false, ◌||◌, Option, none, some, List, [], ◌∷◌,
  arith, ◌==◌, eq_iff,
}
use pgbouncer_aurora_operato.Api.{InstanceTopologyStatus, MissingInstanceStatus}
use pgbouncer_aurora_operato.Controller.Missing.{
  skips_name, add_candidate, existing_missing, known_missing,
}

abbrev pub newer :
    Option MissingInstanceStatus → Option MissingInstanceStatus → Option MissingInstanceStatus
newer none other = other
newer (some missing) other = some missing

-- The last entry of a name, which is the one that counts.
abbrev pub stored_missing : String → List MissingInstanceStatus → Option MissingInstanceStatus
stored_missing name [] = none
stored_missing name (missing ∷ rest) =
    newer (stored_missing name rest) (if missing.instance_name == name then some missing else none)

abbrev pub is_known : String → List InstanceTopologyStatus → Bool
is_known name [] = false
is_known name (status ∷ rest) = status.instance_name == name || is_known name rest

abbrev pub is_some : Option MissingInstanceStatus → Bool
is_some none = false
is_some (some missing) = true

pub contains-add_candidate :
    (name k : String) (names : List String)
    → contains (add_candidate name names) k ≡ (name == k || contains names k)
contains-add_candidate name k names = elim (Bool-cases (contains names name)) [
  | inl e ↦ ground (arith, e, eq_iff name k)
  | inr e ↦ ground (arith, e)
]

contains-candidates :
    (current cs : List String) (j k : String)
    → skips_name current k ≡ false
    → contains (if skips_name current j then cs else add_candidate j cs) k
      ≡ (contains cs k || j == k)
contains-candidates current cs j k h = elim (Bool-cases (j == k)) [
  | inl e ↦
      ap (λ b. contains (if b then cs else add_candidate j cs) k)
        (ap (skips_name current) ((eq_iff j k).0 e) ∙ h)
      ∙ contains-add_candidate j k cs
      ∙ ground (arith, e)
  | inr e ↦
      if_cases (λ names. contains names k ≡ (contains cs k || j == k)) (skips_name current j) cs
        (add_candidate j cs) (λ _. ground (arith, e))
        (λ _. contains-add_candidate j k cs ∙ ground (arith, e))
]

lookup-existing :
    (current : List String) (existing : List (String × MissingInstanceStatus))
    (m : MissingInstanceStatus) (k : String)
    → skips_name current k ≡ false
    → lookup k
        (if skips_name current m.instance_name then existing else insert m.instance_name m existing)
      ≡ (if m.instance_name == k then some m else lookup k existing)
lookup-existing current existing m k h = elim (Bool-cases (m.instance_name == k)) [
  | inl e ↦
      ap (λ b. lookup k (if b then existing else insert m.instance_name m existing))
        (ap (skips_name current) ((eq_iff m.instance_name k).0 e) ∙ h)
      ∙ lookup-insert m.instance_name k m existing
  | inr e ↦
      if_cases (λ map. lookup k map ≡ (if m.instance_name == k then some m else lookup k existing))
        (skips_name current m.instance_name) existing (insert m.instance_name m existing)
        (λ _. sym (if_false (some m) (lookup k existing) e))
        (λ _. lookup-insert m.instance_name k m existing)
]

pub contains-known_missing :
    (current candidates : List String) (statuses : List InstanceTopologyStatus) (k : String)
    → skips_name current k ≡ false
    → contains (known_missing current candidates statuses) k
      ≡ (contains candidates k || is_known k statuses)
unfolding known_missing
contains-known_missing current candidates [] k h = ground arith
contains-known_missing current candidates (status ∷ rest) k h =
    contains-known_missing current
      (if skips_name current status.instance_name
        then candidates
        else add_candidate status.instance_name candidates)
      rest k h
    ∙ ap (λ b. b || is_known k rest)
        (contains-candidates current candidates status.instance_name k h)
    ∙ ground arith

pub contains-existing_missing :
    (current candidates : List String) (existing : List (String × MissingInstanceStatus))
    (missing : List MissingInstanceStatus) (k : String)
    → skips_name current k ≡ false
    → contains (existing_missing current existing candidates missing).1 k
      ≡ (contains candidates k || is_some (stored_missing k missing))
unfolding existing_missing
contains-existing_missing current candidates existing [] k h = ground arith
contains-existing_missing current candidates existing (m ∷ rest) k h =
    contains-existing_missing current
      (if skips_name current m.instance_name
        then candidates
        else add_candidate m.instance_name candidates)
      (if skips_name current m.instance_name then existing else insert m.instance_name m existing)
      rest k h
    ∙ ap (λ b. b || is_some (stored_missing k rest))
        (contains-candidates current candidates m.instance_name k h)
    ∙ ground arith

newer_if :
    (o : Option MissingInstanceStatus) (b : Bool) (m : MissingInstanceStatus)
    (p : Option MissingInstanceStatus)
    → newer o (if b then some m else p) ≡ newer (newer o (if b then some m else none)) p
newer_if none true m p = refl
newer_if none false m p = refl
newer_if (some n) b m p = refl

pub lookup-existing_missing :
    (current candidates : List String) (existing : List (String × MissingInstanceStatus))
    (missing : List MissingInstanceStatus) (k : String)
    → skips_name current k ≡ false
    → lookup k (existing_missing current existing candidates missing).0
      ≡ newer (stored_missing k missing) (lookup k existing)
unfolding existing_missing
lookup-existing_missing current candidates existing [] k h = refl
lookup-existing_missing current candidates existing (m ∷ rest) k h =
    lookup-existing_missing current
      (if skips_name current m.instance_name
        then candidates
        else add_candidate m.instance_name candidates)
      (if skips_name current m.instance_name then existing else insert m.instance_name m existing)
      rest k h
    ∙ ap (newer (stored_missing k rest)) (lookup-existing current existing m k h)
    ∙ newer_if (stored_missing k rest) (m.instance_name == k) m (lookup k existing)

-- No name that is skipped becomes a candidate.
skipped-candidates :
    (current cs : List String) (j k : String)
    → skips_name current k ≡ true
    → contains cs k ≡ false
    → contains (if skips_name current j then cs else add_candidate j cs) k ≡ false
skipped-candidates current cs j k h c = elim (Bool-cases (skips_name current j)) [
  | inl e ↦ ap (λ b. contains (if b then cs else add_candidate j cs) k) e ∙ c
  | inr e ↦
      ap (λ b. contains (if b then cs else add_candidate j cs) k) e
      ∙ contains-add_candidate j k cs
      ∙ elim (Bool-cases (j == k)) [
        | inl same ↦ absurd (cc (sym e ∙ ap (skips_name current) ((eq_iff j k).0 same) ∙ h))
        | inr other ↦ ground (arith, other, c)
      ]
]

pub skipped-known_missing :
    (current cs : List String) (statuses : List InstanceTopologyStatus) (k : String)
    → skips_name current k ≡ true
    → contains cs k ≡ false
    → contains (known_missing current cs statuses) k ≡ false
unfolding known_missing
skipped-known_missing current cs [] k h c = c
skipped-known_missing current cs (status ∷ rest) k h c =
    skipped-known_missing current
      (if skips_name current status.instance_name
        then cs
        else add_candidate status.instance_name cs)
      rest k h (skipped-candidates current cs status.instance_name k h c)

pub skipped-existing_missing :
    (current cs : List String) (existing : List (String × MissingInstanceStatus))
    (missing : List MissingInstanceStatus) (k : String)
    → skips_name current k ≡ true
    → contains cs k ≡ false
    → contains (existing_missing current existing cs missing).1 k ≡ false
unfolding existing_missing
skipped-existing_missing current cs existing [] k h c = c
skipped-existing_missing current cs existing (m ∷ rest) k h c =
    skipped-existing_missing current
      (if skips_name current m.instance_name then cs else add_candidate m.instance_name cs)
      (if skips_name current m.instance_name then existing else insert m.instance_name m existing)
      rest k h (skipped-candidates current cs m.instance_name k h c)
