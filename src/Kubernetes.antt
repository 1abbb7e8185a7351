-- ===== src/Kubernetes.antt =====
-- What the operator reads of a pod of Kubernetes: its labels, whether it is being deleted, and the types and
-- the statuses of its conditions.
use pgbouncer_aurora_operato.Base.{lookup, String, Bool, none, some, List}

pub record Pod : Type 0 where
  pub labels : List (String × String)
  pub deleting : Bool
  pub conditions : List (String × String)

-- `pod.Labels[key]`: a missing key reads as the empty text.
abbrev pub pod_label : Pod → String → String
pod_label pod key = elim (lookup key pod.labels) [ none ↦ "" | some value ↦ value ]
