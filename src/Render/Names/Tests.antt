-- ===== src/Render/Names/Tests.antt =====
-- A name that is too long and holds other characters.
use pgbouncer_aurora_operato.Base.{String, refl, List, [], ◌∷◌, arith}
use pgbouncer_aurora_operato.Render.Names.{allowed, safe_dns_label}
use pgbouncer_aurora_operato.Render.Names.Valid.{IsDnsLabel, safe_dns_label-IsDnsLabel}

abbrev long_parts : List String
long_parts =
    "Pool.A" ∷ "reporting-instance-with-a-name-that-is-much-longer-than-a-label-may-be" ∷ []

safe_dns_label-IsDnsLabel_example :
    IsDnsLabel (safe_dns_label (λ s. s) (λ _. "0123456789abcdef") long_parts)
unfolding allowed
safe_dns_label-IsDnsLabel_example =
    safe_dns_label-IsDnsLabel (λ s. s) (λ _. "0123456789abcdef") (λ _. refl) (λ _. omega arith)
      long_parts
