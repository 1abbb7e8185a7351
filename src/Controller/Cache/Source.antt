-- ===== src/Controller/Cache/Source.antt =====
-- internal/controller/reconciler.go: where the topology of a reconcile comes from.
use pgbouncer_aurora_operato.Base.{
  if_cases, is_empty, int32_add, int32_lt, Answer, ok, failed, map_answer, ℕ, ◌≡◌, refl, true,
  false, not, arith,
}
use pgbouncer_aurora_operato.Api.{PgBouncerAurora}
use pgbouncer_aurora_operato.Domain.{DiscoveryResult}
use pgbouncer_aurora_operato.Controller.Due.{discovery_due}
use pgbouncer_aurora_operato.Controller.Cache.{
  discovery_failure_threshold, last_discovery_trusted, topology_observations, cache_unusable,
  cached_result, discovery_after_failure_threshold, Discovered, judged, discovery_for,
}

-- The three sources of a trusted topology: the provider, now; the stored topology, while the provider
-- has failed for fewer rounds than the threshold; or the stored topology, while discovery is not due.
pub data TrustedBy (provider : PgBouncerAurora → Answer DiscoveryResult)
    (resource : PgBouncerAurora) (now : ℕ) (discovered : Discovered) : Type 0 where
  fresh :
      discovery_due resource now ≡ true
      → provider resource ≡ ok discovered.discovery
      → discovered.ran ≡ true
      → discovered.discovery_failed ≡ false
      → TrustedBy provider resource now discovered
  bridged :
      (refused : DiscoveryResult)
      → discovery_due resource now ≡ true
      → provider resource ≡ ok refused
      → refused.trusted ≡ false
      → int32_lt
          (int32_add resource.status.consecutive_discovery_failures 1)
          (discovery_failure_threshold resource)
        ≡ true
      → last_discovery_trusted resource ≡ true
      → is_empty resource.status.last_known_topology ≡ false
      → discovered.discovery.instances ≡ topology_observations resource.status.last_known_topology
      → discovered.ran ≡ true
      → discovered.discovery_failed ≡ true
      → TrustedBy provider resource now discovered
  stored :
      discovery_due resource now ≡ false
      → last_discovery_trusted resource ≡ true
      → discovered.discovery.instances ≡ topology_observations resource.status.last_known_topology
      → discovered.ran ≡ false
      → discovered.discovery_failed ≡ false
      → TrustedBy provider resource now discovered

-- An error is the provider's, and a trusted topology has one of the sources.
abbrev pub IsSourced :
    (PgBouncerAurora → Answer DiscoveryResult) → PgBouncerAurora → ℕ → Answer Discovered → Type 0
IsSourced provider resource now (failed error) =
    (discovery_due resource now ≡ true) × (provider resource ≡ failed error)
IsSourced provider resource now (ok discovered) =
    discovered.discovery.trusted ≡ true → TrustedBy provider resource now discovered

module _ (provider : PgBouncerAurora → Answer DiscoveryResult) (resource : PgBouncerAurora)
    (now : ℕ) where
  bridged-IsSourced :
      (refused : DiscoveryResult)
      → discovery_due resource now ≡ true
      → provider resource ≡ ok refused
      → refused.trusted ≡ false
      → IsSourced provider resource now (
          ok (record {
            discovery = discovery_after_failure_threshold resource refused;
            ran = true;
            discovery_failed = true;
          }))
  unfolding discovery_after_failure_threshold cache_unusable cached_result
  bridged-IsSourced refused due answer distrusted =
      if_cases
        (λ d.
          IsSourced provider resource now
            (ok (record { discovery = d; ran = true; discovery_failed = true })))
        (cache_unusable resource) _ _ (λ _ h. cc)
        λ usable h.
          bridged refused due answer distrusted (ground (arith, usable)) (ground (arith, usable))
            (ground (arith, usable)) refl refl refl

  judged-IsSourced :
      (answer : Answer DiscoveryResult)
      → discovery_due resource now ≡ true
      → provider resource ≡ answer
      → IsSourced provider resource now (map_answer (judged resource) answer)
  judged-IsSourced (failed error) due e = (due, e)
  judged-IsSourced (ok result) due e =
      if_cases (λ d. IsSourced provider resource now (ok d)) result.trusted _ _
        (λ _ _. fresh due e refl refl) λ distrusted. bridged-IsSourced result due e distrusted

  -- Whatever the provider answers: a trusted topology comes from it, or is the stored one, of a last
  -- discovery that was trusted, and then the provider was not due or its failures in a row are fewer than
  -- the threshold. An error is one of the provider.
  pub discovery_for-IsSourced :
      IsSourced provider resource now (discovery_for provider resource now)
  unfolding discovery_for cached_result
  discovery_for-IsSourced =
      if_cases (IsSourced provider resource now) (discovery_due resource now) _ _
        (λ due. judged-IsSourced (provider resource) due refl)
        λ waits.
          if_cases (IsSourced provider resource now) (not (last_discovery_trusted resource)) _ _
            (λ _ h. cc) λ known _. stored waits (ground (arith, known)) refl refl refl
