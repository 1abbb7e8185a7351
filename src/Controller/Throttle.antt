-- ===== src/Controller/Throttle.antt =====
-- internal/controller/reconciler.go: the least time between two reconciles of one resource. The map
-- `lastReconcileStarted` has the text of the namespaced name for its key.
use pgbouncer_aurora_operato.Base.{
  ltb, ◌=?◌, if◌then◌else◌, Bool-cases, if_cases, and_elim, lookup, insert, erase, lookup-insert, ℕ,
  ◌+◌, ◌-◌, ◌≤◌, ◌<◌, String, ◌≡◌, refl, sym, ap, subst, ◌∙◌, inl, inr, true, false, ◌&&◌, Option,
  none, some, List, [], ◌∷◌, arith, ◌==◌, eq_iff,
}

abbrev pub Started : Type 0
Started = List (String × ℕ)

-- How long to wait, and the map afterwards, for what the map held.
abbrev pub throttle : ℕ → String → ℕ → Started → Option ℕ → ℕ × Started
throttle min_interval key now started none = (0, insert key now started)
throttle min_interval key now started (some last) =
    if ltb now (last + min_interval)
    then (last + min_interval - now, started)
    else (0, insert key now started)

-- `minInterval - elapsed` is `last + minInterval - now`, also if the clock went back.
unfoldable pub reconcile_throttle_remaining : ℕ → String → ℕ → Started → ℕ × Started
reconcile_throttle_remaining min_interval key now started =
    if min_interval =? 0
    then (0, started)
    else throttle min_interval key now started (lookup key started)

unfoldable pub forget_reconcile_throttle : String → Started → Started
forget_reconcile_throttle key started = erase key started

-- The times at which reconciles of one key start, over a sequence of requests.
unfoldable pub started_at : ℕ → String → Started → List (String × ℕ) → List ℕ
started_at min_interval key started [] = []
started_at min_interval key started ((k, now) ∷ requests) =
    let (remaining, started') = reconcile_throttle_remaining min_interval k now started in
    let later = started_at min_interval key started' requests in
    if remaining =? 0 && k == key then now ∷ later else later

-- Each time is at least the interval after the one before.
abbrev pub Spaced : ℕ → Option ℕ → List ℕ → Type 0
Spaced interval last [] = Unit
Spaced interval none (t ∷ ts) = Spaced interval (some t) ts
Spaced interval (some last) (t ∷ ts) = (last + interval ≤ t) × Spaced interval (some t) ts

lookup-throttle :
    (min_interval : ℕ) (key k : String) (now : ℕ) (started : Started) (last : Option ℕ)
    → lookup k started ≡ last
    → lookup key (throttle min_interval k now started last).1 ≡ (
        if (throttle min_interval k now started last).0 =? 0 && k == key
        then some now
        else lookup key started)
lookup-throttle min_interval key k now started none e = lookup-insert k key now started
lookup-throttle min_interval key k now started (some last) e =
    elim (Bool-cases (ltb now (last + min_interval))) [
      | inl early ↦
          let wait : ((last + min_interval - now) =? 0) ≡ false = ground arith in
          rw (early, wait) refl
      | inr late ↦ rw late (lookup-insert k key now started)
    ]

abbrev AfterLast : ℕ → Option ℕ → ℕ → Type 0
AfterLast interval none now = Unit
AfterLast interval (some last) now = last + interval ≤ now

throttle-AfterLast :
    (min_interval : ℕ) (k : String) (now : ℕ) (started : Started) (last : Option ℕ)
    → ((throttle min_interval k now started last).0 =? 0) ≡ true
    → AfterLast min_interval last now
throttle-AfterLast min_interval k now started none h = tt
throttle-AfterLast min_interval k now started (some last) h =
    elim (Bool-cases (ltb now (last + min_interval))) [
      | inl early ↦
          let wait : ((last + min_interval - now) =? 0) ≡ false = ground arith in
          absurd (cc (rw (early, wait) at h))
      | inr late ↦ ground arith
    ]

Spaced-cons :
    (interval : ℕ) (last : Option ℕ) (now : ℕ) (ts : List ℕ)
    → AfterLast interval last now
    → Spaced interval (some now) ts
    → Spaced interval last (now ∷ ts)
Spaced-cons interval none now ts a s = s
Spaced-cons interval (some last) now ts a s = (a, s)

module _ (min_interval : ℕ) (positive : 0 < min_interval) (key : String) where
  throttled :
      (k : String) (now : ℕ) (started : Started)
      → reconcile_throttle_remaining min_interval k now started
        ≡ throttle min_interval k now started (lookup k started)
  unfolding reconcile_throttle_remaining
  throttled k now started =
      let some_time : (min_interval =? 0) ≡ false = ground arith in rw some_time refl

  step-Spaced :
      (k : String) (now : ℕ) (started : Started) (later : List ℕ)
      → let r = throttle min_interval k now started (lookup k started) in
        Spaced min_interval (lookup key r.1) later
        → Spaced min_interval
            (lookup key started)
            (if r.0 =? 0 && k == key then now ∷ later else later)
  step-Spaced k now started later s =
      let r = throttle min_interval k now started (lookup k started) in
      let after = lookup-throttle min_interval key k now started (lookup k started) refl in
      if_cases (Spaced min_interval (lookup key started)) (r.0 =? 0 && k == key) (now ∷ later) later
        (λ e.
          let (start, same) = and_elim (r.0 =? 0) (k == key) e in
          Spaced-cons min_interval (lookup key started) now later
            (subst (λ j. AfterLast min_interval (lookup j started) now) ((eq_iff k key).0 same)
              (throttle-AfterLast min_interval k now started (lookup k started) start))
            (subst (λ o. Spaced min_interval o later)
              (after ∙ ap (λ b. if b then some now else lookup key started) e) s))
        λ e.
          subst (λ o. Spaced min_interval o later)
            (after ∙ ap (λ b. if b then some now else lookup key started) e) s

  started_at-Spaced :
      (started : Started) (requests : List (String × ℕ))
      → Spaced min_interval (lookup key started) (started_at min_interval key started requests)
  unfolding started_at
  started_at-Spaced started [] = tt
  started_at-Spaced started ((k, now) ∷ requests) =
      let r = throttle min_interval k now started (lookup k started) in
      subst
        (λ q. Spaced min_interval (lookup key started) (
          if q.0 =? 0 && k == key
          then now ∷ started_at min_interval key q.1 requests
          else started_at min_interval key q.1 requests))
        (sym (throttled k now started))
        (step-Spaced k now started (started_at min_interval key r.1 requests)
          (started_at-Spaced r.1 requests))

-- Reconciles of one resource start at least the configured interval apart, whatever requests come
-- for it and for others, and whatever the clock does.
pub starts_keep_interval :
    (min_interval : ℕ) (key : String) (requests : List (String × ℕ))
    → 0 < min_interval
    → Spaced min_interval none (started_at min_interval key [] requests)
starts_keep_interval min_interval key requests positive =
    started_at-Spaced min_interval positive key [] requests
