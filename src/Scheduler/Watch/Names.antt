-- ===== src/Scheduler/Watch/Names.antt =====
-- internal/controller/scheduler.go: a list of watched names, separated by commas.
use pgbouncer_aurora_operato.Base.{
  if◌then◌else◌, Bool-cases, and_elim, if_false, or_false, any, All, All-map, trim_space, join,
  add_first, split_commas, is_word, trim_space-no_space, is_word-no_space, has_no_space-join,
  split_commas-join, contains, String, ◌≡◌, refl, sym, ap, ◌∙◌, inl, inr, Bool, true, false, not,
  ◌&&◌, ◌||◌, List, [], ◌∷◌, arith, ◌==◌, eq_iff,
}
use pgbouncer_aurora_operato.Scheduler.Watch.{matches_watch_names}

-- A name as Kubernetes has them: not empty, without white space or commas, and not the star.
abbrev pub is_watch_name : String → Bool
is_watch_name s = is_word s && (not (s == "") && not (s == "*"))

watch_name-is_word : (s : String) → is_watch_name s ≡ true → is_word s ≡ true
watch_name-is_word s h = (and_elim (is_word s) (not (s == "") && not (s == "*")) h).0

not_empty : (s : String) → is_watch_name s ≡ true → s == "" ≡ false
not_empty s h = ground (arith, (and_elim (is_word s) (not (s == "") && not (s == "*")) h).1)

not_star : (s : String) → is_watch_name s ≡ true → s == "*" ≡ false
not_star s h = ground (arith, (and_elim (is_word s) (not (s == "") && not (s == "*")) h).1)

head_of : List String → String
head_of [] = ""
head_of (s ∷ ss) = s

-- A joined text that is one of two special texts has a special name.
join-differs :
    (w : String) (words : List String) (special : String)
    → All (λ v. is_word v ≡ true) (w ∷ words)
    → split_commas special ≡ special ∷ []
    → w == special ≡ false
    → join (w ∷ words) "," == special ≡ false
unfolding head_of
join-differs w words special plain alone h = elim (Bool-cases (join (w ∷ words) "," == special)) [
  | inl e ↦
      let same : w ≡ special = ap head_of (
        sym (split_commas-join w words plain)
        ∙ ap split_commas ((eq_iff (join (w ∷ words) ",") special).0 e)
        ∙ alone) in
      cc (h, (eq_iff w special).1 same)
  | inr e ↦ e
]

any_part-contains :
    (names : List String) (name : String)
    → All (λ v. is_watch_name v ≡ true) names
    → any (λ part. trim_space part == "*" || trim_space part == name) names ≡ contains names name
any_part-contains [] name h = refl
any_part-contains (w ∷ names) name h =
    let trimmed = trim_space-no_space w (is_word-no_space w (watch_name-is_word w h.0)) in
    ap
      (λ s.
        if s == "*" || s == name
        then true
        else any (λ part. trim_space part == "*" || trim_space part == name) names)
      trimmed
    ∙ ground (arith, not_star w h.0, any_part-contains names name h.1)

-- If the watched names are one or more names joined by commas, each of them not empty, not the star, and
-- without white space or commas, then just they are watched.
pub matches_watch_names-join :
    (w : String) (words : List String) (name : String)
    → All (λ v. is_watch_name v ≡ true) (w ∷ words)
    → matches_watch_names (join (w ∷ words) ",") name ≡ contains (w ∷ words) name
unfolding matches_watch_names split_commas add_first
matches_watch_names-join w words name h =
    let plain = All-map (λ v. is_watch_name v ≡ true) watch_name-is_word (w ∷ words) h in
    let trimmed =
      trim_space-no_space (join (w ∷ words) ",") (has_no_space-join (w ∷ words) plain) in
    let empty = join-differs w words "" plain refl (not_empty w h.0) in
    let star = join-differs w words "*" plain refl (not_star w h.0) in
    ap
      (λ s.
        if s == "" || s == "*"
        then true
        else any (λ part. trim_space part == "*" || trim_space part == name) (split_commas s))
      trimmed
    ∙ if_false _ _ (or_false empty star)
    ∙ ap (any (λ part. trim_space part == "*" || trim_space part == name))
        (split_commas-join w words plain)
    ∙ any_part-contains (w ∷ words) name h
