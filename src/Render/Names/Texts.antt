-- ===== src/Render/Names/Texts.antt =====
-- internal/render/resources.go: what trimming, cutting and joining keep of a text of label characters.
use Prim.Native.Char.{Char, code}
use Prim.Native.String.{count as count_text}
use text.Mathlib.TextLemmas.{cons-append, nil-append, length-cons}
use pgbouncer_aurora_operato.Base.{
  ◌=?◌, if◌then◌else◌, Bool-cases, or_left, if_cases, and_elim, if_false, ℕ, zero, suc, ◌≤◌, String,
  ◌^^◌, ◌≡◌, refl, sym, ap, ◌∙◌, inl, inr, Bool, true, false, ◌&&◌, ◌||◌, arith, ◌==◌, eq_iff,
}
use pgbouncer_aurora_operato.Render.Names.{
  allowed, dashed, trim_left_dash, trim_right_dash, take_text,
}

abbrev pub is_label_code : ℕ → Bool
is_label_code c = allowed c || c =? 45

abbrev pub all_text : (ℕ → Bool) → String → Bool
all_text p String.[] = true
all_text p (String.◌∷◌ c s) = p (code c) && all_text p s

-- The first and the last character is a letter or a digit, if there is one.
abbrev pub starts_well : String → Bool
starts_well String.[] = true
starts_well (String.◌∷◌ c s) = allowed (code c)

abbrev pub ends_well : String → Bool
ends_well String.[] = true
ends_well (String.◌∷◌ c s) = if s == "" then allowed (code c) else ends_well s

pub all_text-append :
    (p : ℕ → Bool) (s t : String) → all_text p (s ^^ t) ≡ (all_text p s && all_text p t)
all_text-append p String.[] t = ap (all_text p) (nil-append t)
all_text-append p (String.◌∷◌ c s) t =
    ap (all_text p) (cons-append c s t)
    ∙ ap (λ b. p (code c) && b) (all_text-append p s t)
    ∙ ground arith

pub and_intro : {a b : Bool} → a ≡ true → b ≡ true → (a && b) ≡ true
and_intro {a = true} ha hb = hb
and_intro {a = false} ha hb = ha

pub dash_label : all_text is_label_code "-" ≡ true
unfolding allowed
dash_label = refl

pub cons_not_empty : (c : Char) (s : String) → (String.◌∷◌ c s == "") ≡ false
cons_not_empty c s = elim (Bool-cases (String.◌∷◌ c s == "")) [
  | inl e ↦
      absurd (omega (arith, length-cons c s, ap count_text ((eq_iff (String.◌∷◌ c s) "").0 e)))
  | inr e ↦ e
]

pub all_text-dashed : (b : Bool) (s : String) → all_text is_label_code (dashed b s) ≡ true
unfolding dashed
all_text-dashed b String.[] = refl
all_text-dashed b (String.◌∷◌ c s) =
    if_cases (λ t. all_text is_label_code t ≡ true) (allowed (code c)) _ _
      (λ ok_code. ground (arith, ok_code, all_text-dashed false s))
      λ _.
        if_cases (λ t. all_text is_label_code t ≡ true) b _ _ (λ _. all_text-dashed true s)
          (λ _.
            all_text-append is_label_code "-" (dashed true s)
            ∙ and_intro dash_label (all_text-dashed true s))

-- A text of label characters, without a dash in front.
abbrev IsTrimmedLeft : String → Type 0
IsTrimmedLeft s = (all_text is_label_code s ≡ true) × (starts_well s ≡ true)

pub trim_left_dash-IsTrimmedLeft :
    (s : String) → all_text is_label_code s ≡ true → IsTrimmedLeft (trim_left_dash s)
unfolding trim_left_dash
trim_left_dash-IsTrimmedLeft String.[] h = (refl, refl)
trim_left_dash-IsTrimmedLeft (String.◌∷◌ c s) h =
    if_cases IsTrimmedLeft (code c =? 45) _ _
      (λ _. trim_left_dash-IsTrimmedLeft s (and_elim (is_label_code (code c)) _ h).1)
      (λ e. (h, ground (arith, e, (and_elim (is_label_code (code c)) _ h).0)))

pub trim_right_dash-all :
    (s : String)
    → all_text is_label_code s ≡ true
    → all_text is_label_code (trim_right_dash s) ≡ true
unfolding trim_right_dash
trim_right_dash-all String.[] h = refl
trim_right_dash-all (String.◌∷◌ c s) h =
    let (here, rest) = and_elim (is_label_code (code c)) (all_text is_label_code s) h in
    if_cases (λ t. all_text is_label_code t ≡ true) (trim_right_dash s == "" && code c =? 45) _ _
      (λ _. refl) (λ _. and_intro here (trim_right_dash-all s rest))

pub trim_right_dash-starts_well :
    (s : String) → starts_well s ≡ true → starts_well (trim_right_dash s) ≡ true
unfolding trim_right_dash
trim_right_dash-starts_well String.[] h = refl
trim_right_dash-starts_well (String.◌∷◌ c s) h =
    if_cases (λ t. starts_well t ≡ true) (trim_right_dash s == "" && code c =? 45) _ _ (λ _. refl)
      (λ _. h)

ends_well_step :
    (alone good dash later : Bool)
    → (good || dash) ≡ true
    → (alone && dash) ≡ false
    → later ≡ true
    → (if alone then good else later) ≡ true
ends_well_step true true dash later g e l = refl
ends_well_step true false dash later g e l = cc (sym g ∙ e)
ends_well_step false good dash later g e l = l

pub trim_right_dash-ends_well :
    (s : String) → all_text is_label_code s ≡ true → ends_well (trim_right_dash s) ≡ true
unfolding trim_right_dash
trim_right_dash-ends_well String.[] h = refl
trim_right_dash-ends_well (String.◌∷◌ c s) h =
    if_cases (λ t. ends_well t ≡ true) (trim_right_dash s == "" && code c =? 45) _ _ (λ _. refl)
      λ e.
        let (here, rest) = and_elim (is_label_code (code c)) (all_text is_label_code s) h in
        ends_well_step (trim_right_dash s == "") (allowed (code c)) (code c =? 45)
          (ends_well (trim_right_dash s)) here e (trim_right_dash-ends_well s rest)

pub trim_right_dash-count : (s : String) → count_text (trim_right_dash s) ≤ count_text s
unfolding trim_right_dash
trim_right_dash-count String.[] = omega arith
trim_right_dash-count (String.◌∷◌ c s) =
    if_cases (λ t. count_text t ≤ count_text (String.◌∷◌ c s))
      (trim_right_dash s == "" && code c =? 45) _ _ (λ _. omega arith)
      (λ _.
        omega (arith, length-cons c s, length-cons c (trim_right_dash s), trim_right_dash-count s))

-- What both branches of the code keep: label characters with a good start.
abbrev IsHalf : ℕ → String → Type 0
IsHalf n s = (all_text is_label_code s ≡ true) × (starts_well s ≡ true) × (count_text s ≤ n)

pub take_text-count : (n : ℕ) (s : String) → count_text (take_text n s) ≤ n
unfolding take_text
take_text-count zero s = omega arith
take_text-count (suc n) String.[] = omega arith
take_text-count (suc n) (String.◌∷◌ c s) =
    omega (arith, length-cons c (take_text n s), take_text-count n s)

pub take_text-all :
    (p : ℕ → Bool) (n : ℕ) (s : String) → all_text p s ≡ true → all_text p (take_text n s) ≡ true
unfolding take_text
take_text-all p zero s h = refl
take_text-all p (suc n) String.[] h = refl
take_text-all p (suc n) (String.◌∷◌ c s) h =
    let (here, rest) = and_elim (p (code c)) (all_text p s) h in
    and_intro here (take_text-all p n s rest)

pub take_text-starts_well :
    (n : ℕ) (s : String) → starts_well s ≡ true → starts_well (take_text n s) ≡ true
unfolding take_text
take_text-starts_well zero s h = refl
take_text-starts_well (suc n) String.[] h = refl
take_text-starts_well (suc n) (String.◌∷◌ c s) h = h

pub starts_well-append :
    (s t : String) → (s == "") ≡ false → starts_well s ≡ true → starts_well (s ^^ t) ≡ true
starts_well-append String.[] t e h = cc
starts_well-append (String.◌∷◌ c s) t e h = ap starts_well (cons-append c s t) ∙ h

pub append-empty : (s t : String) → (t == "") ≡ false → (s ^^ t == "") ≡ false
append-empty String.[] t e = ap (λ u. u == "") (nil-append t) ∙ e
append-empty (String.◌∷◌ c s) t e =
    ap (λ u. u == "") (cons-append c s t) ∙ cons_not_empty c (s ^^ t)

pub ends_well-append :
    (s t : String) → (t == "") ≡ false → ends_well t ≡ true → ends_well (s ^^ t) ≡ true
ends_well-append String.[] t e h = ap ends_well (nil-append t) ∙ h
ends_well-append (String.◌∷◌ c s) t e h =
    ap ends_well (cons-append c s t)
    ∙ if_false (allowed (code c)) (ends_well (s ^^ t)) (append-empty s t e)
    ∙ ends_well-append s t e h

pub all_allowed-ends_well : (s : String) → all_text allowed s ≡ true → ends_well s ≡ true
all_allowed-ends_well String.[] h = refl
all_allowed-ends_well (String.◌∷◌ c s) h =
    let (here, rest) = and_elim (allowed (code c)) (all_text allowed s) h in
    if_cases (λ b. b ≡ true) (s == "") _ _ (λ _. here) (λ _. all_allowed-ends_well s rest)

pub all_allowed-label : (s : String) → all_text allowed s ≡ true → all_text is_label_code s ≡ true
all_allowed-label String.[] h = refl
all_allowed-label (String.◌∷◌ c s) h =
    let (here, rest) = and_elim (allowed (code c)) (all_text allowed s) h in
    and_intro (or_left (code c =? 45) here) (all_allowed-label s rest)
