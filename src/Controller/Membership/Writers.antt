-- ===== src/Controller/Membership/Writers.antt =====
-- internal/controller/reconciler.go (`singleDiscoveredWriter`, `sameStringSet`): which writer is the only one.
use pgbouncer_aurora_operato.Base.{
  if◌then◌else◌, Bool-cases, if_true, if_false, and_intro, and_false, String, ◌≡◌, refl, sym, ap,
  ◌∙◌, inl, inr, true, false, not, ◌&&◌, List, [], ◌∷◌, arith, ◌==◌, eq_iff, eq_refl,
}
use pgbouncer_aurora_operato.Api.{role_writer}
use pgbouncer_aurora_operato.Domain.{InstanceObservation}
use pgbouncer_aurora_operato.Controller.Membership.{same_string_set, single_writer_from}

tail_of : List String → List String
tail_of [] = []
tail_of (name ∷ names) = names

head_or : String → List String → String
head_or name [] = name
head_or name (other ∷ names) = other

-- The names of the writers, an empty one left out.
abbrev pub writer_names : List InstanceObservation → List String
writer_names [] = []
writer_names (observed ∷ rest) =
    let later = writer_names rest in
    if observed.role == role_writer && not (observed.name == "")
    then observed.name ∷ later
    else later

single_writer_from-step :
    (writer : String) (observed : InstanceObservation) (rest : List InstanceObservation)
    → single_writer_from writer (observed ∷ rest) ≡ (
        if not (observed.role == role_writer)
        then single_writer_from writer rest
        else if not (writer == "")
        then ""
        else single_writer_from observed.name rest)
unfolding single_writer_from
single_writer_from-step writer observed rest = refl

-- If a writer was found before, it is the only one.
found_before :
    (writer : String) (instances : List InstanceObservation)
    → (writer == "") ≡ false
    → (single_writer_from writer instances == "") ≡ false
    → (writer_names instances ≡ []) × (single_writer_from writer instances ≡ writer)
unfolding single_writer_from
found_before writer [] given h = (refl, refl)
found_before writer (observed ∷ rest) given h = elim (Bool-cases (observed.role == role_writer)) [
  | inl e ↦
      let lost =
        single_writer_from-step writer observed rest
        ∙ if_false _ _ (ap not e)
        ∙ if_true _ _ (ap not given) in
      cc (sym h ∙ ap (λ n. n == "") lost)
  | inr e ↦
      let same = single_writer_from-step writer observed rest ∙ if_true _ _ (ap not e) in
      let later = found_before writer rest given (sym (ap (λ n. n == "") same) ∙ h) in
      (if_false _ _ (ap (λ b. b && not (observed.name == "")) e) ∙ later.0, same ∙ later.1)
]

found_here :
    (observed : InstanceObservation) (rest : List InstanceObservation)
    → (observed.role == role_writer) ≡ true
    → (observed.name == "") ≡ false
    → (single_writer_from observed.name rest == "") ≡ false
    → writer_names (observed ∷ rest) ≡ single_writer_from observed.name rest ∷ []
found_here observed rest e given h =
    let alone = found_before observed.name rest given h in
    if_true _ _ (and_intro e (ap not given))
    ∙ ap (λ names. observed.name ∷ names) alone.0
    ∙ ap (λ name. name ∷ []) (sym alone.1)

-- The writer that is found is the only one.
pub single_writer_from-writer_names :
    (instances : List InstanceObservation)
    → (single_writer_from "" instances == "") ≡ false
    → writer_names instances ≡ single_writer_from "" instances ∷ []
unfolding single_writer_from
single_writer_from-writer_names [] h = cc
single_writer_from-writer_names (observed ∷ rest) h =
    elim (Bool-cases (observed.role == role_writer)) [
      | inr e ↦
          let same = single_writer_from-step "" observed rest ∙ if_true _ _ (ap not e) in
          if_false _ _ (ap (λ b. b && not (observed.name == "")) e)
          ∙ single_writer_from-writer_names rest (sym (ap (λ n. n == "") same) ∙ h)
          ∙ ap (λ n. n ∷ []) (sym same)
      | inl e ↦
          let same = single_writer_from-step "" observed rest ∙ if_false _ _ (ap not e) in
          let inside = sym (ap (λ n. n == "") same) ∙ h in
          elim (Bool-cases (observed.name == "")) [
            | inr given ↦ found_here observed rest e given inside ∙ ap (λ n. n ∷ []) (sym same)
            | inl empty ↦
                let nameless =
                  ap (λ n. single_writer_from n rest) ((eq_iff observed.name "").0 empty) in
                if_false _ _ (and_false (observed.role == role_writer) (ap not empty))
                ∙ single_writer_from-writer_names rest (sym (ap (λ n. n == "") nameless) ∙ inside)
                ∙ ap (λ n. n ∷ []) (sym (same ∙ nameless))
          ]
    ]

-- The names of the writers.
abbrev pub all_writers : List InstanceObservation → List String
all_writers [] = []
all_writers (observed ∷ rest) =
    let later = all_writers rest in
    if observed.role == role_writer then observed.name ∷ later else later

no_more_writers :
    (writer : String) (instances : List InstanceObservation)
    → all_writers instances ≡ []
    → single_writer_from writer instances ≡ writer
unfolding single_writer_from
no_more_writers writer [] h = refl
no_more_writers writer (observed ∷ rest) h = elim (Bool-cases (observed.role == role_writer)) [
  | inl e ↦ let more = sym (if_true _ _ e) ∙ h in cc
  | inr e ↦
      single_writer_from-step writer observed rest
      ∙ if_true _ _ (ap not e)
      ∙ no_more_writers writer rest (sym (if_false _ _ e) ∙ h)
]

one_writer :
    (writer : String) (instances : List InstanceObservation)
    → all_writers instances ≡ writer ∷ []
    → single_writer_from "" instances ≡ writer
unfolding single_writer_from tail_of head_or
one_writer writer [] h = cc
one_writer writer (observed ∷ rest) h = elim (Bool-cases (observed.role == role_writer)) [
  | inl e ↦
      let same : observed.name ∷ all_writers rest ≡ writer ∷ [] = sym (if_true _ _ e) ∙ h in
      single_writer_from-step "" observed rest
      ∙ if_false _ _ (ap not e)
      ∙ no_more_writers observed.name rest (ap tail_of same)
      ∙ ap (head_or "") same
  | inr e ↦
      single_writer_from-step "" observed rest
      ∙ if_true _ _ (ap not e)
      ∙ one_writer writer rest (sym (if_false _ _ e) ∙ h)
]

-- The discovery has not just one writer with a name.
abbrev pub HasNoWriter : List InstanceObservation → Type 0
HasNoWriter instances =
    ¬ ((writer : String) × ((writer == "") ≡ false) × (all_writers instances ≡ writer ∷ []))

pub single_writer-HasNoWriter :
    (instances : List InstanceObservation)
    → (single_writer_from "" instances == "") ≡ true
    → HasNoWriter instances
single_writer-HasNoWriter instances h (writer, given, alone) =
    cc (sym given ∙ ap (λ name. name == "") (sym (one_writer writer instances alone)) ∙ h)

same_string_set_self : (name : String) → same_string_set (name ∷ []) (name ∷ []) ≡ true
unfolding same_string_set
same_string_set_self name = ground (arith, eq_refl name)

pub other_set :
    (names : List String) (name : String)
    → same_string_set names (name ∷ []) ≡ false
    → ¬ (names ≡ name ∷ [])
other_set names name h same =
    cc (sym h ∙ ap (λ l. same_string_set l (name ∷ [])) same ∙ same_string_set_self name)

-- What is the same set as one name is this name alone.
pub same_string_set-one :
    (names : List String) (name : String)
    → same_string_set names (name ∷ []) ≡ true
    → names ≡ name ∷ []
unfolding same_string_set
same_string_set-one [] name h = cc
same_string_set-one (other ∷ []) name h =
    ap (λ n. n ∷ []) ((eq_iff other name).0 (ground (arith, h)))
same_string_set-one (other ∷ more ∷ names) name h = ground (arith, h)
