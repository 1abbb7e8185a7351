-- ===== src/Render/Names/Valid.antt =====
-- internal/render/resources.go: every name that safeDNSLabel makes is a DNS label.
use Prim.Native.String.{count as count_text}
use text.Mathlib.TextLemmas.{length-append}
use pgbouncer_aurora_operato.Base.{
  leb, if_cases, join, ℕ, suc, ◌≤◌, String, ◌^^◌, ◌≡◌, refl, ◌∙◌, true, false, List, arith, ◌==◌,
}
use pgbouncer_aurora_operato.Render.Names.{
  allowed, dashed, trim_left_dash, trim_right_dash, take_text, text_or, max_dns_label_length,
  normalize_dns_label, shortened, safe_dns_label,
}
use pgbouncer_aurora_operato.Render.Names.Texts.{
  is_label_code, all_text, starts_well, ends_well, all_text-append, and_intro, dash_label,
  cons_not_empty, all_text-dashed, trim_left_dash-IsTrimmedLeft, trim_right_dash-all,
  trim_right_dash-starts_well, trim_right_dash-ends_well, trim_right_dash-count, take_text-count,
  take_text-all, take_text-starts_well, starts_well-append, append-empty, ends_well-append,
  all_allowed-ends_well, all_allowed-label,
}

-- A DNS label: 1 to 63 letters, digits and dashes, without a dash at an end.
pub record IsDnsLabel (s : String) : Type 0 where
  pub not_empty : (s == "") ≡ false
  pub short : count_text s ≤ 63
  pub chars : all_text is_label_code s ≡ true
  pub first : starts_well s ≡ true
  pub last : ends_well s ≡ true

text_or-not_empty : (s : String) → (text_or s "x" == "") ≡ false
text_or-not_empty s = if_cases (λ t. (t == "") ≡ false) (s == "") _ _ (λ _. refl) (λ e. e)

allowed_x : allowed 120 ≡ true
unfolding allowed
allowed_x = refl

take_text-not_empty : (n : ℕ) (s : String) → 10 ≤ count_text s → (take_text (suc n) s == "") ≡ false
unfolding take_text
take_text-not_empty n String.[] h = absurd (omega arith)
take_text-not_empty n (String.◌∷◌ c s) h = cons_not_empty c (take_text n s)

text_or-keeps : (P : String → Type 0) (s : String) → P "x" → P s → P (text_or s "x")
text_or-keeps P s px ps = if_cases P (s == "") _ _ (λ _. px) (λ _. ps)

x_IsDnsLabel : IsDnsLabel "x"
unfolding allowed
x_IsDnsLabel = record {
  not_empty = refl;
  short = omega arith;
  chars = refl;
  first = refl;
  last = refl;
}

module _ (to_lower digest : String → String) where
  -- The trimmed text before the test for emptiness.
  trimmed : String → String
  trimmed value = trim_right_dash (trim_left_dash (dashed false (to_lower value)))

  trimmed-label :
      (value : String)
      → (all_text is_label_code (trimmed value) ≡ true)
        × (starts_well (trimmed value) ≡ true)
        × (ends_well (trimmed value) ≡ true)
  unfolding trimmed
  trimmed-label value =
      let (chars, first) =
        trim_left_dash-IsTrimmedLeft (dashed false (to_lower value))
          (all_text-dashed false (to_lower value)) in
      let s = trim_left_dash (dashed false (to_lower value)) in
      (
        trim_right_dash-all s chars,
        trim_right_dash-starts_well s first,
        trim_right_dash-ends_well s chars,
      )

  normalize_dns_label-IsDnsLabel :
      (value : String)
      → leb (count_text (normalize_dns_label to_lower digest value)) 63 ≡ true
      → IsDnsLabel (normalize_dns_label to_lower digest value)
  unfolding normalize_dns_label trimmed
  normalize_dns_label-IsDnsLabel value fits =
      let (chars, first, last) = trimmed-label value in
      record {
        not_empty = text_or-not_empty (trimmed value);
        short = ground (arith, fits);
        chars =
            text_or-keeps (λ t. all_text is_label_code t ≡ true) (trimmed value) x_IsDnsLabel.chars
              chars;
        first = text_or-keeps (λ t. starts_well t ≡ true) (trimmed value) x_IsDnsLabel.first first;
        last = text_or-keeps (λ t. ends_well t ≡ true) (trimmed value) x_IsDnsLabel.last last;
      }

  module _ (hexadecimal : (raw : String) → all_text allowed (digest raw) ≡ true)
      (at_least_ten : (raw : String) → 10 ≤ count_text (digest raw)) where
    long : (raw : String) → (take_text 10 (digest raw) == "") ≡ false
    long raw = take_text-not_empty 9 (digest raw) (at_least_ten raw)

    shortened-IsDnsLabel :
        (raw normalized : String)
        → all_text is_label_code normalized ≡ true
        → starts_well normalized ≡ true
        → IsDnsLabel (shortened to_lower digest raw normalized)
    shortened-IsDnsLabel raw normalized chars first =
        let cut = trim_right_dash (take_text 52 normalized) in
        let front = text_or cut "x" in
        let hash = take_text 10 (digest raw) in
        let hex = take_text-all allowed 10 (digest raw) (hexadecimal raw) in
        let front_chars : all_text is_label_code front ≡ true =
          text_or-keeps (λ t. all_text is_label_code t ≡ true) cut x_IsDnsLabel.chars
            (trim_right_dash-all (take_text 52 normalized)
              (take_text-all is_label_code 52 normalized chars)) in
        let front_first : starts_well front ≡ true =
          text_or-keeps (λ t. starts_well t ≡ true) cut x_IsDnsLabel.first
            (trim_right_dash-starts_well (take_text 52 normalized)
              (take_text-starts_well 52 normalized first)) in
        let front_short : count_text front ≤ 52 =
          text_or-keeps (λ t. count_text t ≤ 52) cut (omega arith)
            (omega (
              arith,
              trim_right_dash-count (take_text 52 normalized),
              take_text-count 52 normalized,
            )) in
        record {
          not_empty = append-empty front ("-" ^^ hash) (append-empty "-" hash (long raw));
          short = omega (
            arith,
            length-append front ("-" ^^ hash),
            length-append "-" hash,
            front_short,
            take_text-count 10 (digest raw),
          );
          chars =
              all_text-append is_label_code front ("-" ^^ hash)
              ∙ and_intro front_chars (
                  all_text-append is_label_code "-" hash
                  ∙ and_intro dash_label (all_allowed-label hash hex));
          first = starts_well-append front ("-" ^^ hash) (text_or-not_empty cut) front_first;
          last =
              ends_well-append front ("-" ^^ hash) (append-empty "-" hash (long raw))
                (ends_well-append "-" hash (long raw) (all_allowed-ends_well hash hex));
        }

    -- If the digest is hexadecimal and at least ten characters long, a name is a DNS label, whatever its
    -- parts are: 1 to 63 characters, all of them letters, digits and dashes, with no dash at an end.
    pub safe_dns_label-IsDnsLabel :
        (parts : List String) → IsDnsLabel (safe_dns_label to_lower digest parts)
    unfolding safe_dns_label normalize_dns_label trimmed
    safe_dns_label-IsDnsLabel parts =
        let raw = join parts "-" in
        let (chars, first, last) = trimmed-label raw in
        if_cases IsDnsLabel
          (leb (count_text (normalize_dns_label to_lower digest raw)) max_dns_label_length) _ _
          (normalize_dns_label-IsDnsLabel raw)
          λ _.
            shortened-IsDnsLabel raw (normalize_dns_label to_lower digest raw)
              (text_or-keeps (λ t. all_text is_label_code t ≡ true) (trimmed raw) x_IsDnsLabel.chars
                chars)
              (text_or-keeps (λ t. starts_well t ≡ true) (trimmed raw) x_IsDnsLabel.first first)
