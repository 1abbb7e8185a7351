-- ===== src/Base/Words.antt =====
-- Texts without white space, and lists of them joined by commas.
use Prim.Native.Nat.{ℕ}
use Prim.Native.Char.{code}
use Prim.Native.String.{String, ◌++◌}
use Prim.Native.String.append as append_lem
use mathlib.Core.Path.{◌≡◌, refl, ap, ◌∙◌}
use mathlib.Core.Bool.{Bool, true, false, not, ◌&&◌}
use mathlib.Core.List.{List, [], ◌∷◌}
use text.Mathlib.Text.{◌==◌}
use pgbouncer_aurora_operato.Base.Tests.{
  ◌=?◌, if_true, if_false, and_elim, and_intro, is_false, and_false,
}
use pgbouncer_aurora_operato.Base.Lists.{All}
use pgbouncer_aurora_operato.Base.Text.{
  is_space, trim_left, trim_right, trim_space, join, split_commas, add_first,
}

-- Every character passes the test.
abbrev pub all_chars : (ℕ → Bool) → String → Bool
all_chars p String.[] = true
all_chars p (String.◌∷◌ c s) = p (code c) && all_chars p s

-- Neither white space nor a comma.
abbrev pub is_word_code : ℕ → Bool
is_word_code c = not (is_space c) && not (c =? 44)

abbrev pub is_word : String → Bool
is_word = all_chars is_word_code

abbrev has_no_space : String → Bool
has_no_space = all_chars (λ c. not (is_space c))

trim_right-no_space : (s : String) → has_no_space s ≡ true → trim_right s ≡ s
unfolding trim_right
trim_right-no_space String.[] h = refl
trim_right-no_space (String.◌∷◌ c s) h =
    let both = and_elim (not (is_space (code c))) (has_no_space s) h in
    if_false {b = trim_right s == "" && is_space (code c)} "" _
      (and_false (trim_right s == "") (is_false both.0))
    ∙ ap (λ t. String.◌∷◌ c t) (trim_right-no_space s both.1)

trim_left-no_space : (s : String) → has_no_space s ≡ true → trim_left s ≡ s
unfolding trim_left
trim_left-no_space String.[] h = refl
trim_left-no_space (String.◌∷◌ c s) h =
    if_false {b = is_space (code c)} (trim_left s) _
      (is_false (and_elim (not (is_space (code c))) (has_no_space s) h).0)

pub trim_space-no_space : (s : String) → has_no_space s ≡ true → trim_space s ≡ s
unfolding trim_space
trim_space-no_space s h = ap trim_right (trim_left-no_space s h) ∙ trim_right-no_space s h

pub is_word-no_space : (s : String) → is_word s ≡ true → has_no_space s ≡ true
is_word-no_space String.[] h = refl
is_word-no_space (String.◌∷◌ c s) h =
    let both = and_elim (is_word_code (code c)) (is_word s) h in
    and_intro (and_elim (not (is_space (code c))) (not (code c =? 44)) both.0).0
      (is_word-no_space s both.1)

has_no_space-append :
    (s t : String) → has_no_space s ≡ true → has_no_space t ≡ true → has_no_space (s ++ t) ≡ true
has_no_space-append String.[] t hs ht = rw (append_lem.nil t) ht
has_no_space-append (String.◌∷◌ c s) t hs ht =
    let both = and_elim (not (is_space (code c))) (has_no_space s) hs in
    rw (append_lem.cons c s t) (and_intro both.0 (has_no_space-append s t both.1 ht))

pub has_no_space-join :
    (words : List String) → All (λ w. is_word w ≡ true) words → has_no_space (join words ",") ≡ true
unfolding join is_space
has_no_space-join [] h = refl
has_no_space-join (w ∷ []) h = is_word-no_space w h.0
has_no_space-join (w ∷ v ∷ words) h =
    has_no_space-append w ("," ++ join (v ∷ words) ",") (is_word-no_space w h.0)
      (has_no_space-append "," (join (v ∷ words) ",") refl (has_no_space-join (v ∷ words) h.1))

word_not_comma : (c : ℕ) (s : String) → (is_word_code c && is_word s) ≡ true → (c =? 44) ≡ false
word_not_comma c s h =
    is_false
      (and_elim (not (is_space c)) (not (c =? 44)) (and_elim (is_word_code c) (is_word s) h).0).1

split_commas-word : (s : String) → is_word s ≡ true → split_commas s ≡ s ∷ []
unfolding split_commas add_first
split_commas-word String.[] h = refl
split_commas-word (String.◌∷◌ c s) h =
    if_false {b = code c =? 44} ("" ∷ split_commas s) _ (word_not_comma (code c) s h)
    ∙ ap (add_first c) (split_commas-word s (and_elim (is_word_code (code c)) (is_word s) h).1)

abbrev is_comma : String → Bool
is_comma (String.◌∷◌ c String.[]) = code c =? 44
is_comma s = false

split_commas-comma :
    (sep t : String) → is_comma sep ≡ true → split_commas (sep ++ t) ≡ "" ∷ split_commas t
unfolding split_commas
split_commas-comma String.[] t h = cc
split_commas-comma (String.◌∷◌ c String.[]) t h =
    rw (append_lem.cons c "" t, append_lem.nil t)
      (if_true {b = code c =? 44} ("" ∷ split_commas t) (add_first c (split_commas t)) h)
split_commas-comma (String.◌∷◌ c (String.◌∷◌ d s)) t h = cc

split_commas-append :
    (s t : String) → is_word s ≡ true → split_commas (s ++ "," ++ t) ≡ s ∷ split_commas t
unfolding split_commas add_first
split_commas-append String.[] t h = rw (append_lem.nil ("," ++ t)) (split_commas-comma "," t refl)
split_commas-append (String.◌∷◌ c s) t h = rw (append_lem.cons c s ("," ++ t)) (
    if_false {b = code c =? 44} ("" ∷ split_commas (s ++ "," ++ t)) _ (word_not_comma (code c) s h)
    ∙ ap (add_first c) (split_commas-append s t (and_elim (is_word_code (code c)) (is_word s) h).1))

-- Splitting gives back the words that were joined.
pub split_commas-join :
    (w : String) (words : List String)
    → All (λ v. is_word v ≡ true) (w ∷ words)
    → split_commas (join (w ∷ words) ",") ≡ w ∷ words
unfolding join
split_commas-join w [] h = split_commas-word w h.0
split_commas-join w (v ∷ words) h =
    split_commas-append w (join (v ∷ words) ",") h.0
    ∙ ap (λ ws. w ∷ ws) (split_commas-join v words h.1)
