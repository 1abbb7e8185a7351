-- ===== src/Base/Text.antt =====
-- Texts: white space, case folding, joining, splitting and replacing, as Go's `strings` does.
use Prim.Native.Nat.{ℕ, zero, suc, ◌+◌, ◌-◌}
use Prim.Native.Char.{Char, code}
use Prim.Native.String.{String, count, ◌++◌}
use mathlib.Core.Path.{◌≡◌, refl}
use mathlib.Core.Bool.{Bool, true, false, ◌&&◌, ◌||◌}
use mathlib.Core.List.{List, [], ◌∷◌}
use text.Mathlib.Text.{◌==◌, starts_with}
use pgbouncer_aurora_operato.Base.Tests.{leb, ◌=?◌, if◌then◌else◌}

-- `unicode.IsSpace`.
unfoldable pub is_space : ℕ → Bool
is_space c =
    (leb 9 c && leb c 13)
    || c =? 32
    || c =? 0x85
    || c =? 0xa0
    || c =? 0x1680
    || (leb 0x2000 c && leb c 0x200a)
    || c =? 0x2028
    || c =? 0x2029
    || c =? 0x202f
    || c =? 0x205f
    || c =? 0x3000

unfoldable pub trim_left : String → String
unfolding is_space
trim_left String.[] = ""
trim_left (String.◌∷◌ c s) =
    let rest = trim_left s in if is_space (code c) then rest else String.◌∷◌ c s

unfoldable pub trim_right : String → String
unfolding is_space
trim_right String.[] = ""
trim_right (String.◌∷◌ c s) =
    let rest = trim_right s in if rest == "" && is_space (code c) then "" else String.◌∷◌ c rest

-- `strings.TrimSpace`.
unfoldable pub trim_space : String → String
unfolding trim_left trim_right
trim_space s = trim_right (trim_left s)

-- Simple case folding, as far as an ASCII text can tell: the long s and the Kelvin sign fold too.
fold_code : ℕ → ℕ
fold_code c =
    if leb 65 c && leb c 90
    then c + 32
    else if c =? 0x17f
    then 115
    else if c =? 0x212a
    then 107
    else c

-- `strings.EqualFold` where one of the texts is ASCII.
unfoldable pub equal_fold : String → String → Bool
unfolding fold_code
equal_fold String.[] String.[] = true
equal_fold (String.◌∷◌ c s) (String.◌∷◌ d t) =
    fold_code (code c) =? fold_code (code d) && equal_fold s t
equal_fold _ _ = false

-- `strings.Join`.
unfoldable pub join : List String → String → String
join [] sep = ""
join (s ∷ []) sep = s
join (s ∷ t ∷ ss) sep = s ++ sep ++ join (t ∷ ss) sep

-- `strings.ReplaceAll` for a text to replace that is not empty; `skip` counts the characters of a
-- found one that are still to be passed over.
replace_from : ℕ → String → String → String → String
replace_from skip String.[] old new = ""
replace_from (suc skip) (String.◌∷◌ c s) old new = replace_from skip s old new
replace_from zero (String.◌∷◌ c s) old new =
    let found = new ++ replace_from (count old - 1) s old new in
    let missed = String.◌∷◌ c (replace_from 0 s old new) in
    if starts_with (String.◌∷◌ c s) old then found else missed

unfoldable pub replace_all : String → String → String → String
unfolding replace_from
replace_all s old new = replace_from 0 s old new

-- `strings.Contains`.
unfoldable pub contains_text : String → String → Bool
contains_text String.[] pattern = pattern == ""
contains_text (String.◌∷◌ c s) pattern =
    let later = contains_text s pattern in
    if starts_with (String.◌∷◌ c s) pattern then true else later

unfoldable pub add_first : Char → List String → List String
add_first c [] = String.◌∷◌ c "" ∷ []
add_first c (s ∷ ss) = String.◌∷◌ c s ∷ ss

-- `strings.Split` at each comma.
unfoldable pub split_commas : String → List String
unfolding add_first
split_commas String.[] = "" ∷ []
split_commas (String.◌∷◌ c s) =
    let rest = split_commas s in if code c =? 44 then "" ∷ rest else add_first c rest

trim_space_example : trim_space " db-1 " ≡ "db-1"
unfolding trim_space
trim_space_example = refl

equal_fold_example : equal_fold "Master_ſession_id" "MASTER_SESSION_ID" ≡ true
unfolding equal_fold
equal_fold_example = refl

replace_all_example : replace_all "{i}.{d}" "{d}" "x.com" ≡ "{i}.x.com"
unfolding replace_all
replace_all_example = refl
