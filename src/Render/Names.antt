-- ===== src/Render/Names.antt =====
-- internal/render/resources.go: the names of the Kubernetes objects. Lower case (`strings.ToLower`) and
-- the hexadecimal SHA-1 digest of a text are parameters.
pub mod Texts
pub mod Valid
mod Tests
use Prim.Native.Char.{code}
use Prim.Native.Nat.{zero}
use Prim.Native.String.{count as count_text}
use pgbouncer_aurora_operato.Base.{
  leb, ◌=?◌, if◌then◌else◌, join, ℕ, suc, ◌-◌, String, ◌^^◌, Bool, true, false, ◌&&◌, ◌||◌, List,
  [], ◌∷◌, ◌==◌,
}

is_lower : ℕ → Bool
is_lower c = leb 97 c && leb c 122

is_digit : ℕ → Bool
is_digit c = leb 48 c && leb c 57

unfoldable pub allowed : ℕ → Bool
unfolding is_lower is_digit
allowed c = is_lower c || is_digit c

-- The loop of `normalizeDNSLabel`: each run of other characters becomes one dash.
unfoldable pub dashed : Bool → String → String
dashed last_dash String.[] = ""
dashed last_dash (String.◌∷◌ c s) =
    let word = dashed false s in
    let gap = dashed true s in
    if allowed (code c) then String.◌∷◌ c word else if last_dash then gap else "-" ^^ gap

-- `strings.TrimLeft` and `strings.TrimRight` of dashes.
unfoldable pub trim_left_dash : String → String
trim_left_dash String.[] = ""
trim_left_dash (String.◌∷◌ c s) =
    let rest = trim_left_dash s in if code c =? 45 then rest else String.◌∷◌ c s

unfoldable pub trim_right_dash : String → String
trim_right_dash String.[] = ""
trim_right_dash (String.◌∷◌ c s) =
    let rest = trim_right_dash s in if rest == "" && code c =? 45 then "" else String.◌∷◌ c rest

-- The first characters of a text.
unfoldable pub take_text : ℕ → String → String
take_text zero s = ""
take_text (suc n) String.[] = ""
take_text (suc n) (String.◌∷◌ c s) = String.◌∷◌ c (take_text n s)

abbrev pub text_or : String → String → String
text_or text default = if text == "" then default else text

abbrev pub max_dns_label_length : ℕ
max_dns_label_length = 63

abbrev pub name_hash_length : ℕ
name_hash_length = 10

module _ (to_lower : String → String) (digest : String → String) where
  unfoldable pub normalize_dns_label : String → String
  normalize_dns_label value =
      text_or (trim_right_dash (trim_left_dash (dashed false (to_lower value)))) "x"

  abbrev pub shortened : String → String → String
  shortened raw normalized =
      text_or (trim_right_dash (take_text (max_dns_label_length - name_hash_length - 1) normalized))
        "x"
      ^^ "-"
      ^^ take_text name_hash_length (digest raw)

  -- All characters of a normalized text are ASCII, so that it has as many bytes.
  unfoldable pub safe_dns_label : List String → String
  safe_dns_label parts =
      let raw = join parts "-" in
      let normalized = normalize_dns_label raw in
      if leb (count_text normalized) max_dns_label_length
      then normalized
      else shortened raw normalized

  abbrev pub cluster_label_value : String → String
  cluster_label_value cluster_name = safe_dns_label (cluster_name ∷ [])

  abbrev pub instance_resource_name : String → String → String
  instance_resource_name cluster_name instance_name =
      safe_dns_label (cluster_name ∷ instance_name ∷ [])

  abbrev pub role_service_name : String → String → String
  role_service_name cluster_name service_name = safe_dns_label (cluster_name ∷ service_name ∷ [])
