-- ===== src/Monitor/Secrets.antt =====
-- internal/postgres/connect.go: what a connection is made with.
use pgbouncer_aurora_operato.Base.{
  if◌then◌else◌, lookup, Answer, ok, failed, ℕ, String, ◌^^◌, Option, none, some, List, [], ◌∷◌,
  ◌==◌,
}

pub record Credentials : Type 0 where
  pub username : String
  pub password : String

pub record ConnInfo : Type 0 where
  pub host : String
  pub port : ℕ
  pub database : String
  pub username : String
  pub password : String
  pub ssl_mode : String

-- A secret of Kubernetes, its data decoded.
pub record Secret : Type 0 where
  pub name : String
  pub namespace : String
  pub data_values : List (String × String)
  pub string_data : List (String × String)

abbrev pub value_or : Option String → String → String
value_or none other = other
value_or (some value) other = value

-- The loop over the keys; an empty value counts as found.
unfoldable pub first_secret_value : Secret → List String → String
first_secret_value secret [] = ""
first_secret_value secret (key ∷ keys) =
    let later = first_secret_value secret keys in
    value_or (lookup key secret.data_values) (value_or (lookup key secret.string_data) later)

unfoldable pub credentials_from_secret : Secret → Answer Credentials
credentials_from_secret secret =
    let username = first_secret_value secret ("username" ∷ "user" ∷ []) in
    let password = first_secret_value secret ("password" ∷ []) in
    let missing = "secret " ^^ secret.namespace ^^ "/" ^^ secret.name ^^ " missing " in
    if username == ""
    then failed (missing ^^ "username")
    else if password == ""
    then failed (missing ^^ "password")
    else ok (record { username = username; password = password })
