-- ===== src/Artifacts/Spec.antt =====
-- `RuntimeArtifactSpec` of backend/app/services/runtime_artifacts.py, its validation and the values that
-- the template may interpolate. `urlsplit` of the standard library is a parameter.
use Prim.Native.Char.{Char, code}
use Prim.Native.String.{count}
use conductor_data_platform.Prelude.{
  ℕ, String, Bool, true, false, not, ◌&&◌, ◌||◌, Option, none, some, List, [], ◌∷◌, leb, eqb,
  if◌then◌else◌, is_empty, any_row,
}
use conductor_data_platform.Models.{JsonObject}
use conductor_data_platform.Lifecycle.{Raised, value_error}

pub record RuntimeArtifactSpec : Type 0 where
  pub project_id : String
  pub generation : ℕ
  pub template_version : String
  pub compose_project_name : String
  pub project_slug : String
  pub airflow_external_url : String
  pub airflow_db_name : String
  pub airflow_db_role : String
  pub airflow_db_password : String
  pub airflow_admin_user : String
  pub airflow_admin_password : String
  pub airflow_dev_user : String
  pub airflow_dev_password : String
  pub airflow_viewer_user : String
  pub airflow_viewer_password : String
  pub airflow_integration_user : String
  pub airflow_integration_password : String
  pub parameters : JsonObject

-- The configuration of a `RuntimeArtifactWriter` that reaches the environment file
pub record WriterSettings : Type 0 where
  pub runtime_ingress_network : String
  pub airflow_image : String
  pub airflow_database_host : String
  pub airflow_database_port : ℕ

-- What `_airflow_external_host` reads of a split URL. A missing text and an empty one are not told apart.
pub record SplitUrl : Type 0 where
  pub scheme : String
  pub hostname : String
  pub username : String
  pub password : String
  pub port : Option ℕ
  pub path : String
  pub query : String
  pub fragment : String

abbrev between : ℕ → ℕ → Char → Bool
between a b c = leb a (code c) && leb (code c) b

abbrev pub is_lower_alnum : Char → Bool
is_lower_alnum c = between b'a' b'z' c || between b'0' b'9' c

abbrev pub is_alnum : Char → Bool
is_alnum c = is_lower_alnum c || between b'A' b'Z' c

abbrev is_one_of : List ℕ → Char → Bool
is_one_of cs c = any_row (λ n. eqb n (code c)) cs

unfoldable pub all_chars : (Char → Bool) → String → Bool
all_chars p String.[] = true
all_chars p (String.◌∷◌ c s) = p c && all_chars p s

-- One character of a first class and at most `n` of a second
abbrev pub begins_with : (Char → Bool) → (Char → Bool) → ℕ → String → Bool
begins_with first others n String.[] = false
begins_with first others n (String.◌∷◌ c s) = first c && leb (count s) n && all_chars others s

abbrev slug_char : Char → Bool
slug_char c = is_lower_alnum c || is_one_of (b'-' ∷ []) c

abbrev network_char : Char → Bool
network_char c = is_lower_alnum c || is_one_of (b'_' ∷ b'.' ∷ b'-' ∷ []) c

abbrev image_char : Char → Bool
image_char c = is_alnum c || is_one_of (b'.' ∷ b'_' ∷ b'/' ∷ b'@' ∷ b':' ∷ b'+' ∷ b'-' ∷ []) c

abbrev pub is_slug : String → Bool
is_slug = begins_with is_lower_alnum slug_char 62

abbrev pub is_network_name : String → Bool
is_network_name = begins_with is_lower_alnum network_char 62

abbrev pub is_image_reference : String → Bool
is_image_reference = begins_with is_alnum image_char 255

-- A text of a class whose last character is of a narrower class
unfoldable pub ends_in : (Char → Bool) → (Char → Bool) → String → Bool
ends_in others last String.[] = false
ends_in others last (String.◌∷◌ c s) =
    let more = others c && ends_in others last s in if is_empty s then last c else more

unfoldable pub is_dns_label : String → Bool
unfolding ends_in
is_dns_label String.[] = false
is_dns_label (String.◌∷◌ c s) =
    is_lower_alnum c && (is_empty s || (leb (count s) 62 && ends_in slug_char is_lower_alnum s))

abbrev first_longer : Char → List String → List String
first_longer c [] = []
first_longer c (s ∷ ss) = String.◌∷◌ c s ∷ ss

-- `value.split(".")`
unfoldable pub split_dots : String → List String
split_dots String.[] = String.[] ∷ []
split_dots (String.◌∷◌ c s) =
    if eqb (code c) b'.' then String.[] ∷ split_dots s else first_longer c (split_dots s)

unfoldable pub is_hostname : String → Bool
unfolding is_dns_label split_dots
is_hostname value =
    leb (count value) 253 && not (any_row (λ l. not (is_dns_label l)) (split_dots value))

abbrev pub must : Bool → String → Option Raised
must true message = none
must false message = some (value_error message)

-- The first check that fails
infixr 30 ◌and_then◌
abbrev pub ◌and_then◌ : Option Raised → Option Raised → Option Raised
none and_then second = second
some e and_then second = some e
