-- ===== src/Artifacts/Validate.antt =====
-- `_validate_spec`, `_airflow_external_host` and `_allowlisted_env` of
-- backend/app/services/runtime_artifacts.py. `urlsplit` is a parameter; `none` is its ValueError.
use Prim.Native.Char.{Char, code}
use Prim.Native.String
use conductor_data_platform.Prelude.{
  String, Bool, true, false, not, ◌&&◌, ◌||◌, Option, none, some, List, [], ◌∷◌, leb, eqb,
  if◌then◌else◌, ◌==◌, is_empty,
}
use conductor_data_platform.Lifecycle.{Raised, value_error}
use conductor_data_platform.Lifecycle.Identity.{is_hex_text}
use conductor_data_platform.Lifecycle.Transitions.{validate_runtime_parameters}
use conductor_data_platform.Outcome.{Outcome, returned, raised}
use conductor_data_platform.Artifacts.Spec.{
  RuntimeArtifactSpec, WriterSettings, SplitUrl, is_slug, is_network_name, is_image_reference,
  is_hostname, must, ◌and_then◌,
}
use conductor_data_platform.Artifacts.Quote.{quote, decimal}

abbrev is_given : {A : Type 0} → Option A → Bool
is_given none = false
is_given (some a) = true

abbrev pub is_canonical : SplitUrl → Bool
is_canonical u =
    u.scheme == "https"
    && is_empty u.username
    && is_empty u.password
    && not (is_given u.port)
    && is_empty u.path
    && is_empty u.query
    && is_empty u.fragment
    && is_hostname u.hostname

abbrev pub no_host : Raised
no_host = value_error "airflow_external_url must use a canonical HTTPS hostname"

abbrev pub env_of : RuntimeArtifactSpec → WriterSettings → String → List (String × String)
env_of spec w airflow_host =
    ("COMPOSE_PROJECT_NAME", spec.compose_project_name)
    ∷ ("CONDUCTOR_PROJECT_ID", spec.project_id)
    ∷ ("CONDUCTOR_TEMPLATE_VERSION", spec.template_version)
    ∷ ("CONDUCTOR_RUNTIME_INGRESS_NETWORK", w.runtime_ingress_network)
    ∷ ("AIRFLOW_IMAGE", w.airflow_image)
    ∷ ("PROJECT_SLUG", spec.project_slug)
    ∷ ("AIRFLOW_EXTERNAL_HOST", airflow_host)
    ∷ ("AIRFLOW_INTERNAL_ALIAS", String.◌++◌ "airflow-" spec.project_id)
    ∷ ("AIRFLOW_DATABASE_HOST", w.airflow_database_host)
    ∷ ("AIRFLOW_DATABASE_PORT", decimal w.airflow_database_port)
    ∷ ("AIRFLOW_DB_NAME", spec.airflow_db_name)
    ∷ ("AIRFLOW_DB_ROLE", spec.airflow_db_role)
    ∷ ("AIRFLOW_DB_PASSWORD_URLENCODED", quote spec.airflow_db_password)
    ∷ ("AIRFLOW_ADMIN_USER", spec.airflow_admin_user)
    ∷ ("AIRFLOW_ADMIN_PASSWORD", spec.airflow_admin_password)
    ∷ ("AIRFLOW_DEV_USER", spec.airflow_dev_user)
    ∷ ("AIRFLOW_DEV_PASSWORD", spec.airflow_dev_password)
    ∷ ("AIRFLOW_VIEWER_USER", spec.airflow_viewer_user)
    ∷ ("AIRFLOW_VIEWER_PASSWORD", spec.airflow_viewer_password)
    ∷ ("AIRFLOW_INTEGRATION_USER", spec.airflow_integration_user)
    ∷ ("AIRFLOW_INTEGRATION_PASSWORD", spec.airflow_integration_password)
    ∷ []

module _ (urlsplit : String → Option SplitUrl) where
  unfoldable pub airflow_external_host : String → Outcome String
  airflow_external_host value = elim (urlsplit value) [
    | none ↦ raised no_host
    | some u ↦ if is_canonical u then returned u.hostname else raised no_host
  ]

  unfoldable pub allowlisted_env :
      RuntimeArtifactSpec → WriterSettings → Outcome (List (String × String))
  unfolding airflow_external_host
  allowlisted_env spec w = elim (airflow_external_host spec.airflow_external_url) [
    | raised e ↦ raised e
    | returned host ↦ returned (env_of spec w host)
  ]

abbrev is_line_break : Char → Bool
is_line_break c = eqb (code c) 0 || eqb (code c) 10 || eqb (code c) 13

unfoldable pub is_single_line : String → Bool
is_single_line String.[] = true
is_single_line (String.◌∷◌ c s) = not (is_line_break c) && is_single_line s

abbrev pub is_env_value : String → Bool
is_env_value value = not (is_empty value) && is_single_line value

unfoldable pub validate_values : List (String × String) → Option Raised
unfolding is_single_line
validate_values [] = none
validate_values ((name, value) ∷ values) =
    must (is_env_value value) (String.◌++◌ name " must be a non-empty single-line value")
    and_then validate_values values

-- The checks before those of the values
unfoldable pub validate_fields :
    (String → Option SplitUrl) → RuntimeArtifactSpec → WriterSettings → Option Raised
unfolding airflow_external_host
validate_fields urlsplit spec w =
    must (is_hex_text 32 spec.project_id)
      "project_id must be exactly 32 lowercase hexadecimal characters"
    and_then must (leb 1 spec.generation) "generation must be a positive integer"
    and_then validate_runtime_parameters spec.parameters
    and_then must (spec.compose_project_name == String.◌++◌ "conductor-p-" spec.project_id)
        "compose_project_name does not match the immutable project identity"
    and_then must
        (spec.airflow_db_name == String.◌++◌ "conductor_airflow_" spec.project_id
          && spec.airflow_db_role == String.◌++◌ "conductor_airflow_" spec.project_id)
        "Airflow database identity does not match the immutable project identity"
    and_then must (is_slug spec.project_slug) "project_slug must be a canonical project slug"
    and_then (elim (airflow_external_host urlsplit spec.airflow_external_url) [
      | returned _ ↦ none
      | raised e ↦ some e
    ])
    and_then must (is_network_name w.runtime_ingress_network)
        "runtime_ingress_network must be a canonical Docker network name"
    and_then must (is_image_reference w.airflow_image)
        "airflow_image must be a canonical container image reference"
    and_then must (is_hostname w.airflow_database_host)
        "airflow_database_host must be a canonical DNS hostname"
    and_then must (leb 1 w.airflow_database_port && leb w.airflow_database_port 65535)
        "airflow_database_port must be between 1 and 65535"

unfoldable pub validate_spec :
    (String → Option SplitUrl) → RuntimeArtifactSpec → WriterSettings → Option Raised
unfolding validate_fields validate_values allowlisted_env
validate_spec urlsplit spec w =
    validate_fields urlsplit spec w and_then (elim (allowlisted_env urlsplit spec w) [
      | raised e ↦ some e
      | returned env ↦ validate_values env
    ])
