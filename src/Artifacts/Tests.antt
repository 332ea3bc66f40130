-- ===== src/Artifacts/Tests.antt =====
-- One generation, rendered onto an empty disk and again.
use conductor_data_platform.Prelude.{
  ◌≢◌, ℕ, ap, length, String, String-discrete, true, false, none, some, List, [], ◌∷◌, ◌≡◌, refl,
  arith, length,
}
use conductor_data_platform.Outcome.{returned}
use conductor_data_platform.Artifacts.Spec.{
  RuntimeArtifactSpec, is_dns_label, is_hostname, split_dots, all_chars,
}
use conductor_data_platform.Artifacts.Quote.{quote, decimal}
use conductor_data_platform.Artifacts.Validate.{validate_spec}
use conductor_data_platform.Artifacts.EnvFile.{serialize_env, escape_compose_env_literal}
use conductor_data_platform.Artifacts.Env.{serialize_env_injective}
use conductor_data_platform.Artifacts.Disk.{regular, Node, folder, get}
use conductor_data_platform.Artifacts.Disk.{no_fault}
use conductor_data_platform.Artifacts.Publish.{Run, publish_generation_atomically}
use conductor_data_platform.Artifacts.Writer.{
  RuntimeArtifact, RuntimeArtifactWriter, Disk, installed, artifact_of, render,
  ensure_private_project_directory, prepare, runtime_directory, template_of, write_artifact,
  write_files,
}
use conductor_data_platform.Artifacts.Verified.{IsComplete}
use conductor_data_platform.Artifacts.Staged.{IsSettled, seen}
use conductor_data_platform.Artifacts.Atomic.{
  publish_generation_atomically-IsSettled, publish_generation_atomically-IsComplete,
}
use conductor_data_platform.Artifacts.Rendered.{IsPrepared, IsWritten, render-IsWritten}
use conductor_data_platform.Lifecycle.Identity.{is_hex_text}
use conductor_data_platform.Lifecycle.Transitions.{validate_runtime_parameters}

escaped : escape_compose_env_literal "it's a \\ sign" ≡ "it\\'s a \\\\ sign"
unfolding escape_compose_env_literal
escaped = refl

quoted : quote "a b/é~" ≡ "a%20b%2F%C3%A9~"
unfolding quote
quoted = refl

port_text : decimal 5432 ≡ "5432"
unfolding decimal
port_text = refl

labels : split_dots "a.b-c." ≡ "a" ∷ "b-c" ∷ "" ∷ []
unfolding split_dots
labels = refl

trailing_hyphen : is_dns_label "sales-" ≡ false
unfolding is_dns_label
trailing_hyphen = refl

abbrev lines : List (String × String)
lines = ("A", "it's") ∷ ("B", "two\nlines='x'\\") ∷ []

-- A value that tries to close its literal and to add a variable
abbrev forged : List (String × String)
forged = ("A", "it's'\nB='two\nlines='x'\\") ∷ []

forged_lem : lines ≢ forged
forged_lem e = let n : ◌≡◌ {A = ℕ} 2 1 = ap length e in absurd (omega arith)

serialize_env_injective_example : serialize_env lines ≢ serialize_env forged
serialize_env_injective_example =
    serialize_env_injective lines forged (ground arith) (ground arith) forged_lem

abbrev generation : Node
generation =
    folder 493 (("compose.yaml", regular 420 "services:") ∷ (".env", regular 420 "A='1'\n") ∷ [])

abbrev other_run : Run
other_run = record {
  token = "t";
  others = λ entries. ("1", generation) ∷ entries;
  reports_exists = true;
  fault = no_fault;
}

-- Another process publishes other contents first.
publish_generation_atomically-IsSettled_example :
    IsSettled "1" "services:" "A='2'\n"
      (seen other_run "1" [])
      (publish_generation_atomically other_run "1" "services:" "A='2'\n" [])
publish_generation_atomically-IsSettled_example =
    publish_generation_atomically-IsSettled "1" "services:" "A='2'\n" other_run []

publish_generation_atomically-IsComplete_example :
    IsComplete "services:" "A='1'\n"
      (get "1" (publish_generation_atomically other_run "1" "services:" "A='2'\n" []).1)
unfolding get String-discrete
publish_generation_atomically-IsComplete_example =
    publish_generation_atomically-IsComplete "1" "services:" "A='2'\n" other_run [] "services:"
      "A='1'\n"
      (
        493,
        ("compose.yaml", regular 420 "services:") ∷ (".env", regular 420 "A='1'\n") ∷ [],
        420,
        420,
        refl,
        refl,
        refl,
      )

abbrev writer : RuntimeArtifactWriter
writer = record {
  runtime_root = "/var/runtime";
  settings = record {
    runtime_ingress_network = "conductor-runtime-ingress";
    airflow_image = "conductor-airflow:latest";
    airflow_database_host = "host.docker.internal";
    airflow_database_port = 5432;
  };
  template_root = λ _. installed "services:";
  urlsplit = λ _. some (record {
    scheme = "https";
    hostname = "sales.airflow.example.org";
    username = "";
    password = "";
    port = none;
    path = "";
    query = "";
    fragment = "";
  });
}

abbrev spec : RuntimeArtifactSpec
spec = record {
  project_id = "0123456789abcdef0123456789abcdef";
  generation = 1;
  template_version = "v1";
  compose_project_name = "conductor-p-0123456789abcdef0123456789abcdef";
  project_slug = "sales";
  airflow_external_url = "https://sales.airflow.example.org";
  airflow_db_name = "conductor_airflow_0123456789abcdef0123456789abcdef";
  airflow_db_role = "conductor_airflow_0123456789abcdef0123456789abcdef";
  airflow_db_password = "p/w'";
  airflow_admin_user = "admin";
  airflow_admin_password = "it's";
  airflow_dev_user = "dev";
  airflow_dev_password = "d";
  airflow_viewer_user = "viewer";
  airflow_viewer_password = "v";
  airflow_integration_user = "integration";
  airflow_integration_password = "i";
  parameters = [];
}

abbrev run : Run
run = record { token = "t"; others = λ entries. entries; reports_exists = false; fault = no_fault }

abbrev disk : Disk
disk = record { root = none; project = none; generations = [] }

abbrev artifact : RuntimeArtifact
artifact = artifact_of spec "/var/runtime/0123456789abcdef0123456789abcdef/1"

rendered : (render writer run spec disk).0 ≡ returned artifact
unfolding render prepare template_of String-discrete validate_spec is_hex_text
    validate_runtime_parameters all_chars is_hostname decimal quote runtime_directory write_artifact
    ensure_private_project_directory write_files publish_generation_atomically
rendered = refl

render-IsWritten_example :
    (content : String) × (env : List (String × String)) × IsPrepared writer spec content env
    × (length env ≡ 21)
    × IsWritten writer spec content env artifact (render writer run spec disk).1
render-IsWritten_example = render-IsWritten writer spec run disk artifact rendered
