-- ===== src/Artifacts/Writer.antt =====
-- `RuntimeArtifactWriter` and `runtime_artifact_metadata` of backend/app/services/runtime_artifacts.py.
use Prim.Native.String
use conductor_data_platform.Prelude.{
  ℕ, String, not, Option, none, some, List, [], ◌∷◌, leb, if◌then◌else◌, ◌==◌,
}
use conductor_data_platform.Lifecycle.{invalid_template}
use conductor_data_platform.Lifecycle.Identity.{is_hex_text}
use conductor_data_platform.Models.{JsonObject, text, number}
use conductor_data_platform.Outcome.{Outcome, returned, raised}
use conductor_data_platform.Artifacts.Spec.{
  RuntimeArtifactSpec, WriterSettings, SplitUrl, must, ◌and_then◌,
}
use conductor_data_platform.Artifacts.Quote.{decimal}
use conductor_data_platform.Artifacts.Validate.{validate_spec, allowlisted_env}
use conductor_data_platform.Artifacts.EnvFile.{serialize_env}
use conductor_data_platform.Artifacts.Disk.{
  Node, Place, open_private_runtime_root, open_private_child_directory,
}
use conductor_data_platform.Artifacts.Publish.{Run, publish_generation_atomically}

pub record RuntimeArtifact : Type 0 where
  pub project_id : String
  pub generation : ℕ
  pub template_version : String
  pub runtime_directory : String
  pub compose_path : String
  pub env_path : String

-- What the resolved path of a template version stands for
pub data Template : Type 0 where
  outside missing : Template
  installed : String → Template

pub record RuntimeArtifactWriter : Type 0 where
  pub runtime_root : String
  pub settings : WriterSettings
  pub template_root : String → Template
  pub urlsplit : String → Option SplitUrl

-- The part of the disk that a writer touches for one project
pub record Disk : Type 0 where
  pub root : Option Place
  pub project : Option Place
  pub generations : List (String × Node)

-- `_template_path` and the reading of the template
unfoldable pub template_of : RuntimeArtifactWriter → String → Outcome String
template_of writer version =
    if not (version == "v1")
    then raised (invalid_template "Runtime template version is not allowlisted")
    else elim (writer.template_root version) [
      | outside ↦ raised (invalid_template "Runtime template path escapes trusted templates")
      | missing ↦ raised (invalid_template "Runtime template version is not installed")
      | installed content ↦ returned content
    ]

-- Below the root for each valid project id, so the test that it is cannot fail
unfoldable pub runtime_directory : RuntimeArtifactWriter → String → ℕ → Outcome String
runtime_directory writer project_id generation =
    elim (must (is_hex_text 32 project_id)
        "project_id must be exactly 32 lowercase hexadecimal characters"
      and_then must (leb 1 generation) "generation must be a positive integer") [
        | some e ↦ raised e
        | none ↦ returned (
            String.◌++◌ writer.runtime_root
              (String.◌++◌ "/" (String.◌++◌ project_id (String.◌++◌ "/" (decimal generation)))))
      ]

unfoldable pub ensure_private_project_directory : Disk → Outcome (Unit {0}) × Disk
unfolding open_private_runtime_root open_private_child_directory
ensure_private_project_directory disk =
    let (r, root') = open_private_runtime_root disk.root in
    elim r [
      | raised e ↦ (raised e, record disk { root = root' })
      | returned _ ↦
          let (r', project') = open_private_child_directory disk.project in
          (r', record disk { root = root'; project = project' })
    ]

abbrev pub artifact_of : RuntimeArtifactSpec → String → RuntimeArtifact
artifact_of spec path = record {
  project_id = spec.project_id;
  generation = spec.generation;
  template_version = spec.template_version;
  runtime_directory = path;
  compose_path = String.◌++◌ path "/compose.yaml";
  env_path = String.◌++◌ path "/.env";
}

-- The artifact that is returned after a publication, and the disk that it left
abbrev pub reported :
    RuntimeArtifactSpec
    → String
    → Disk
    → Outcome (Unit {0}) × List (String × Node)
    → Outcome RuntimeArtifact × Disk
reported spec path disk (r, generations') =
    let disk' = record disk { generations = generations' } in
    elim r [ raised e ↦ (raised e, disk') | returned _ ↦ (returned (artifact_of spec path), disk') ]

-- The publication, once the project's directory is there
unfoldable pub write_files :
    Run
    → RuntimeArtifactSpec
    → String
    → String
    → List (String × String)
    → Disk
    → Outcome RuntimeArtifact × Disk
write_files run spec path content env disk = reported spec path disk (
    publish_generation_atomically run (decimal spec.generation) content (serialize_env env)
      disk.generations)

unfoldable pub write_artifact :
    Run
    → RuntimeArtifactSpec
    → String
    → String
    → List (String × String)
    → Disk
    → Outcome RuntimeArtifact × Disk
write_artifact run spec path content env disk =
    let (r, disk') = ensure_private_project_directory disk in
    elim r [
      | raised e ↦ (raised e, disk')
      | returned _ ↦ write_files run spec path content env disk'
    ]

-- What `render` decides before it touches the disk: the template, the path and the values
unfoldable pub prepare :
    RuntimeArtifactWriter → RuntimeArtifactSpec → Outcome (String × String × List (String × String))
prepare writer spec = elim (template_of writer spec.template_version) [
  | raised e ↦ raised e
  | returned content ↦ elim (validate_spec writer.urlsplit spec writer.settings) [
    | some e ↦ raised e
    | none ↦ elim (runtime_directory writer spec.project_id spec.generation) [
      | raised e ↦ raised e
      | returned path ↦ elim (allowlisted_env writer.urlsplit spec writer.settings) [
        | raised e ↦ raised e
        | returned env ↦ returned (content, path, env)
      ]
    ]
  ]
]

unfoldable pub render :
    RuntimeArtifactWriter → Run → RuntimeArtifactSpec → Disk → Outcome RuntimeArtifact × Disk
render writer run spec disk = elim (prepare writer spec) [
  | raised e ↦ (raised e, disk)
  | returned (content, path, env) ↦ write_artifact run spec path content env disk
]

unfoldable pub runtime_artifact_metadata : RuntimeArtifact → JsonObject
runtime_artifact_metadata a =
    ("project_id", text a.project_id)
    ∷ ("generation", number a.generation)
    ∷ ("template_version", text a.template_version)
    ∷ ("compose_path", text a.compose_path)
    ∷ []
