-- ===== src/Artifacts/Rendered.antt =====
-- What a rendering that returns has checked and written.
use conductor_data_platform.Prelude.{
  ℕ, Bool, ◌&&◌, leb, ◌==◌, Option, ◌≤◌, String, true, false, none, some, List, [], ◌∷◌, ◌≡◌, refl,
  arith, Bool-cases, inl, inr, All, length,
}
use Prim.Native.String
use conductor_data_platform.Models.{JsonObject}
use conductor_data_platform.Lifecycle.{Raised}
use conductor_data_platform.Lifecycle.Identity.{is_hex_text}
use conductor_data_platform.Lifecycle.Transitions.{validate_runtime_parameters}
use conductor_data_platform.Outcome.{Outcome, returned, raised}
use conductor_data_platform.Artifacts.Spec.{
  must, ◌and_then◌, RuntimeArtifactSpec, WriterSettings, is_slug, is_network_name,
  is_image_reference, is_hostname,
}
use conductor_data_platform.Artifacts.Quote.{decimal}
use conductor_data_platform.Artifacts.Validate.{
  validate_fields, validate_spec, validate_values, is_env_value, allowlisted_env, env_of,
  airflow_external_host,
}
use conductor_data_platform.Artifacts.EnvFile.{serialize_env}
use conductor_data_platform.Artifacts.Disk.{
  Node, directory, get, private_directory, open_private_directory, open_private_runtime_root,
  open_private_child_directory,
}
use conductor_data_platform.Artifacts.Publish.{Run, publish_generation_atomically}
use conductor_data_platform.Artifacts.Verified.{IsPrivate}
use conductor_data_platform.Artifacts.Staged.{seen, IsSettled}
use conductor_data_platform.Artifacts.Atomic.{publish_generation_atomically-IsSettled}
use conductor_data_platform.Artifacts.Writer.{
  RuntimeArtifact, RuntimeArtifactWriter, Disk, template_of, ensure_private_project_directory,
  artifact_of, reported, write_files, write_artifact, prepare, render,
}

abbrev pub AreEnvValues : List (String × String) → Type 0
AreEnvValues = All (λ (entry : String × String). is_env_value entry.1 ≡ true)

validate_values-AreEnvValues :
    (values : List (String × String)) → validate_values values ≡ none → AreEnvValues values
unfolding validate_values
validate_values-AreEnvValues [] h = tt
validate_values-AreEnvValues ((name, value) ∷ values) h = elim (Bool-cases (is_env_value value)) [
  | inl fits ↦ (fits, validate_values-AreEnvValues values (ground arith))
  | inr fails ↦ absurd (ground arith)
]

-- The fields of a valid spec, and of valid settings
abbrev pub IsValid : RuntimeArtifactSpec → WriterSettings → Type 0
IsValid spec w =
    (is_hex_text 32 spec.project_id ≡ true)
    × (1 ≤ spec.generation)
    × (spec.parameters ≡ [])
    × (spec.compose_project_name ≡ String.◌++◌ "conductor-p-" spec.project_id)
    × (spec.airflow_db_name ≡ String.◌++◌ "conductor_airflow_" spec.project_id)
    × (spec.airflow_db_role ≡ String.◌++◌ "conductor_airflow_" spec.project_id)
    × (is_slug spec.project_slug ≡ true)
    × (is_network_name w.runtime_ingress_network ≡ true)
    × (is_image_reference w.airflow_image ≡ true)
    × (is_hostname w.airflow_database_host ≡ true)
    × (1 ≤ w.airflow_database_port)
    × (w.airflow_database_port ≤ 65535)

no_parameters : (p : JsonObject) → validate_runtime_parameters p ≡ none → p ≡ []
unfolding validate_runtime_parameters
no_parameters [] h = refl
no_parameters (x ∷ xs) h = absurd (cc)

both_pass : (a b : Option Raised) → (a and_then b) ≡ none → (a ≡ none) × (b ≡ none)
both_pass none b h = (refl, h)
both_pass (some e) b h = absurd (cc)

must_pass : (b : Bool) (message : String) → must b message ≡ none → b ≡ true
must_pass true message h = refl
must_pass false message h = absurd (cc)

both_true : (a b : Bool) → (a && b) ≡ true → (a ≡ true) × (b ≡ true)
both_true a b h = (ground arith, ground arith)

at_most : (m n : ℕ) → leb m n ≡ true → m ≤ n
at_most m n h = ground arith

same_text : (a b : String) → (a == b) ≡ true → a ≡ b
same_text a b h = ground arith

-- What a rendering returns on
abbrev pub IsPrepared :
    RuntimeArtifactWriter → RuntimeArtifactSpec → String → List (String × String) → Type 0
IsPrepared writer spec content env =
    (template_of writer spec.template_version ≡ returned content)
    × IsValid spec writer.settings
    × ((host : String) × (airflow_external_host writer.urlsplit spec.airflow_external_url
          ≡ returned host)
        × (env ≡ env_of spec writer.settings host))
    × AreEnvValues env

module _ (writer : RuntimeArtifactWriter) (spec : RuntimeArtifactSpec) where
  allowlisted_env-returned :
      (env : List (String × String))
      → allowlisted_env writer.urlsplit spec writer.settings ≡ returned env
      → (host : String) × (airflow_external_host writer.urlsplit spec.airflow_external_url
          ≡ returned host)
        × (env ≡ env_of spec writer.settings host)
  unfolding allowlisted_env
  allowlisted_env-returned env h =
      go (airflow_external_host writer.urlsplit spec.airflow_external_url) refl h
    where
      go :
          (o : Outcome String)
          → airflow_external_host writer.urlsplit spec.airflow_external_url ≡ o
          → (elim o as (λ _. Outcome (List (String × String))) [
            | raised e ↦ raised e
            | returned host ↦ returned (env_of spec writer.settings host)
          ])
            ≡ returned env
          → (host : String) × (airflow_external_host writer.urlsplit spec.airflow_external_url
              ≡ returned host)
            × (env ≡ env_of spec writer.settings host)
      go (raised e) same h = absurd (cc)
      go (returned host) same h = (host, same, cc)

  validate_spec-values :
      (env : List (String × String))
      → validate_spec writer.urlsplit spec writer.settings ≡ none
      → allowlisted_env writer.urlsplit spec writer.settings ≡ returned env
      → validate_values env ≡ none
  unfolding validate_spec
  validate_spec-values env h e = ground arith

  validate_spec-IsValid :
      validate_spec writer.urlsplit spec writer.settings ≡ none → IsValid spec writer.settings
  unfolding validate_spec validate_fields
  validate_spec-IsValid h =
      let (fields, _) = both_pass _ _ h in
      let (id, h1) = both_pass _ _ fields in
      let (generation, h2) = both_pass _ _ h1 in
      let (parameters, h3) = both_pass _ _ h2 in
      let (compose, h4) = both_pass _ _ h3 in
      let (database, h5) = both_pass _ _ h4 in
      let (slug, h6) = both_pass _ _ h5 in
      let (_, h7) = both_pass _ _ h6 in
      let (network, h8) = both_pass _ _ h7 in
      let (image, h9) = both_pass _ _ h8 in
      let (host, port) = both_pass _ _ h9 in
      let (name, role) = both_true _ _ (must_pass _ _ database) in
      let (low, high) = both_true _ _ (must_pass _ _ port) in
      (
        must_pass _ _ id,
        at_most _ _ (must_pass _ _ generation),
        no_parameters spec.parameters parameters,
        same_text _ _ (must_pass _ _ compose),
        same_text _ _ name,
        same_text _ _ role,
        must_pass _ _ slug,
        must_pass _ _ network,
        must_pass _ _ image,
        must_pass _ _ host,
        at_most _ _ low,
        at_most _ _ high,
      )

  prepare-returned :
      (content path : String) (env : List (String × String))
      → prepare writer spec ≡ returned (content, path, env)
      → (template_of writer spec.template_version ≡ returned content)
        × (validate_spec writer.urlsplit spec writer.settings ≡ none)
        × (allowlisted_env writer.urlsplit spec writer.settings ≡ returned env)
  unfolding prepare
  prepare-returned content path env h = (ground arith, ground arith, ground arith)

  prepare-IsPrepared :
      (content path : String) (env : List (String × String))
      → prepare writer spec ≡ returned (content, path, env)
      → IsPrepared writer spec content env
  prepare-IsPrepared content path env h =
      let (found, valid, listed) = prepare-returned content path env h in
      let (host, parsed, same) = allowlisted_env-returned env listed in
      (
        found,
        validate_spec-IsValid valid,
        (host, parsed, same),
        validate_values-AreEnvValues env (validate_spec-values env valid listed),
      )

  ensure_private_project_directory-returned :
      (disk : Disk)
      → (ensure_private_project_directory disk).0 ≡ returned tt
      → ((ensure_private_project_directory disk).1.root ≡ some (directory private_directory))
        × ((ensure_private_project_directory disk).1.project ≡ some (directory private_directory))
  unfolding ensure_private_project_directory open_private_runtime_root open_private_child_directory
      open_private_directory
  ensure_private_project_directory-returned disk h = (ground arith, ground arith)

  -- The artifact of the spec is returned, its files are there and its directories are private.
  abbrev pub IsWritten : String → List (String × String) → RuntimeArtifact → Disk → Type 0
  IsWritten content env a disk =
      ((path : String) × (a ≡ artifact_of spec path))
      × IsPrivate content (serialize_env env) (get (decimal spec.generation) disk.generations)
      × (disk.root ≡ some (directory private_directory))
      × (disk.project ≡ some (directory private_directory))

  reported-IsWritten :
      (run : Run) (path content : String) (env : List (String × String)) (disk : Disk)
      (a : RuntimeArtifact) (o : Outcome (Unit {0}) × List (String × Node))
      → IsSettled
          (decimal spec.generation)
          content
          (serialize_env env)
          (seen run (decimal spec.generation) disk.generations)
          o
      → disk.root ≡ some (directory private_directory)
      → disk.project ≡ some (directory private_directory)
      → (reported spec path disk o).0 ≡ returned a
      → IsWritten content env a (reported spec path disk o).1
  reported-IsWritten run path content env disk a (raised e, after) s p q h = absurd (cc)
  reported-IsWritten run path content env disk a (returned x, after) (inl (r, private, v)) p q h =
      ((path, cc), private, p, q)
  reported-IsWritten run path content env disk a (returned x, after) (inr (inl (e, r, v))) p q h =
      absurd (cc)
  reported-IsWritten run path content env disk a (returned x, after) (inr (inr (e, r, v, w))) p q
        h =
      absurd (cc)

  write_artifact-IsWritten :
      (run : Run) (path content : String) (env : List (String × String)) (disk : Disk)
      (a : RuntimeArtifact)
      → (write_artifact run spec path content env disk).0 ≡ returned a
      → IsWritten content env a (write_artifact run spec path content env disk).1
  unfolding write_artifact write_files
  write_artifact-IsWritten run path content env disk a h =
      go (ensure_private_project_directory disk).0 refl h
    where
      disk' : Disk
      disk' = (ensure_private_project_directory disk).1

      go :
          (r : Outcome (Unit {0}))
          → (ensure_private_project_directory disk).0 ≡ r
          → (elim r as (λ _. Outcome RuntimeArtifact × Disk) [
            | raised e ↦ (raised e, disk')
            | returned _ ↦ write_files run spec path content env disk'
          ]).0
            ≡ returned a
          → IsWritten content env a
              (elim r as (λ _. Outcome RuntimeArtifact × Disk) [
                | raised e ↦ (raised e, disk')
                | returned _ ↦ write_files run spec path content env disk'
              ]).1
      go (raised e) same h = absurd (cc)
      go (returned x) same h =
          let (p, q) = ensure_private_project_directory-returned disk same in
          reported-IsWritten run path content env disk' a
            (publish_generation_atomically run (decimal spec.generation) content (serialize_env env)
              disk'.generations)
            (publish_generation_atomically-IsSettled (decimal spec.generation) content
              (serialize_env env) run disk'.generations)
            p q h

  -- A rendering that returns an artifact has a template of the allow-list and a valid spec: its project id is
  -- 32 hexadecimal digits, the names of its runtime are derived from it, generation and port are in range,
  -- the parameters are empty, and slug, network, image and host are well-formed. It has left, in private
  -- directories, a private compose.yaml with the bytes of the installed template and a private .env, the
  -- serialization of the 21 allow-listed variables of the spec, whose values are not empty and of one line.
  pub render-IsWritten :
      (run : Run) (disk : Disk) (a : RuntimeArtifact)
      → (render writer run spec disk).0 ≡ returned a
      → (content : String) × (env : List (String × String)) × IsPrepared writer spec content env
        × (length env ≡ 21)
        × IsWritten content env a (render writer run spec disk).1
  unfolding render
  render-IsWritten run disk a h = go (prepare writer spec) refl h
    where
      Prepared : Type 0
      Prepared = Outcome (String × String × List (String × String))

      go :
          (o : Prepared)
          → prepare writer spec ≡ o
          → (elim o as (λ _. Outcome RuntimeArtifact × Disk) [
            | raised e ↦ (raised e, disk)
            | returned (content, path, env) ↦ write_artifact run spec path content env disk
          ]).0
            ≡ returned a
          → (content : String) × (env : List (String × String)) × IsPrepared writer spec content env
            × (length env ≡ 21)
            × IsWritten content env a
                (elim o as (λ _. Outcome RuntimeArtifact × Disk) [
                  | raised e ↦ (raised e, disk)
                  | returned (content, path, env) ↦ write_artifact run spec path content env disk
                ]).1
      go (raised e) same h = absurd (cc)
      go (returned (content, path, env)) same h =
          let prepared = prepare-IsPrepared content path env same in
          let (found, valid, (host, parsed, listed), values) = prepared in
          (
            content,
            env,
            prepared,
            rw listed refl,
            write_artifact-IsWritten run path content env disk a h,
          )
