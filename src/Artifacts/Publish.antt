-- ===== src/Artifacts/Publish.antt =====
-- `_atomic_write` and `_publish_generation_atomically` of backend/app/services/runtime_artifacts.py.
--
-- A run has its random token, what other processes do to the project's directory before the final
-- rename, how the system reports a rename onto a directory that is not empty, and the call that fails, if
-- one does. Other processes leave the staging directory alone, whose name is random.
use Prim.Native.String
use conductor_data_platform.Prelude.{
  String, Bool, true, false, Option, none, some, List, [], ◌∷◌, if◌then◌else◌,
}
use conductor_data_platform.Outcome.{Outcome, returned, raised}
use conductor_data_platform.Artifacts.Disk.{
  File, regular, Node, folder, link, plain_file, get, remove, put, private_directory, private_file,
  reject_symlink, verify_existing_generation, Fault, os_error, mkdir_fails, compose_write_fails,
  env_write_fails, replace_fails, fsync_fails,
}

pub record Run : Type 0 where
  pub token : String
  pub others : List (String × Node) → List (String × Node)
  pub reports_exists : Bool
  pub fault : Fault

-- What `os.replace` of the staging directory does
pub data Replaced : Type 0 where
  moved occupied refused : Replaced

-- A directory takes the place of nothing or of an empty directory.
unfoldable pub replaces : Bool → Option Node → Replaced
replaces reports_exists none = moved
replaces reports_exists (some (folder m [])) = moved
replaces reports_exists (some (folder m (e ∷ es))) = if reports_exists then occupied else refused
replaces reports_exists (some link) = refused
replaces reports_exists (some plain_file) = refused

-- `f".{destination.name}.{token}.tmp"`
abbrev pub temporary_name : String → String → String
temporary_name token name =
    String.◌∷◌ "." (String.◌++◌ name (String.◌++◌ "." (String.◌++◌ token ".tmp")))

unfoldable pub atomic_write :
    Bool
    → String
    → String
    → String
    → List (String × File)
    → Outcome (Unit {0}) × List (String × File)
unfolding put
atomic_write true token name content entries =
    (raised os_error, remove (temporary_name token name) entries)
atomic_write false token name content entries =
    let temporary = temporary_name token name in
    let written = put temporary (regular private_file content) entries in
    (returned tt, put name (regular private_file content) (remove temporary written))

abbrev pub fails_compose : Fault → Bool
fails_compose compose_write_fails = true
fails_compose _ = false

abbrev pub fails_env : Fault → Bool
fails_env env_write_fails = true
fails_env _ = false

-- The files of the staging directory
unfoldable pub stage : Run → String → String → Outcome (List (String × File))
unfolding atomic_write
stage run compose env =
    let (r, files) = atomic_write (fails_compose run.fault) run.token "compose.yaml" compose [] in
    elim r [
      | raised e ↦ raised e
      | returned _ ↦
          let (r', files') = atomic_write (fails_env run.fault) run.token ".env" env files in
          elim r' [ raised e ↦ raised e | returned _ ↦ returned files' ]
    ]

-- `_verify_existing_generation`, with what it leaves under the name
abbrev pub verify_at :
    Fault
    → String
    → String
    → String
    → Option Node
    → List (String × Node)
    → Outcome (Unit {0}) × List (String × Node)
verify_at fault name compose env none entries = (raised os_error, entries)
verify_at fault name compose env (some node) entries =
    let (r, node') = verify_existing_generation fault compose env node in
    (r, put name node' entries)

-- The rename, and the handler of `FileExistsError`
unfoldable pub finish :
    Run
    → String
    → String
    → String
    → List (String × File)
    → Replaced
    → List (String × Node)
    → Outcome (Unit {0}) × List (String × Node)
unfolding put verify_existing_generation reject_symlink
finish run name compose env files moved entries =
    let entries' = put name (folder private_directory files) entries in
    elim run.fault [ fsync_fails ↦ (raised os_error, entries') | _ ↦ (returned tt, entries') ]
finish run name compose env files refused entries = (raised os_error, entries)
finish run name compose env files occupied entries = elim (reject_symlink (get name entries)) [
  | some e ↦ (raised e, entries)
  | none ↦ verify_at run.fault name compose env (get name entries) entries
]

abbrev pub fails_early : Fault → Bool
fails_early mkdir_fails = true
fails_early _ = false

abbrev pub fails_replace : Fault → Bool
fails_replace replace_fails = true
fails_replace _ = false

-- Nothing stands under the name: the staging directory is made, filled and renamed. It is gone in the end.
unfoldable pub publish_new :
    Run
    → String
    → String
    → String
    → List (String × Node)
    → Outcome (Unit {0}) × List (String × Node)
unfolding stage finish replaces
publish_new run name compose env entries =
    let entries' = run.others entries in
    if fails_early run.fault then (raised os_error, entries') else elim (stage run compose env) [
      | raised e ↦ (raised e, entries')
      | returned files ↦
          if fails_replace run.fault
          then (raised os_error, entries')
          else finish run name compose env files (replaces run.reports_exists (get name entries'))
              entries'
    ]

unfoldable pub publish_generation_atomically :
    Run
    → String
    → String
    → String
    → List (String × Node)
    → Outcome (Unit {0}) × List (String × Node)
unfolding publish_new verify_existing_generation reject_symlink get put
publish_generation_atomically run name compose env entries =
    elim (reject_symlink (get name entries)) [
      | some e ↦ (raised e, entries)
      | none ↦ elim (get name entries) [
        | none ↦ publish_new run name compose env entries
        | some node ↦ verify_at run.fault name compose env (some node) entries
      ]
    ]
