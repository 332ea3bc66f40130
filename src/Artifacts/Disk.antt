-- ===== src/Artifacts/Disk.antt =====
-- The file system calls of backend/app/services/runtime_artifacts.py on the runtime root, a project's
-- directory below it and the generations in that.
use conductor_data_platform.Prelude.{
  ℕ, String, ◌&&◌, Option, none, some, List, [], ◌∷◌, if◌then◌else◌, ◌==◌,
}
use conductor_data_platform.Lifecycle.{Raised, value_error, other}
use conductor_data_platform.Outcome.{Outcome, returned, raised}

-- What a path inside a generation stands for. A content is the text that the bytes encode.
pub data File : Type 0 where
  regular : ℕ → String → File
  file_link special_file : File

-- What a path inside a project's directory stands for. Numbers are modes.
pub data Node : Type 0 where
  folder : ℕ → List (String × File) → Node
  link plain_file : Node

-- What a path above that stands for
pub data Place : Type 0 where
  directory : ℕ → Place
  place_link other_place : Place

module _ {A : Type 0} where
  unfoldable pub get : String → List (String × A) → Option A
  get name [] = none
  get name ((n, a) ∷ rest) = if n == name then some a else get name rest

  unfoldable pub remove : String → List (String × A) → List (String × A)
  remove name [] = []
  remove name ((n, a) ∷ rest) =
      let others = remove name rest in if n == name then others else (n, a) ∷ others

  unfoldable pub put : String → A → List (String × A) → List (String × A)
  unfolding remove
  put name a entries = (name, a) ∷ remove name entries

-- 0o700 and 0o600
abbrev pub private_directory : ℕ
private_directory = 448

abbrev pub private_file : ℕ
private_file = 384

-- `_open_private_directory` on what a path stands for, with the mode that it sets
unfoldable pub open_private_directory : Option Place → Outcome (Unit {0}) × Option Place
open_private_directory (some (directory m)) = (returned tt, some (directory private_directory))
open_private_directory p =
    (raised (value_error "Runtime artifact path component must not be a symlink"), p)

unfoldable pub open_private_runtime_root : Option Place → Outcome (Unit {0}) × Option Place
unfolding open_private_directory
open_private_runtime_root none = open_private_directory (some (directory private_directory))
open_private_runtime_root (some place_link) =
    (raised (value_error "CONDUCTOR_RUNTIME_ROOT must not be a symlink"), some place_link)
open_private_runtime_root (some other_place) =
    (raised (value_error "CONDUCTOR_RUNTIME_ROOT must be a directory"), some other_place)
open_private_runtime_root (some (directory m)) = open_private_directory (some (directory m))

unfoldable pub open_private_child_directory : Option Place → Outcome (Unit {0}) × Option Place
unfolding open_private_directory
open_private_child_directory none = open_private_directory (some (directory private_directory))
open_private_child_directory (some place_link) =
    (raised (value_error "Runtime artifact path component must not be a symlink"), some place_link)
open_private_child_directory (some other_place) =
    (raised (value_error "Runtime artifact path component must be a directory"), some other_place)
open_private_child_directory (some (directory m)) = open_private_directory (some (directory m))

-- `_reject_symlink`
unfoldable pub reject_symlink : Option Node → Option Raised
reject_symlink (some link) = some (value_error "Runtime artifact generation must not be a symlink")
reject_symlink _ = none

-- `_open_existing_regular_file` and `_read_file_descriptor`
unfoldable pub read_existing_regular_file : Option File → Outcome String
read_existing_regular_file none = raised (value_error "Runtime artifact generation is incomplete")
read_existing_regular_file (some file_link) =
    raised (value_error "Runtime artifact file must not be a symlink")
read_existing_regular_file (some special_file) =
    raised (value_error "Runtime artifact file must be a regular file")
read_existing_regular_file (some (regular m content)) = returned content

abbrev pub set_private : String → String → List (String × File) → List (String × File)
set_private name content entries = put name (regular private_file content) entries

-- The call that fails in a publication, if one does. The last three set the modes of an existing
-- generation.
pub data Fault : Type 0 where
  no_fault mkdir_fails compose_write_fails env_write_fails replace_fails fsync_fails : Fault
  chmod_fails compose_fchmod_fails env_fchmod_fails : Fault

abbrev pub os_error : Raised
os_error = other "OSError"

-- The modes of the directory, of compose.yaml and of .env are set one after the other.
unfoldable pub set_modes :
    Fault → String → String → ℕ → List (String × File) → Outcome (Unit {0}) × Node
set_modes chmod_fails compose env m entries = (raised os_error, folder m entries)
set_modes compose_fchmod_fails compose env m entries =
    (raised os_error, folder private_directory entries)
set_modes env_fchmod_fails compose env m entries =
    (raised os_error, folder private_directory (set_private "compose.yaml" compose entries))
set_modes _ compose env m entries = (
  returned tt,
  folder private_directory (set_private ".env" env (set_private "compose.yaml" compose entries)),
)

-- `_verify_existing_generation` on a path that stands for something
unfoldable pub verify_existing_generation :
    Fault → String → String → Node → Outcome (Unit {0}) × Node
unfolding put read_existing_regular_file set_modes
verify_existing_generation fault compose env link =
    (raised (value_error "Runtime artifact generation must not be a symlink"), link)
verify_existing_generation fault compose env plain_file =
    (raised (other "NotADirectoryError"), plain_file)
verify_existing_generation fault compose env (folder m entries) =
    elim (read_existing_regular_file (get "compose.yaml" entries)) [
      | raised e ↦ (raised e, folder m entries)
      | returned found_compose ↦ elim (read_existing_regular_file (get ".env" entries)) [
        | raised e ↦ (raised e, folder m entries)
        | returned found_env ↦
            if found_compose == compose && found_env == env
            then set_modes fault compose env m entries
            else (
              raised (value_error "Runtime generation already exists with different artifacts"),
              folder m entries,
            )
      ]
    ]
