-- ===== src/Projects/Environments.antt =====
-- create_environment, update_environment, delete_environment and update_settings.
use conductor_data_platform.Prelude.{
  String, Bool, true, not, ◌&&◌, Option, none, some, [], ◌∷◌, ◌++◌, if◌then◌else◌, ◌==◌, find_row,
  keep_rows, update_rows, any_row,
}
use conductor_data_platform.Models.{Db, User, Project, Environment, save_project}
use conductor_data_platform.Http.{Reply, answer, Query, ◌>>=◌, pure, or_http, commit, respond}
use conductor_data_platform.Projects.Guards.{
  project_of_admin, Field, unset, null, set, apply_field, server_error, ◌>>=?◌,
}

pub record EnvironmentCreate : Type 0 where
  pub name : String
  pub branch_name : String
  pub is_protected : Bool

abbrev pub new_environment_row : String → EnvironmentCreate → Project → Environment
new_environment_row id body project = record {
  id = id;
  project_id = project.id;
  name = body.name;
  branch_name = body.branch_name;
  is_protected = body.is_protected;
  is_active = true;
}

-- The unique constraint on project and name, among the rows with another id.
abbrev pub name_taken : Environment → Db → Bool
name_taken e db =
    any_row (λ r. not (r.id == e.id) && r.project_id == e.project_id && r.name == e.name)
      db.environments

-- The INSERT of a flush; a duplicate name is an IntegrityError.
abbrev pub insert_environment : Environment → Db → Reply Environment
insert_environment e db = if name_taken e db then server_error else answer e

unfoldable pub create_environment :
    String → String → EnvironmentCreate → User → Db → Reply Environment × Db
create_environment id slug body user =
    commit
      (project_of_admin slug user >>= λ project.
        insert_environment (new_environment_row id body project))
      (λ e db. record db { environments = db.environments ++ e ∷ [] })

pub record EnvironmentUpdate : Type 0 where
  pub name : Field String
  pub branch_name : Field String
  pub is_protected : Field Bool
  pub is_active : Field Bool

abbrev pub update_row : EnvironmentUpdate → Environment → Option Environment
update_row body e = apply_field body.name e.name >>=? λ name.
    apply_field body.branch_name e.branch_name >>=? λ branch_name.
    apply_field body.is_protected e.is_protected >>=? λ is_protected.
    apply_field body.is_active e.is_active >>=? λ is_active. some (record e {
      name = name;
      branch_name = branch_name;
      is_protected = is_protected;
      is_active = is_active;
    })

abbrev pub find_environment : String → String → Db → Option Environment
find_environment env_id project_id db =
    find_row (λ e. e.id == env_id && e.project_id == project_id) db.environments

unfoldable pub environment_of_admin : String → String → User → Query Environment
environment_of_admin slug env_id user = project_of_admin slug user >>= λ project.
    or_http (find_environment env_id project.id) 404 "Environment not found"

unfoldable pub update_environment :
    String → String → EnvironmentUpdate → User → Db → Reply Environment × Db
unfolding environment_of_admin
update_environment slug env_id body user =
    commit
      (environment_of_admin slug env_id user >>= λ e db. elim (update_row body e) [
        | none ↦ server_error
        | some e' ↦ insert_environment e' db
      ])
      (λ e' db. record db {
        environments = update_rows (λ r. r.id == e'.id) (λ _. e') db.environments;
      })

unfoldable pub delete_environment : String → String → User → Db → Reply (Unit {0}) × Db
unfolding environment_of_admin
delete_environment slug env_id user db =
    respond (λ _. tt)
      (commit (environment_of_admin slug env_id user)
        (λ e db. record db { environments = keep_rows (λ r. not (r.id == e.id)) db.environments })
        db)

-- The settings are one flag of the project's row.
unfoldable pub update_settings : String → Field Bool → User → Db → Reply Bool × Db
update_settings slug self_approve_enabled user db =
    respond (λ project. project.self_approve_enabled)
      (commit
        (project_of_admin slug user >>= λ project.
          or_http (λ _. apply_field self_approve_enabled project.self_approve_enabled) 500
            "Internal Server Error"
          >>= λ enabled. pure (record project { self_approve_enabled = enabled }))
        save_project db)

abbrev nullable : Field String → Option String → Option String
nullable unset old = old
nullable null old = none
nullable (set s) old = some s

-- PATCH of the name and the description, of which only the second may be null.
unfoldable pub update_project :
    String → Field String → Field String → User → Db → Reply Project × Db
update_project slug name description user =
    commit
      (project_of_admin slug user >>= λ project.
        or_http (λ _. apply_field name project.name) 500 "Internal Server Error" >>= λ new_name.
        pure (record project {
          name = new_name;
          description = nullable description project.description;
        }))
      save_project
