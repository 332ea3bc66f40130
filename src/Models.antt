-- ===== src/Models.antt =====
-- The ORM models (backend/app/models): enumerations, one record for each table, and the tables.
mod Enums
mod Rows
pub use Enums.*
pub use Rows.*
use conductor_data_platform.Prelude.{String, ◌==◌, ◌&&◌, Bool, Option, List, find_row, update_rows}

-- The tables that the modelled code reads or writes, rows in no meaningful order but the audit
-- log, to which the code only appends.
pub record Db : Type 0 where
  pub users : List User
  pub roles : List Role
  pub permissions : List Permission
  pub projects : List Project
  pub members : List ProjectMember
  pub environments : List Environment
  pub git_configs : List GitConfig
  pub deployments : List ProjectDeployment
  pub resources : List ProjectRuntimeResource
  pub jobs : List ProjectLifecycleJob
  pub grants : List ReauthGrant
  pub audit : List AuditEvent

-- Queries by a unique column, each `scalar_one_or_none`.
abbrev pub find_job : String → Db → Option ProjectLifecycleJob
find_job id db = find_row (λ j. j.id == id) db.jobs

abbrev pub find_project : String → Db → Option Project
find_project id db = find_row (λ p. p.id == id) db.projects

abbrev pub find_project_by_slug : String → Db → Option Project
find_project_by_slug slug db = find_row (λ p. p.slug == slug) db.projects

abbrev pub find_user : String → Db → Option User
find_user id db = find_row (λ u. u.id == id) db.users

abbrev pub find_user_by_email : String → Db → Option User
find_user_by_email email db = find_row (λ u. u.email == email) db.users

abbrev pub find_role : String → Db → Option Role
find_role id db = find_row (λ r. r.id == id) db.roles

abbrev pub find_role_by_name : String → Db → Option Role
find_role_by_name name db = find_row (λ r. r.name == name) db.roles

abbrev pub is_membership : String → String → ProjectMember → Bool
is_membership project user m = m.project_id == project && m.user_id == user

abbrev pub find_member : String → String → Db → Option ProjectMember
find_member project user db = find_row (is_membership project user) db.members

abbrev pub find_deployment : String → Db → Option ProjectDeployment
find_deployment project db = find_row (λ d. d.project_id == project) db.deployments

-- The UPDATE statements that a flush of a changed row sends.
abbrev pub save_job : ProjectLifecycleJob → Db → Db
save_job j db = record db { jobs = update_rows (λ r. r.id == j.id) (λ _. j) db.jobs }

abbrev pub save_project : Project → Db → Db
save_project p db = record db { projects = update_rows (λ r. r.id == p.id) (λ _. p) db.projects }
