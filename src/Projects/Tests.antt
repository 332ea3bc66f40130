-- ===== src/Projects/Tests.antt =====
-- One project with two members, and the theorems there.
use conductor_data_platform.Prelude.{
  String, String-discrete, ◌≡◌, ◌≢◌, refl, true, false, Option, none, some, List, [], ◌∷◌, arith,
}
use conductor_data_platform.Models.{Db, User, Project, ProjectMember, GitConfig, ready}
use conductor_data_platform.Http.{answer, http}
use conductor_data_platform.Projects.Guards.{unset, set, project_of_admin, ensure_admin_access}
use conductor_data_platform.Projects.Members.{change_member_role, remove_member}
use conductor_data_platform.Projects.Git.{
  GitConfigUpdate, update_git_config, find_git_config, git_response, config_of,
}
use conductor_data_platform.Projects.Commands.{updating_settings, execute}
use conductor_data_platform.Projects.Authority.{IsProjectAdmin, execute-IsProjectAdmin}
use conductor_data_platform.Projects.Credentials.{IsConfigured, update_git_config-IsConfigured}
use conductor_data_platform.Projects.Environments.{update_settings}
use conductor_data_platform.Access.{load_ready_project_for_user}

abbrev user : String → User
user id = record {
  id = id;
  email = id;
  hashed_password = "h";
  display_name = id;
  is_active = true;
  is_admin = false;
}

abbrev sales : Project
sales = record {
  id = "p1";
  name = "Sales";
  slug = "sales";
  description = none;
  self_approve_enabled = false;
  lifecycle_status = ready;
}

abbrev membership : String → String → ProjectMember
membership user_id role_id = record {
  project_id = "p1";
  user_id = user_id;
  role_id = role_id;
  created_at = 1;
}

abbrev tables : List ProjectMember → Db
tables members = record {
  users = user "ada" ∷ user "bob" ∷ user "eve" ∷ [];
  roles =
      record { id = "project_admin"; name = "project_admin"; description = none; is_system = true }
      ∷ record { id = "viewer"; name = "viewer"; description = none; is_system = true }
      ∷ [];
  permissions = [];
  projects = sales ∷ [];
  members = members;
  environments = [];
  git_configs = [];
  deployments = [];
  resources = [];
  jobs = [];
  grants = [];
  audit = [];
}

abbrev two : Db
two = tables (membership "ada" "project_admin" ∷ membership "bob" "viewer" ∷ [])

abbrev url_parts : String → String × String
url_parts url = ("https", "example.org")

abbrev sealed : String → Option String
sealed s = some s

enabled :
    (execute url_parts sealed "sales" (user "ada") (updating_settings (set true)) two).projects
    ≡ record sales { self_approve_enabled = true } ∷ []
unfolding execute update_settings project_of_admin load_ready_project_for_user String-discrete
    ensure_admin_access
enabled = refl

changes : execute url_parts sealed "sales" (user "ada") (updating_settings (set true)) two ≢ two
changes e = ground (arith, enabled)

execute-IsProjectAdmin_example : IsProjectAdmin "sales" (user "ada") two
execute-IsProjectAdmin_example =
    execute-IsProjectAdmin url_parts sealed "sales" (user "ada") (updating_settings (set true)) two
      changes

-- The last administrator is not removed, but may be given another role.
last_admin_stays :
    (remove_member "sales" "ada" (user "ada") two).0
    ≡ http 400 "Cannot remove the last project admin"
unfolding remove_member project_of_admin load_ready_project_for_user String-discrete
    ensure_admin_access
last_admin_stays = refl

last_admin_is_demoted :
    (change_member_role "sales" "ada" "viewer" (user "ada") two).1
    ≡ tables (membership "ada" "viewer" ∷ membership "bob" "viewer" ∷ [])
unfolding change_member_role project_of_admin load_ready_project_for_user String-discrete
    ensure_admin_access
last_admin_is_demoted = refl

abbrev by_token : GitConfigUpdate
by_token = record {
  repo_url = some "https://example.org/r.git";
  auth_type = some "token";
  token = some "t";
  credentials = none;
  default_branch = unset;
  dbt_path = set "models/";
  dags_path = unset;
  webhook_secret = none;
}

abbrev stored_config : GitConfig
stored_config = record {
  project_id = "p1";
  repo_url = "https://example.org/r.git";
  auth_type = "token";
  credentials_encrypted = some "t";
  default_branch = "main";
  dbt_path = "models/";
  dags_path = "dags/";
  webhook_secret_encrypted = none;
}

is_updated :
    update_git_config url_parts sealed "sales" by_token (user "ada") two
    ≡ (answer (git_response stored_config), record two { git_configs = stored_config ∷ [] })
unfolding update_git_config project_of_admin load_ready_project_for_user String-discrete
    ensure_admin_access
is_updated = refl

update_git_config-IsConfigured_example :
    (p : Project) × (new : GitConfig) × (project_of_admin "sales" (user "ada") two ≡ answer p)
    × (find_git_config p.id (record two { git_configs = stored_config ∷ [] }) ≡ some new)
    × (git_response stored_config ≡ git_response new)
    × IsConfigured url_parts sealed by_token (config_of url_parts sealed p.id two) new
update_git_config-IsConfigured_example =
    update_git_config-IsConfigured url_parts sealed "sales" by_token (user "ada") two
      (record two { git_configs = stored_config ∷ [] }) (git_response stored_config) is_updated
