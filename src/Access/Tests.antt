-- ===== src/Access/Tests.antt =====
-- The guards and patterns at concrete users, and the theorems there.
use conductor_data_platform.Prelude.{
  String, String-discrete, ◌≡◌, ◌↔◌, refl, ◌⊎◌, true, false, none, [], ◌∷◌,
}
use conductor_data_platform.Models.{Db, User, Project, ProjectDeployment, ready, docker_compose}
use conductor_data_platform.Http.{answer}
use conductor_data_platform.Access.Patterns.{match_resource, match_action, match_pattern}
use conductor_data_platform.Access.Guards.{check_permission, load_ready_project_for_user}
use conductor_data_platform.Access.Context.{
  ProjectAirflowContext, resolve_airflow_account, resolve_project_airflow_context,
}
use conductor_data_platform.Access.Sound.{IsGranted, check_permission_iff}

abbrev ada : User
ada = record {
  id = "u1";
  email = "ada@example.org";
  hashed_password = "h";
  display_name = "Ada";
  is_active = true;
  is_admin = false;
}

abbrev sales : Project
sales = record {
  id = "p1";
  name = "Sales";
  slug = "sales";
  description = none;
  self_approve_enabled = false;
  lifecycle_status = ready;
}

abbrev deployment : ProjectDeployment
deployment = record {
  id = "d1";
  project_id = "p1";
  provisioner_kind = docker_compose;
  template_version = "v1";
  generation = 1;
  compose_project_name = "conductor-p-p1";
  airflow_external_url = "https://sales.airflow.localhost";
  airflow_db_name = "conductor_airflow_p1";
  airflow_db_role = "conductor_airflow_p1";
  airflow_db_password_encrypted = "e";
  airflow_admin_user = "admin";
  airflow_admin_password_encrypted = "e";
  airflow_dev_user = "dev";
  airflow_dev_password_encrypted = "e";
  airflow_viewer_user = "viewer";
  airflow_viewer_password_encrypted = "e";
  airflow_integration_user = "integration";
  airflow_integration_password_encrypted = "e";
  parameters = [];
}

-- The seeded rows of two roles, and one member.
abbrev tables : String → Db
tables role = record {
  users = ada ∷ [];
  roles =
      record { id = "project_admin"; name = "project_admin"; description = none; is_system = true }
      ∷ record { id = "developer"; name = "developer"; description = none; is_system = true }
      ∷ [];
  permissions =
      record {
        id = "g1";
        role_id = "project_admin";
        resource = "project.*";
        action = "admin";
        constraint = none;
      }
      ∷ record {
        id = "g2";
        role_id = "developer";
        resource = "project.dag.view";
        action = "read";
        constraint = none;
      }
      ∷ record {
        id = "g3";
        role_id = "developer";
        resource = "project.git.branch.*";
        action = "write";
        constraint = none;
      }
      ∷ [];
  projects = sales ∷ [];
  members = record { project_id = "p1"; user_id = "u1"; role_id = role; created_at = 1 } ∷ [];
  environments = [];
  git_configs = [];
  deployments = deployment ∷ [];
  resources = [];
  jobs = [];
  grants = [];
  audit = [];
}

branch_matches : match_resource "project.git.branch.*" "project.git.branch.write" ≡ true
unfolding match_resource String-discrete match_pattern
branch_matches = refl

-- A developer may view the DAGs; a project admin, whose only pattern is `project.*`, may not.
developer_views : check_permission ada "p1" "project.dag.view" "read" (tables "developer") ≡ true
unfolding check_permission String-discrete match_resource match_pattern match_action
developer_views = refl

project_admin_is_refused :
    check_permission ada "p1" "project.dag.view" "read" (tables "project_admin") ≡ false
unfolding check_permission String-discrete match_resource match_pattern
project_admin_is_refused = refl

check_permission_iff_example :
    (check_permission ada "p1" "project.dag.view" "read" (tables "developer") ≡ true)
    ↔ ((ada.is_admin ≡ true) ⊎ IsGranted ada "p1" "project.dag.view" "read" (tables "developer"))
check_permission_iff_example =
    check_permission_iff ada "p1" "project.dag.view" "read" (tables "developer")

loads : load_ready_project_for_user "sales" ada (tables "developer") ≡ answer sales
unfolding load_ready_project_for_user String-discrete
loads = refl

abbrev context : ProjectAirflowContext
context = record {
  project_id = "p1";
  deployment_id = "d1";
  deployment_generation = 1;
  airflow_base_url = "http://airflow-p1:8080";
  account_key = "dev";
}

resolves :
    resolve_project_airflow_context "sales" ada "project.dag.view" "read" (tables "developer")
    ≡ answer context
unfolding resolve_project_airflow_context String-discrete load_ready_project_for_user
    check_permission match_resource match_pattern match_action resolve_airflow_account
resolves = refl
