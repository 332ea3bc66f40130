-- ===== src/Access/Context.antt =====
-- The Airflow account of a role (services/airflow_role.py) and the context of one authorised Airflow
-- operation (services/project_airflow_context.py).
use Prim.Native.String.{String, ◌++◌}
use conductor_data_platform.Prelude.{ℕ, not, Option, if◌then◌else◌, ◌==◌, find_row}
use conductor_data_platform.Models.{Db, User, Role, find_member, find_deployment}
use conductor_data_platform.Http.{Query, pure, refuse_if, or_http, ◌>>=◌, ◌>>◌}
use conductor_data_platform.Access.Guards.{check_permission, load_ready_project_for_user}

pub record ProjectAirflowContext : Type 0 where
  pub project_id : String
  pub deployment_id : String
  pub deployment_generation : ℕ
  pub airflow_base_url : String
  pub account_key : String

-- ROLE_ACCOUNT_MAP.get(role_name, "viewer")
unfoldable pub resolve_airflow_account : String → String
resolve_airflow_account role_name =
    if role_name == "super_admin"
    then "admin"
    else if role_name == "project_admin"
    then "admin"
    else if role_name == "maintainer"
    then "dev"
    else if role_name == "developer"
    then "dev"
    else "viewer"

-- `member.role`; the foreign key to a missing role cannot occur, and is a 500 here.
abbrev pub find_role : String → Db → Option Role
find_role id db = find_row (λ r. r.id == id) db.roles

unfoldable pub resolve_project_airflow_context :
    String → User → String → String → Query ProjectAirflowContext
resolve_project_airflow_context slug user resource action = do
  project ← load_ready_project_for_user slug user
  member ← or_http (find_member project.id user.id) 403 "Access denied"
  λ db.
      (do
        refuse_if (not (check_permission user project.id resource action db)) 403 "Access denied"
        deployment ← or_http (find_deployment project.id) 404 "Airflow not provisioned"
        role ← or_http (find_role member.role_id) 500 "Internal Server Error"
        pure (record {
          project_id = project.id;
          deployment_id = deployment.id;
          deployment_generation = deployment.generation;
          airflow_base_url = ("http://airflow-" ++ project.id) ++ ":8080";
          account_key = resolve_airflow_account role.name;
        }))
        db
