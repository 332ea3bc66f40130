-- ===== src/Models/Rows.antt =====
-- One record for each table of backend/app/models. Timestamps are natural numbers of one unit;
-- columns that the modelled code never reads (`created_at` of most tables) are left out.
use conductor_data_platform.Prelude.{ℕ, String, Bool, Option, List}
use conductor_data_platform.Models.Enums.{
  ProjectLifecycleStatus, LifecycleOperation, LifecycleJobStatus, RuntimeResourceKind,
  ProvisionerKind,
}

-- The values that the code stores in JSON columns.
pub data Json : Type 0 where
  text : String → Json
  number : ℕ → Json
  texts : List (String × String) → Json

abbrev pub JsonObject : Type 0
JsonObject = List (String × Json)

pub record User : Type 0 where
  pub id : String
  pub email : String
  pub hashed_password : String
  pub display_name : String
  pub is_active : Bool
  pub is_admin : Bool

pub record Role : Type 0 where
  pub id : String
  pub name : String
  pub description : Option String
  pub is_system : Bool

pub record Permission : Type 0 where
  pub id : String
  pub role_id : String
  pub resource : String
  pub action : String
  pub constraint : Option String

pub record Project : Type 0 where
  pub id : String
  pub name : String
  pub slug : String
  pub description : Option String
  pub self_approve_enabled : Bool
  pub lifecycle_status : ProjectLifecycleStatus

pub record ProjectMember : Type 0 where
  pub project_id : String
  pub user_id : String
  pub role_id : String
  pub created_at : ℕ

pub record Environment : Type 0 where
  pub id : String
  pub project_id : String
  pub name : String
  pub branch_name : String
  pub is_protected : Bool
  pub is_active : Bool

pub record GitConfig : Type 0 where
  pub project_id : String
  pub repo_url : String
  pub auth_type : String
  pub credentials_encrypted : Option String
  pub default_branch : String
  pub dbt_path : String
  pub dags_path : String
  pub webhook_secret_encrypted : Option String

pub record ProjectDeployment : Type 0 where
  pub id : String
  pub project_id : String
  pub provisioner_kind : ProvisionerKind
  pub template_version : String
  pub generation : ℕ
  pub compose_project_name : String
  pub airflow_external_url : String
  pub airflow_db_name : String
  pub airflow_db_role : String
  pub airflow_db_password_encrypted : String
  pub airflow_admin_user : String
  pub airflow_admin_password_encrypted : String
  pub airflow_dev_user : String
  pub airflow_dev_password_encrypted : String
  pub airflow_viewer_user : String
  pub airflow_viewer_password_encrypted : String
  pub airflow_integration_user : String
  pub airflow_integration_password_encrypted : String
  pub parameters : JsonObject

pub record ProjectRuntimeResource : Type 0 where
  pub project_id : String
  pub generation : ℕ
  pub resource_kind : RuntimeResourceKind
  pub logical_name : String
  pub provider_id : Option String
  pub provider_name : Option String
  pub observed_status : String
  pub metadata_json : JsonObject
  pub deleted_at : Option ℕ

pub record ProjectLifecycleJob : Type 0 where
  pub id : String
  pub project_id : String
  pub operation : LifecycleOperation
  pub status : LifecycleJobStatus
  pub current_step : Option String
  pub attempt : ℕ
  pub max_attempts : ℕ
  pub available_at : ℕ
  pub locked_by : Option String
  pub lock_expires_at : Option ℕ
  pub heartbeat_at : Option ℕ
  pub idempotency_key : String
  pub request_fingerprint : String
  pub requested_by : Option String
  pub correlation_id : String
  pub error_code : Option String
  pub error_message : Option String
  pub created_at : ℕ
  pub started_at : Option ℕ
  pub finished_at : Option ℕ

pub record AuditEvent : Type 0 where
  pub event_type : String
  pub actor_user_id : Option String
  pub project_id_snapshot : String
  pub project_name_snapshot : String
  pub project_slug_snapshot : String
  pub correlation_id : String
  pub outcome : String
  pub metadata_json : JsonObject

pub record ReauthGrant : Type 0 where
  pub token_hash : String
  pub user_id : String
  pub action : String
  pub project_id : String
  pub expires_at : ℕ
  pub consumed_at : Option ℕ
  pub created_at : ℕ
