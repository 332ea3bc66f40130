-- ===== src/Operations/Create.antt =====
-- create_project_operation and the endpoint create_project.
--
-- SHA-256 (`sha256`), the encryption of services/crypto.py (`encrypt`, whose `none` is the
-- CredentialsEncryptionNotConfigured of encrypt_token) and the random values are arguments. The request
-- runs against the tables of its flushes; after a rollback the queries read those same tables.
use conductor_data_platform.Prelude.{
  ℕ, String, Bool, true, false, Option, none, some, List, [], ◌∷◌, ◌++◌, if◌then◌else◌, ◌==◌,
}
use conductor_data_platform.Models.{
  Db, Project, User, Environment, ProjectMember, ProjectDeployment, ProjectLifecycleJob,
  find_project, find_project_by_slug, find_role_by_name, provisioning, provision, docker_compose,
  text,
}
use conductor_data_platform.Lifecycle.Identity.{RuntimeIdentity, derive_runtime_identity}
use conductor_data_platform.Operations.Fingerprint.{project_create_fingerprint}
use conductor_data_platform.Operations.Tables.{
  insert_project, insert_job, find_job_by_key, add_audit, new_job, requested_event,
}

infixl 5 ◌>>=◌
abbrev ◌>>=◌ : {A B : Type 0} → Option A → (A → Option B) → Option B
none >>= f = none
some a >>= f = f a

-- What create_project_operation returns, and the exceptions that leave it.
pub data Created : Type 0 where
  created : Project → ProjectLifecycleJob → Created
  idempotency_key_conflict duplicate_project_slug integrity_error credentials_not_configured :
      Created
  value_error runtime_error : String → Created

pub record CreateRequest : Type 0 where
  pub name : String
  pub slug : String
  pub description : Option String
  pub requested_by : User
  pub idempotency_key : String

-- The generated ids, credentials and times of one request.
pub record Generated : Type 0 where
  pub project_id : String
  pub production_id : String
  pub development_id : String
  pub deployment_id : String
  pub operation_id : String
  pub correlation_id : String
  pub db_password : String
  pub admin_password : String
  pub dev_password : String
  pub viewer_password : String
  pub integration_password : String
  pub now : ℕ

abbrev pub new_project : Generated → CreateRequest → Project
new_project g r = record {
  id = g.project_id;
  name = r.name;
  slug = r.slug;
  description = r.description;
  self_approve_enabled = false;
  lifecycle_status = provisioning;
}

abbrev pub new_environment : String → String → String → String → Bool → Environment
new_environment id project_id name branch_name is_protected = record {
  id = id;
  project_id = project_id;
  name = name;
  branch_name = branch_name;
  is_protected = is_protected;
  is_active = true;
}

abbrev pub default_environments : Generated → List Environment
default_environments g =
    new_environment g.production_id g.project_id "production" "main" true
    ∷ new_environment g.development_id g.project_id "development" "develop" false
    ∷ []

abbrev pub first_member : Generated → CreateRequest → String → ProjectMember
first_member g r role_id = record {
  project_id = g.project_id;
  user_id = r.requested_by.id;
  role_id = role_id;
  created_at = g.now;
}

module _ (sha256 : String → String) (encrypt : String → Option String)
    (airflow_domain : String) where
  abbrev pub fingerprint_of : CreateRequest → String
  fingerprint_of r = project_create_fingerprint sha256 r.name r.slug r.description r.requested_by.id

  -- The deployment with its five credentials, each encrypted.
  unfoldable pub new_deployment : Generated → RuntimeIdentity → Option ProjectDeployment
  new_deployment g identity = do
    db_password ← encrypt g.db_password
    admin_password ← encrypt g.admin_password
    dev_password ← encrypt g.dev_password
    viewer_password ← encrypt g.viewer_password
    integration_password ← encrypt g.integration_password
    some (record {
      id = g.deployment_id;
      project_id = g.project_id;
      provisioner_kind = docker_compose;
      template_version = "v1";
      generation = 1;
      compose_project_name = identity.compose_project_name;
      airflow_external_url = identity.airflow_external_url;
      airflow_db_name = identity.airflow_db_name;
      airflow_db_role = identity.airflow_db_role;
      airflow_db_password_encrypted = db_password;
      airflow_admin_user = "admin";
      airflow_admin_password_encrypted = admin_password;
      airflow_dev_user = "dev";
      airflow_dev_password_encrypted = dev_password;
      airflow_viewer_user = "viewer";
      airflow_viewer_password_encrypted = viewer_password;
      airflow_integration_user = "integration";
      airflow_integration_password_encrypted = integration_password;
      parameters = [];
    })

  abbrev pub new_operation : Generated → CreateRequest → ProjectLifecycleJob
  new_operation g r =
      new_job g.operation_id g.project_id provision 5 g.now r.idempotency_key (fingerprint_of r)
        r.requested_by.id g.correlation_id

  -- The rows beside project and operation, and the audit event.
  abbrev pub add_rows : Generated → CreateRequest → String → ProjectDeployment → Db → Db
  add_rows g r role_id deployment db = record db {
    environments = db.environments ++ default_environments g;
    members = db.members ++ first_member g r role_id ∷ [];
    deployments = db.deployments ++ deployment ∷ [];
  }

  -- The `try` block: `none` is an IntegrityError of one of its flushes.
  unfoldable pub attempt_create : Generated → CreateRequest → Db → Option (Created × Db)
  attempt_create g r db = elim (insert_project (new_project g r) db) [
    | none ↦ none
    | some db₁ ↦ elim (find_role_by_name "project_admin" db₁) [
      | none ↦ some (runtime_error "Required project_admin role is not configured", db)
      | some role ↦ elim (derive_runtime_identity g.project_id r.slug airflow_domain) [
        | none ↦
            some (value_error "project_id must be exactly 32 lowercase hexadecimal characters", db)
        | some identity ↦ elim (new_deployment g identity) [
          | none ↦ some (credentials_not_configured, db)
          | some deployment ↦
              elim (insert_job (new_operation g r) (add_rows g r role.id deployment db₁)) [
                | none ↦ none
                | some db₂ ↦ some (
                  created (new_project g r) (new_operation g r),
                  add_audit
                      (requested_event "project.provision.requested" r.requested_by.id
                        (new_project g r) g.correlation_id
                        (("operation_id", text g.operation_id) ∷ []))
                      db₂,
                )
              ]
        ]
      ]
    ]
  ]

  -- The handler of the IntegrityError, after its rollback.
  unfoldable pub resolve_conflict : CreateRequest → Db → Created
  resolve_conflict r db = elim (find_job_by_key r.idempotency_key db) [
    | none ↦ elim (find_project_by_slug r.slug db) [
      | some _ ↦ duplicate_project_slug
      | none ↦ integrity_error
    ]
    | some job ↦
        if job.request_fingerprint == fingerprint_of r
        then elim (find_project job.project_id db) [
          | none ↦ runtime_error "Idempotent project operation has no project"
          | some project ↦ created project job
        ]
        else idempotency_key_conflict
  ]

  unfoldable pub create_project_operation : Generated → CreateRequest → Db → Created × Db
  create_project_operation g r db = elim (attempt_create g r db) [
    | some result ↦ result
    | none ↦ (resolve_conflict r db, db)
  ]
