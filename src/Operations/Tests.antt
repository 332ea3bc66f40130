-- ===== src/Operations/Tests.antt =====
-- A project that is created, retried after a failure and deleted, and the theorems there.
use conductor_data_platform.Prelude.{
  String, String-discrete, ◌≡◌, ◌≢◌, refl, ◌⊎◌, inl, inr, true, false, Option, none, some, [], ◌∷◌,
  arith,
}
use conductor_data_platform.Models.{
  Db, User, Role, Project, ReauthGrant, ProjectLifecycleJob, provision_failed, failed, provisioning,
  find_project,
}
use conductor_data_platform.Operations.Fingerprint.{dumps, escape}
use conductor_data_platform.Operations.Tables.{find_job_by_key, insert_job, insert_project}
use conductor_data_platform.Operations.Create.{
  created, CreateRequest, Generated, new_project, new_operation, fingerprint_of,
  create_project_operation, attempt_create, new_deployment,
}
use conductor_data_platform.Operations.Created.{
  IsCreated, create_project_operation-IsCreated, create_project_operation_idempotent,
}
use conductor_data_platform.Operations.Provision.{
  RetryGenerated, retry_project_provision, load_project_operation,
}
use conductor_data_platform.Operations.Retried.{IsRequeued, retry_project_provision-IsRequeued}
use conductor_data_platform.Operations.Deletion.{request_project_deletion, is_valid_grant}
use conductor_data_platform.Operations.Grants.{
  IsEnqueued, request_project_deletion-IsEnqueued, request_project_deletion_once,
}
use conductor_data_platform.Operations.Active.{IsExclusive}
use conductor_data_platform.Operations.Interleaved.{
  Events, quiet, called, created, retried, deleted, happen, happen-IsExclusive,
}
use conductor_data_platform.Queue.Schedule.{claim, complete}
use conductor_data_platform.Lifecycle.Identity.{derive_runtime_identity, is_hex_text}

abbrev root : User
root = record {
  id = "u1";
  email = "root@example.org";
  hashed_password = "h";
  display_name = "Root";
  is_active = true;
  is_admin = true;
}

abbrev role : Role
role = record { id = "project_admin"; name = "project_admin"; description = none; is_system = true }

abbrev empty : Db
empty = record {
  users = root ∷ [];
  roles = role ∷ [];
  permissions = [];
  projects = [];
  members = [];
  environments = [];
  git_configs = [];
  deployments = [];
  resources = [];
  jobs = [];
  grants = [];
  audit = [];
}

abbrev generated : Generated
generated = record {
  project_id = "0123456789abcdef0123456789abcdef";
  production_id = "e1";
  development_id = "e2";
  deployment_id = "d1";
  operation_id = "j1";
  correlation_id = "c1";
  db_password = "a";
  admin_password = "b";
  dev_password = "c";
  viewer_password = "d";
  integration_password = "e";
  now = 5;
}

-- What a second attempt generates.
abbrev generated_again : Generated
generated_again = record generated {
  project_id = "fedcba9876543210fedcba9876543210";
  operation_id = "j2";
  now = 9;
}

abbrev request : CreateRequest
request = record {
  name = "Sales";
  slug = "sales";
  description = none;
  requested_by = root;
  idempotency_key = "k1";
}

-- The text of a hash is the text itself here.
abbrev plain : String → String
plain t = t

abbrev sealed : String → Option String
sealed t = some t

abbrev domain : String
domain = "example.org"

canonical : dumps true (("a", some "x\"y") ∷ ("b", none) ∷ []) ≡ "{\"a\":\"x\\\"y\",\"b\":null}"
unfolding dumps escape
canonical = refl

abbrev after : Db
after = (create_project_operation plain sealed domain generated request empty).1

abbrev job : ProjectLifecycleJob
job = new_operation plain sealed domain generated request

is_created_here :
    create_project_operation plain sealed domain generated request empty
    ≡ (created (new_project generated request) job, after)
unfolding create_project_operation attempt_create insert_project String-discrete
    derive_runtime_identity is_hex_text new_deployment insert_job
is_created_here = refl

create_project_operation-IsCreated_example :
    let (c, db') = create_project_operation plain sealed domain generated request empty in
    ((p : Project) × (j : ProjectLifecycleJob) × (c ≡ created p j)
      × IsCreated plain sealed domain generated request p j empty db')
    ⊎ ((db' ≡ empty)
        × ((p : Project) (j : ProjectLifecycleJob)
            → c ≡ created p j
            → (find_job_by_key "k1" empty ≡ some j)
              × (j.request_fingerprint ≡ fingerprint_of plain sealed domain request)
              × (find_project j.project_id empty ≡ some p)))
create_project_operation-IsCreated_example =
    create_project_operation-IsCreated plain sealed domain generated request empty

create_project_operation_idempotent_example :
    create_project_operation plain sealed domain generated_again request after
    ≡ (created (new_project generated request) job, after)
create_project_operation_idempotent_example =
    create_project_operation_idempotent plain sealed domain generated generated_again request
      (new_project generated request) job empty after refl is_created_here

-- The project whose provisioning has failed.
abbrev broken : Project
broken = record (new_project generated request) { lifecycle_status = provision_failed }

abbrev broken_job : ProjectLifecycleJob
broken_job = record job { status = failed; attempt = 5 }

abbrev failure : Db
failure = record empty { projects = broken ∷ []; jobs = broken_job ∷ [] }

abbrev retry : RetryGenerated
retry = record { operation_id = "j3"; correlation_id = "c3"; now = 20 }

abbrev same_db : Db → Db
same_db db = db

retry_project_provision-IsRequeued_example :
    let (r, db') = retry_project_provision plain same_db retry root "sales" "j1" "k2" failure in
    IsRequeued plain retry root "sales" "j1" "k2" failure failure db' ⊎ (db' ≡ failure)
retry_project_provision-IsRequeued_example =
    retry_project_provision-IsRequeued plain same_db retry root "sales" "j1" "k2" failure

is_requeued_here :
    (retry_project_provision plain same_db retry root "sales" "j1" "k2" failure).1.projects
    ≡ record broken { lifecycle_status = provisioning } ∷ []
unfolding retry_project_provision load_project_operation String-discrete insert_job
is_requeued_here = refl

abbrev grant : ReauthGrant
grant = record {
  token_hash = "t";
  user_id = "u1";
  action = "project.delete";
  project_id = "0123456789abcdef0123456789abcdef";
  expires_at = 300;
  consumed_at = none;
  created_at = 1;
}

abbrev granted_tables : Db
granted_tables = record failure { grants = grant ∷ [] }

abbrev deleted_tables : Db
deleted_tables =
    (request_project_deletion plain same_db retry 0 root "sales" "sales" "k4" (some "t")
      granted_tables).1

request_project_deletion-IsEnqueued_example :
    IsEnqueued plain retry 0 root "sales" "sales" "k4" "t" granted_tables granted_tables
      deleted_tables
    ⊎ (deleted_tables ≡ granted_tables)
request_project_deletion-IsEnqueued_example =
    request_project_deletion-IsEnqueued plain same_db retry 0 root "sales" "sales" "k4" "t"
      granted_tables

is_consumed_here : deleted_tables.grants ≡ record grant { consumed_at = some 20 } ∷ []
unfolding request_project_deletion String-discrete is_valid_grant insert_job
is_consumed_here = refl

changed : deleted_tables ≢ granted_tables
changed e = ground (arith, is_consumed_here)

granted_tables-IsEnqueued :
    IsEnqueued plain retry 0 root "sales" "sales" "k4" "t" granted_tables granted_tables
      deleted_tables
granted_tables-IsEnqueued =
    elim (request_project_deletion-IsEnqueued plain same_db retry 0 root "sales" "sales" "k4" "t"
      granted_tables) [ inl h ↦ h | inr same ↦ absurd (changed same) ]

request_project_deletion_once_example :
    (request_project_deletion plain same_db retry 0 root "sales" "sales" "k5"
      (some "t")
      deleted_tables).1
    ≡ deleted_tables
request_project_deletion_once_example =
    request_project_deletion_once plain retry retry 0 0 root root "sales" "sales" "sales" "sales"
      "k4" "k5" "t" granted_tables granted_tables deleted_tables same_db granted_tables-IsEnqueued

-- A worker claims a job while a project is deleted; the creation then runs twice.
abbrev busy_day : Events
busy_day =
    deleted (called (claim (λ i j. true) (λ i. false) "w1" 5 60) quiet) retry 0 root "sales" "sales"
      "k4" (some "t")
      (created generated request (
        created generated request
          (retried quiet retry root "sales" "j1" "k2" (called (complete "j1" "w1" 9 1) quiet))))

happen-IsExclusive_example : IsExclusive (happen plain plain sealed domain busy_day failure).jobs
happen-IsExclusive_example = happen-IsExclusive plain plain sealed domain busy_day failure (tt, tt)
