-- ===== src/Operations/Provision.antt =====
-- retry_project_provision of routers/projects.py, with _load_project_operation.
use conductor_data_platform.Prelude.{
  ℕ, String, Bool, ◌&&◌, none, some, [], ◌∷◌, eqb, if◌then◌else◌, ◌==◌, is_some_text, find_row,
}
use conductor_data_platform.Models.{
  Db, AuditEvent, Project, User, ProjectLifecycleJob, find_project_by_slug, provisioning, provision,
  is_provision, is_failed, is_provision_failed, save_project, text, LifecycleOperation,
  LifecycleJobStatus,
}
use conductor_data_platform.Http.{Reply, answer, http, Query, ◌>>=◌, or_http, pure}
use conductor_data_platform.Operations.Fingerprint.{provision_retry_fingerprint}
use conductor_data_platform.Operations.Tables.{
  insert_job, find_job_by_key, add_audit, new_job, requested_event,
}

pub record OperationResponse : Type 0 where
  pub id : String
  pub operation : LifecycleOperation
  pub status : LifecycleJobStatus

abbrev pub operation_response : ProjectLifecycleJob → OperationResponse
operation_response j = record { id = j.id; operation = j.operation; status = j.status }

unfoldable pub load_project_operation : String → String → Query (Project × ProjectLifecycleJob)
load_project_operation slug operation_id =
    or_http (find_project_by_slug slug) 404 "Project not found" >>= λ project.
    or_http (λ db. find_row (λ j. j.id == operation_id && j.project_id == project.id) db.jobs) 404
      "Operation not found"
    >>= λ operation. pure (project, operation)

-- What a retry generates for itself.
pub record RetryGenerated : Type 0 where
  pub operation_id : String
  pub correlation_id : String
  pub now : ℕ

abbrev pub mismatch : Reply OperationResponse
mismatch = http 409 "Idempotency key already used with a different request"

-- The row that a request with this key, project and user has left before.
abbrev pub is_replay : User → Project → String → ProjectLifecycleJob → Bool
is_replay user project fingerprint j =
    j.project_id == project.id
    && is_provision j.operation
    && is_some_text j.requested_by user.id
    && j.request_fingerprint == fingerprint

-- `failed_operation.max_attempts or 5`
abbrev pub retry_max_attempts : ProjectLifecycleJob → ℕ
retry_max_attempts j = if eqb j.max_attempts 0 then 5 else j.max_attempts

abbrev pub restart : Project → Db → Db
restart project = save_project (record project { lifecycle_status = provisioning })

abbrev pub retry_event : RetryGenerated → User → Project → ProjectLifecycleJob → AuditEvent
retry_event g user project failed_operation =
    requested_event "project.provision.retry_requested" user.id
      (record project { lifecycle_status = provisioning }) g.correlation_id
      (("operation_id", text g.operation_id)
        ∷ ("retry_of_operation_id", text failed_operation.id)
        ∷ [])

module _ (sha256 : String → String) where
  abbrev pub retry_job :
      RetryGenerated → User → Project → ProjectLifecycleJob → String → ProjectLifecycleJob
  retry_job g user project failed_operation key =
      new_job g.operation_id project.id provision (retry_max_attempts failed_operation) g.now key
        (provision_retry_fingerprint sha256 user.id project.id failed_operation.id) user.id
        g.correlation_id

  -- The handler of the IntegrityError of the flush, after its rollback.
  abbrev pub resolve_retry : User → Project → String → String → Db → Reply OperationResponse
  resolve_retry user project fingerprint key db = elim (find_job_by_key key db) [
    | some j ↦
        if is_replay user project fingerprint j then answer (operation_response j) else mismatch
    | none ↦ http 409 "Project provision retry conflicts with another request"
  ]

  -- The flush and the commit, on the tables that other transactions have left by then.
  unfoldable pub enqueue_retry :
      RetryGenerated
      → User
      → Project
      → ProjectLifecycleJob
      → String
      → Db
      → Reply OperationResponse × Db
  enqueue_retry g user project failed_operation key db =
      let retry = retry_job g user project failed_operation key in
      elim (insert_job retry (restart project db)) [
        | none ↦ (resolve_retry user project retry.request_fingerprint key db, db)
        | some db' ↦ (
          answer (operation_response retry),
          add_audit (retry_event g user project failed_operation) db',
        )
      ]

  abbrev pub is_retryable : Project → ProjectLifecycleJob → Bool
  is_retryable project operation =
      is_provision operation.operation
      && is_failed operation.status
      && is_provision_failed project.lifecycle_status

  unfoldable pub retry_project_provision :
      (Db → Db)
      → RetryGenerated
      → User
      → String
      → String
      → String
      → Db
      → Reply OperationResponse × Db
  unfolding enqueue_retry
  retry_project_provision others g user slug operation_id key db =
      elim (load_project_operation slug operation_id db) [
        | http code detail ↦ (http code detail, others db)
        | answer (project, operation) ↦ elim (find_job_by_key key db) [
          | some j ↦ (
            (if is_replay user project
                  (provision_retry_fingerprint sha256 user.id project.id operation.id) j
                then answer (operation_response j)
                else mismatch),
            others db,
          )
          | none ↦
              if is_retryable project operation
              then enqueue_retry g user project operation key (others db)
              else (http 409 "Only a failed project provision can be retried", others db)
        ]
      ]
