-- ===== src/Operations/Tables.antt =====
-- Inserts into projects and project_lifecycle_jobs with the unique indexes that the code relies on:
-- the primary keys, the slug, the idempotency key, and one active job for each project.
use conductor_data_platform.Prelude.{
  ℕ, String, Bool, ◌&&◌, ◌||◌, Option, none, some, [], ◌∷◌, ◌++◌, if◌then◌else◌, ◌==◌, find_row,
  any_row,
}
use conductor_data_platform.Models.{
  Db, Project, ProjectLifecycleJob, AuditEvent, LifecycleOperation, is_active_status, pending,
  JsonObject,
}

abbrev pub project_conflicts : Project → Project → Bool
project_conflicts p q = q.slug == p.slug || q.id == p.id

abbrev pub job_conflicts : ProjectLifecycleJob → ProjectLifecycleJob → Bool
job_conflicts j k =
    k.idempotency_key == j.idempotency_key
    || k.id == j.id
    || (k.project_id == j.project_id && is_active_status k.status && is_active_status j.status)

-- `none` is an IntegrityError.
unfoldable pub insert_project : Project → Db → Option Db
insert_project p db =
    if any_row (project_conflicts p) db.projects
    then none
    else some (record db { projects = db.projects ++ p ∷ [] })

unfoldable pub insert_job : ProjectLifecycleJob → Db → Option Db
insert_job j db =
    if any_row (job_conflicts j) db.jobs
    then none
    else some (record db { jobs = db.jobs ++ j ∷ [] })

abbrev pub find_job_by_key : String → Db → Option ProjectLifecycleJob
find_job_by_key key db = find_row (λ j. j.idempotency_key == key) db.jobs

abbrev pub add_audit : AuditEvent → Db → Db
add_audit e db = record db { audit = db.audit ++ e ∷ [] }

-- A job as it is enqueued: pending, with no attempt made.
abbrev pub new_job :
    String
    → String
    → LifecycleOperation
    → ℕ
    → ℕ
    → String
    → String
    → String
    → String
    → ProjectLifecycleJob
new_job id project_id operation max_attempts now key fingerprint requested_by correlation_id =
    record {
      id = id;
      project_id = project_id;
      operation = operation;
      status = pending;
      current_step = none;
      attempt = 0;
      max_attempts = max_attempts;
      available_at = now;
      locked_by = none;
      lock_expires_at = none;
      heartbeat_at = none;
      idempotency_key = key;
      request_fingerprint = fingerprint;
      requested_by = some requested_by;
      correlation_id = correlation_id;
      error_code = none;
      error_message = none;
      created_at = now;
      started_at = none;
      finished_at = none;
    }

-- The audit event of a request for an operation on a project.
abbrev pub requested_event : String → String → Project → String → JsonObject → AuditEvent
requested_event event_type actor_id project correlation_id metadata = record {
  event_type = event_type;
  actor_user_id = some actor_id;
  project_id_snapshot = project.id;
  project_name_snapshot = project.name;
  project_slug_snapshot = project.slug;
  correlation_id = correlation_id;
  outcome = "requested";
  metadata_json = metadata;
}
