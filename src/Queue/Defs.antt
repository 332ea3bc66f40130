-- ===== src/Queue/Defs.antt =====
-- The lease of a running job: heartbeat, completion, retry and terminal failure.
use conductor_data_platform.Prelude.{
  ℕ, ◌+◌, ◌-◌, String, Bool, true, false, not, ◌&&◌, ◌||◌, Option, none, some, [], ◌∷◌, ◌++◌, leb,
  eqb, if◌then◌else◌, is_some_text, prefix,
}
use conductor_data_platform.Models.{
  ProjectLifecycleJob, AuditEvent, text, number, LifecycleOperation, provision, delete, reconcile,
  provision_failed, deletion_failed, retry_wait, succeeded, failed, ProjectLifecycleStatus,
  is_running, find_job, find_project, save_job, save_project, Project, operation_value,
}
use conductor_data_platform.Lifecycle.{
  Raised, job_ownership, value_error, runtime_error, permanent, transient, classify_lifecycle_error,
  code_of, message,
}
use conductor_data_platform.Lifecycle.{retry_delay}
use conductor_data_platform.Outcome.{returned, raised, Transaction, atomically, ◌>>=◌}

pub record ClaimedJob : Type 0 where
  pub id : String
  pub project_id : String
  pub operation : LifecycleOperation
  pub attempt : ℕ
  pub max_attempts : ℕ
  pub worker_id : String
  pub correlation_id : String
  pub requested_by : Option String

-- The exception of a caller that does not hold the lease.
abbrev pub not_owner : Raised
not_owner = job_ownership "Lifecycle job lease is not owned by this worker"

-- `lock_expires_at is None or lock_expires_at <= now`
abbrev pub is_over : Option ℕ → ℕ → Bool
is_over none now = true
is_over (some t) now = leb t now

-- The lease test of `_lock_owned_job`.
unfoldable pub owns : ProjectLifecycleJob → String → ℕ → ℕ → Bool
owns job worker_id expected_attempt now =
    is_running job.status
    && is_some_text job.locked_by worker_id
    && eqb job.attempt expected_attempt
    && not (is_over job.lock_expires_at now)

unfoldable pub lock_owned_job : String → String → ℕ → ℕ → Transaction ProjectLifecycleJob
unfolding owns
lock_owned_job job_id worker_id expected_attempt now db = elim (find_job job_id db) [
  | none ↦ (raised not_owner, db)
  | some job ↦
      (if owns job worker_id expected_attempt now then returned job else raised not_owner, db)
]

abbrev pub not_positive : Raised
not_positive = value_error "lease_seconds must be a positive number"

-- The row that a heartbeat writes.
abbrev pub extended : ℕ → ℕ → ProjectLifecycleJob → ProjectLifecycleJob
extended now lease job = record job {
  heartbeat_at = some now;
  lock_expires_at = some (now + lease);
}

unfoldable pub heartbeat_job : String → String → ℕ → ℕ → ℕ → Transaction (Unit {0})
unfolding lock_owned_job
heartbeat_job job_id worker_id now lease_seconds expected_attempt db =
    if eqb lease_seconds 0
    then (raised not_positive, db)
    else atomically
        (do
          job ← lock_owned_job job_id worker_id expected_attempt now
          λ db. (returned tt, save_job (extended now lease_seconds job) db))
        db

abbrev pub completed : ℕ → ProjectLifecycleJob → ProjectLifecycleJob
completed now job = record job {
  status = succeeded;
  locked_by = none;
  lock_expires_at = none;
  error_code = none;
  error_message = none;
  finished_at = some now;
}

unfoldable pub complete_job : String → String → ℕ → ℕ → Transaction (Unit {0})
unfolding lock_owned_job
complete_job job_id worker_id now expected_attempt = atomically (do
  job ← lock_owned_job job_id worker_id expected_attempt now
  λ db. (returned tt, save_job (completed now job) db))

-- `str(code)[:64]`
unfoldable pub error_code : Raised → String
unfolding code_of prefix
error_code e = prefix 64 (code_of e)

-- The AuditEvent of a terminal failure.
abbrev pub failure_event : ProjectLifecycleJob → Project → String → String → AuditEvent
failure_event job project event_type code = record {
  event_type = event_type;
  actor_user_id = job.requested_by;
  project_id_snapshot = project.id;
  project_name_snapshot = project.name;
  project_slug_snapshot = project.slug;
  correlation_id = job.correlation_id;
  outcome = "failed";
  metadata_json =
      ("operation_id", text job.id)
      ∷ ("operation", text (operation_value job.operation))
      ∷ ("attempt", number job.attempt)
      ∷ ("error_code", text code)
      ∷ [];
}

-- The new status of the project and the type of the event; a reconciliation has neither.
abbrev pub failure_of : LifecycleOperation → Option (ProjectLifecycleStatus × String)
failure_of provision = some (provision_failed, "project.provision.failed")
failure_of delete = some (deletion_failed, "project.delete.failed")
failure_of reconcile = none

unfoldable pub record_terminal_failure : ProjectLifecycleJob → String → Transaction (Unit {0})
record_terminal_failure job code db = elim (find_project job.project_id db) [
  | none ↦ (raised (runtime_error "Lifecycle job has no project"), db)
  | some project ↦ elim (failure_of job.operation) [
    | none ↦ (returned tt, db)
    | some (status, event_type) ↦ (
      returned tt,
      record (save_project (record project { lifecycle_status = status }) db) {
        audit = db.audit ++ failure_event job project event_type code ∷ [];
      },
    )
  ]
]

abbrev pub failed_row : ℕ → String → String → ProjectLifecycleJob → ProjectLifecycleJob
failed_row now code message job = record job {
  status = failed;
  error_code = some code;
  error_message = some message;
  locked_by = none;
  lock_expires_at = none;
  finished_at = some now;
}

unfoldable pub fail_job : ℕ → String → String → ProjectLifecycleJob → Transaction (Unit {0})
unfolding record_terminal_failure
fail_job now code message job db =
    let job' = failed_row now code message job in
    record_terminal_failure job' code (save_job job' db)

-- The intervals of the retry policy, the jitter already sampled by the caller.
pub record Backoff : Type 0 where
  pub base : ℕ
  pub cap : ℕ
  pub jitter : ℕ
  -- the comparison of logarithms in retry_delay
  pub reaches_cap : ℕ → ℕ → ℕ → Bool

abbrev pub is_terminal : Raised → ProjectLifecycleJob → Bool
is_terminal error job =
    elim (classify_lifecycle_error error) [ permanent ↦ true | transient ↦ false ]
    || leb job.max_attempts job.attempt

abbrev pub retry_row : ℕ → ℕ → String → String → ProjectLifecycleJob → ProjectLifecycleJob
retry_row now delay code message job = record job {
  error_code = some code;
  error_message = some message;
  locked_by = none;
  lock_expires_at = none;
  status = retry_wait;
  available_at = now + delay;
  finished_at = none;
}

-- The branch that schedules a retry; a delay that cannot be computed raises ValueError.
unfoldable pub schedule_retry :
    ℕ → Backoff → String → String → ProjectLifecycleJob → Transaction Bool
schedule_retry now backoff code message job db =
    elim (retry_delay backoff.reaches_cap (job.attempt - 1) backoff.base backoff.cap
      backoff.jitter) [
        | none ↦ (raised (value_error "retry interval must be a positive finite number"), db)
        | some delay ↦ (returned false, save_job (retry_row now delay code message job) db)
      ]

module _ (redact : String → String) where
  unfoldable pub settle_failure : ℕ → Raised → Backoff → ProjectLifecycleJob → Transaction Bool
  settle_failure now error backoff job =
      let code = error_code error in
      let message = redact (message error) in
      if is_terminal error job
      then (fail_job now code message job >>= λ _ db. (returned true, db))
      else schedule_retry now backoff code message job

  -- `true` is a terminal failure, `false` a scheduled retry.
  unfoldable pub retry_or_fail_job : String → String → ℕ → Raised → ℕ → Backoff → Transaction Bool
  retry_or_fail_job job_id worker_id now error expected_attempt backoff = atomically (do
    job ← lock_owned_job job_id worker_id expected_attempt now
    settle_failure now error backoff job)
