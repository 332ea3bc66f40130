-- ===== src/Queue/Failure.antt =====
-- How a failed attempt is settled: the retry, the terminal failure with its project status and its
-- audit event, and the audit log under every call.
use conductor_data_platform.Prelude.{
  sym, ◌∙◌, ℕ, ◌-◌, ◌≤◌, ◌<◌, String, ◌≡◌, refl, inl, inr, Bool, true, false, Option, some, [], ◌∷◌,
  ◌++◌, arith, Option-cases, Bool-cases, leb, none, ◌⊎◌, In,
}
use conductor_data_platform.Models.{
  Db, ProjectLifecycleJob, Project, save_job, save_project, find_project, ProjectLifecycleStatus,
  LifecycleOperation, provision, delete, provision_failed, deletion_failed, failed, text, number,
  AuditEvent,
}
use conductor_data_platform.Lifecycle.{
  Raised, message, retry_delay, classify_lifecycle_error, permanent,
}
use conductor_data_platform.Lifecycle.Delay.{retry_delay-le}
use conductor_data_platform.Outcome.{returned, atomically}
use conductor_data_platform.Queue.Defs.{
  owns, Backoff, failed_row, retry_row, is_terminal, fail_job, record_terminal_failure,
  schedule_retry, settle_failure, retry_or_fail_job, error_code, failure_of, failure_event,
}
use conductor_data_platform.Queue.Rows.{by_id, write}
use conductor_data_platform.Queue.Lease.{Owned, Owned-or-Stale, held-Owned, held-Stale}

-- The failure status of a project under an operation, and the type of the event
abbrev pub FailsAs : LifecycleOperation → ProjectLifecycleStatus → String → Type 0
FailsAs operation status event_type =
    ((operation ≡ provision)
      × (status ≡ provision_failed)
      × (event_type ≡ "project.provision.failed"))
    ⊎ ((operation ≡ delete) × (status ≡ deletion_failed) × (event_type ≡ "project.delete.failed"))

fails_as :
    (operation : LifecycleOperation) (status : ProjectLifecycleStatus) (event_type : String)
    → FailsAs operation status event_type
    → failure_of operation ≡ some (status, event_type)
fails_as operation status event_type (inl (o, s, e)) = rw (o, s, e) refl
fails_as operation status event_type (inr (o, s, e)) = rw (o, s, e) refl

module _ (redact : String → String) (id worker : String) (now n : ℕ) (error : Raised)
    (backoff : Backoff) where
  why :
      (job : ProjectLifecycleJob)
      → is_terminal error job ≡ true
      → (classify_lifecycle_error error ≡ permanent) ⊎ (job.max_attempts ≤ job.attempt)
  why job t = elim (Bool-cases (leb job.max_attempts job.attempt)) [
    | inl up ↦ inr (ground arith)
    | inr left ↦ inl (ground arith)
  ]

  -- A retry that was scheduled: the row waits, free of its lease, until a time that is neither before
  -- now nor after now and the cap; projects and audit log are as they were.
  pub record IsRetried (job : ProjectLifecycleJob) (db db' : Db) : Type 0 where
    pub until : ℕ
    pub row :
        db'.jobs
        ≡ write (retry_row now until (error_code error) (redact (message error)) job) db.jobs
    pub soon : until ≤ backoff.cap
    pub attempts_left : job.attempt < job.max_attempts
    pub projects : db'.projects ≡ db.projects
    pub audit : db'.audit ≡ db.audit

  abbrev pub code : String
  code = error_code error

  abbrev pub last_row : ProjectLifecycleJob → ProjectLifecycleJob
  last_row = failed_row now code (redact (message error))

  -- A row that has ended with the error's code and redacted text, without a lease
  abbrev pub HasEnded : ProjectLifecycleJob → ProjectLifecycleJob → Type 0
  HasEnded job ended =
      (ended.id ≡ job.id)
      × (ended.attempt ≡ job.attempt)
      × (ended.status ≡ failed)
      × (ended.error_code ≡ some code)
      × (ended.error_message ≡ some (redact (message error)))
      × (ended.locked_by ≡ none)
      × (ended.lock_expires_at ≡ none)
      × (ended.finished_at ≡ some now)

  -- An event on the failure of the job, in the name of its requester and with the project as it was
  abbrev pub Reports : ProjectLifecycleJob → Project → String → AuditEvent → Type 0
  Reports job project event_type event =
      (event.event_type ≡ event_type)
      × (event.actor_user_id ≡ job.requested_by)
      × (event.project_id_snapshot ≡ project.id)
      × (event.project_name_snapshot ≡ project.name)
      × (event.project_slug_snapshot ≡ project.slug)
      × (event.correlation_id ≡ job.correlation_id)
      × (event.outcome ≡ "failed")
      × In ("operation_id", text job.id) event.metadata_json
      × In ("attempt", number job.attempt) event.metadata_json
      × In ("error_code", text code) event.metadata_json

  -- A terminal failure of a provisioning or a deletion.
  pub record IsFailed (job : ProjectLifecycleJob) (status : ProjectLifecycleStatus)
      (event_type : String) (db db' : Db) : Type 0 where
    pub ended : ProjectLifecycleJob
    pub has_ended : HasEnded job ended
    pub row : db'.jobs ≡ write ended db.jobs
    pub project : Project
    pub project_found : find_project job.project_id db ≡ some project
    pub projects :
        db'.projects ≡ (save_project (record project { lifecycle_status = status }) db).projects
    pub event : AuditEvent
    pub reports : Reports job project event_type event
    pub audit : db'.audit ≡ db.audit ++ event ∷ []

  delay_of : ProjectLifecycleJob → Option ℕ
  delay_of job =
      retry_delay backoff.reaches_cap (job.attempt - 1) backoff.base backoff.cap backoff.jitter

  retried_db : ℕ → ProjectLifecycleJob → Db → Db
  retried_db until job = save_job (retry_row now until code (redact (message error)) job)

  settled_delay :
      (job : ProjectLifecycleJob) (db db' : Db)
      → is_terminal error job ≡ false
      → atomically (settle_failure redact now error backoff job) db ≡ (returned false, db')
      → (d : ℕ) × (delay_of job ≡ some d) × (db' ≡ retried_db d job db)
  unfolding settle_failure schedule_retry delay_of retried_db
  settled_delay job db db' t e = ground arith

  settled_retry :
      (job : ProjectLifecycleJob) (db db' : Db)
      → is_terminal error job ≡ false
      → atomically (settle_failure redact now error backoff job) db ≡ (returned false, db')
      → IsRetried job db db'
  unfolding delay_of retried_db
  settled_retry job db db' t e =
      let (d, p, q) = settled_delay job db db' t e in
      rw q (record {
        until = d;
        row = refl;
        soon =
            retry_delay-le backoff.reaches_cap (job.attempt - 1) backoff.base backoff.cap
              backoff.jitter d p;
        attempts_left = ground arith;
        projects = refl;
        audit = refl;
      })

  settled_terminal :
      (job : ProjectLifecycleJob) (db db' : Db)
      → atomically (settle_failure redact now error backoff job) db ≡ (returned true, db')
      → (fail_job now code (redact (message error)) job db ≡ (returned tt, db'))
        × (is_terminal error job ≡ true)
  unfolding settle_failure schedule_retry
  settled_terminal job db db' e = ground arith

  settled_failure :
      (job : ProjectLifecycleJob) (db db' : Db) (status : ProjectLifecycleStatus)
      (event_type : String)
      → failure_of job.operation ≡ some (status, event_type)
      → fail_job now code (redact (message error)) job db ≡ (returned tt, db')
      → IsFailed job status event_type db db'
  unfolding fail_job record_terminal_failure
  settled_failure job db db' status event_type k e =
      elim (Option-cases (find_project job.project_id db)) [
        | inl f ↦ absurd (ground arith)
        | inr (p, f) ↦ record {
          ended = last_row job;
          has_ended = (refl, refl, refl, refl, refl, refl, refl, refl);
          row = ground arith;
          project = p;
          project_found = f;
          projects = ground arith;
          event = failure_event (last_row job) p event_type code;
          reports = (
            refl,
            refl,
            refl,
            refl,
            refl,
            refl,
            refl,
            inl refl,
            inr (inr (inl refl)),
            inr (inr (inr (inl refl))),
          );
          audit = ground arith;
        }
      ]

  held_row :
      (db db' : Db) (b : Bool)
      → retry_or_fail_job redact id worker now error n backoff db ≡ (returned b, db')
      → (o : Owned id worker n now db) × (atomically
            (settle_failure redact now error backoff o.job)
            db
          ≡ (returned b, db'))
  unfolding retry_or_fail_job
  held_row db db' b e = elim (Owned-or-Stale id worker n now db) [
    | inl o ↦
        (o, sym (held-Owned id worker n now (settle_failure redact now error backoff) db o) ∙ e)
    | inr stale ↦ absurd (
        ground (
          arith,
          held-Stale {0} id worker n now (settle_failure redact now error backoff) db stale,
        ))
  ]

  false_not_terminal :
      (job : ProjectLifecycleJob) (db db' : Db)
      → atomically (settle_failure redact now error backoff job) db ≡ (returned false, db')
      → is_terminal error job ≡ false
  unfolding settle_failure
  false_not_terminal job db db' e = ground arith

  -- If `retry_or_fail_job` returns False, the caller owned the job, the error was not permanent and
  -- attempts were left; the row waits, without its lease, until a time between now and now plus the cap,
  -- and no project and no audit event has changed.
  pub retry_or_fail_job-IsRetried :
      (db db' : Db)
      → retry_or_fail_job redact id worker now error n backoff db ≡ (returned false, db')
      → (o : Owned id worker n now db) × (is_terminal error o.job ≡ false) × IsRetried o.job db db'
  retry_or_fail_job-IsRetried db db' e =
      let (o, s) = held_row db db' false e in
      let t = false_not_terminal o.job db db' s in (o, t, settled_retry o.job db db' t s)

  -- If `retry_or_fail_job` returns True, the caller owned the job and the error was permanent or the
  -- attempts were used up. For a provisioning or a deletion the row has ended as failed with the error's
  -- code and redacted text and without its lease, the project is in the failure status of the operation, and
  -- exactly one audit event is appended, of the operation's type and with the job's id, attempt and code.
  pub retry_or_fail_job-IsFailed :
      (db db' : Db) (job : ProjectLifecycleJob) (status : ProjectLifecycleStatus)
      (event_type : String)
      → retry_or_fail_job redact id worker now error n backoff db ≡ (returned true, db')
      → by_id id db.jobs ≡ some job
      → FailsAs job.operation status event_type
      → ((classify_lifecycle_error error ≡ permanent) ⊎ (job.max_attempts ≤ job.attempt))
        × (owns job worker n now ≡ true)
        × IsFailed job status event_type db db'
  retry_or_fail_job-IsFailed db db' job status event_type e f k =
      let (o, s) = held_row db db' true e in
      let same : o.job ≡ job = ground (arith, o.found) in
      let (done, t) = settled_terminal o.job db db' s in
      let kind = fails_as job.operation status event_type k in
      rw (← same)
        (why o.job t, o.lease, settled_failure o.job db db' status event_type (rw same kind) done)
