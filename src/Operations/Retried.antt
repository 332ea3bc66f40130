-- ===== src/Operations/Retried.antt =====
-- What a retry of a failed provisioning needs and writes, and what it answers to the same request again.
use conductor_data_platform.Prelude.{
  String, ◌≡◌, refl, ap, ◌∙◌, ◌⊎◌, inl, inr, true, false, none, some, [], ◌∷◌, ◌++◌, arith, ◌==◌,
  ◌&&◌, find_row, any_row, Bool-cases, Option-cases,
}
use conductor_data_platform.Models.{
  Db, Project, User, ProjectLifecycleJob, AuditEvent, find_project_by_slug, provisioning,
  provision_failed, provision, failed,
}
use conductor_data_platform.Lifecycle.Transitions.{is_allowed}
use conductor_data_platform.Http.{Reply, answer, http}
use conductor_data_platform.Operations.Tables.{insert_job, job_conflicts, find_job_by_key}
use conductor_data_platform.Operations.Provision.{
  OperationResponse, operation_response, RetryGenerated, load_project_operation, restart, retry_job,
  enqueue_retry, is_retryable, retry_project_provision, retry_event,
}

module _ (sha256 : String → String) where
  -- A retry that was enqueued.
  pub record IsRequeued (g : RetryGenerated) (user : User) (slug operation_id key : String)
      (seen before after : Db) : Type 0 where
    pub project : Project
    pub operation : ProjectLifecycleJob
    pub found : find_project_by_slug slug seen ≡ some project
    pub operation_found :
        find_row (λ j. j.id == operation_id && j.project_id == project.id) seen.jobs
        ≡ some operation
    pub provisions : operation.operation ≡ provision
    pub has_failed : operation.status ≡ failed
    pub provisioning_failed : project.lifecycle_status ≡ provision_failed
    pub allowed : is_allowed project.lifecycle_status provisioning ≡ true
    pub no_conflict :
        any_row (job_conflicts (retry_job sha256 g user project operation key)) before.jobs ≡ false
    pub jobs : after.jobs ≡ before.jobs ++ retry_job sha256 g user project operation key ∷ []
    pub projects : after.projects ≡ (restart project before).projects
    pub event : AuditEvent
    pub logged : after.audit ≡ before.audit ++ event ∷ []

  loaded :
      (slug operation_id : String) (db : Db) (project : Project) (operation : ProjectLifecycleJob)
      → load_project_operation slug operation_id db ≡ answer (project, operation)
      → (find_project_by_slug slug db ≡ some project)
        × (find_row (λ j. j.id == operation_id && j.project_id == project.id) db.jobs
            ≡ some operation)
  unfolding load_project_operation
  loaded slug operation_id db project operation h =
      elim (Option-cases (find_project_by_slug slug db)) [
        | inl e ↦ absurd (ground arith)
        | inr (p, e) ↦
            elim (Option-cases
              (find_row (λ j. j.id == operation_id && j.project_id == p.id) db.jobs)) [
                | inl e' ↦ absurd (ground arith)
                | inr (j, e') ↦ (ground arith, ground arith)
              ]
      ]

  requeued_db : RetryGenerated → User → Project → ProjectLifecycleJob → String → Db → Db
  requeued_db g user project operation key db = record (restart project db) {
    jobs = db.jobs ++ retry_job sha256 g user project operation key ∷ [];
    audit = db.audit ++ retry_event g user project operation ∷ [];
  }

  module _ (others : Db → Db) (g : RetryGenerated) (user : User) (slug operation_id key : String)
      (db : Db) where
    request : Reply OperationResponse × Db
    request = retry_project_provision sha256 others g user slug operation_id key db

    -- The guards that let the request reach its flush.
    pub record Reaches (project : Project) (operation : ProjectLifecycleJob) : Type 0 where
      pub load : load_project_operation slug operation_id db ≡ answer (project, operation)
      pub new_key : find_job_by_key key db ≡ none
      pub retryable : is_retryable sha256 project operation ≡ true

    find_passage :
        (request.1 ≡ others db)
        ⊎ ((project : Project) × (operation : ProjectLifecycleJob) × Reaches project operation
            × (request ≡ enqueue_retry sha256 g user project operation key (others db)))
    unfolding retry_project_provision request
    find_passage = go (load_project_operation slug operation_id db) refl
      where
        go :
            (o : Reply (Project × ProjectLifecycleJob))
            → load_project_operation slug operation_id db ≡ o
            → (request.1 ≡ others db)
              ⊎ ((project : Project) × (operation : ProjectLifecycleJob) × Reaches project operation
                  × (request ≡ enqueue_retry sha256 g user project operation key (others db)))
        go (http code detail) e = inl (ground (arith, e))
        go (answer (p, j)) e = elim (Option-cases (find_job_by_key key db)) [
          | inr (k, e') ↦ inl (ground (arith, e))
          | inl e' ↦ elim (Bool-cases (is_retryable sha256 p j)) [
            | inr e'' ↦ inl (ground (arith, e))
            | inl e'' ↦
                inr (p, j, record { load = e; new_key = e'; retryable = e'' }, ground (arith, e))
          ]
        ]

  inserted :
      (g : RetryGenerated) (user : User) (project : Project) (operation : ProjectLifecycleJob)
      (key : String) (db : Db)
      → any_row (job_conflicts (retry_job sha256 g user project operation key)) db.jobs ≡ false
      → enqueue_retry sha256 g user project operation key db ≡ (
        answer (operation_response (retry_job sha256 g user project operation key)),
        requeued_db g user project operation key db,
      )
  unfolding enqueue_retry insert_job requeued_db
  inserted g user project operation key db k = ground arith

  conflicted :
      (g : RetryGenerated) (user : User) (project : Project) (operation : ProjectLifecycleJob)
      (key : String) (db : Db)
      → any_row (job_conflicts (retry_job sha256 g user project operation key)) db.jobs ≡ true
      → (enqueue_retry sha256 g user project operation key db).1 ≡ db
  unfolding enqueue_retry insert_job
  conflicted g user project operation key db k = ground arith

  -- A retry request either requeues the provisioning, and then the operation was a failed provisioning of a
  -- project whose provisioning had failed, which goes back to provisioning by an allowed transition; or it
  -- writes nothing.
  pub retry_project_provision-IsRequeued :
      (others : Db → Db) (g : RetryGenerated) (user : User) (slug operation_id key : String)
      (db : Db)
      → let (r, after) = retry_project_provision sha256 others g user slug operation_id key db in
        IsRequeued g user slug operation_id key db (others db) after ⊎ (after ≡ others db)
  unfolding request requeued_db
  retry_project_provision-IsRequeued others g user slug operation_id key db =
      elim (find_passage others g user slug operation_id key db) [
        | inl same ↦ inr same
        | inr (p, j, r, e) ↦
            let (found, operation_found) = loaded slug operation_id db p j r.load in
            elim (Bool-cases
              (any_row (job_conflicts (retry_job sha256 g user p j key)) (others db).jobs)) [
                | inl k ↦ inr (ap (λ x. x.1) e ∙ conflicted g user p j key (others db) k)
                | inr k ↦ rw (e ∙ inserted g user p j key (others db) k) (
                    inl (record {
                      project = p;
                      operation = j;
                      found = found;
                      operation_found = operation_found;
                      provisions = ground (arith, r.retryable);
                      has_failed = ground (arith, r.retryable);
                      provisioning_failed = ground (arith, r.retryable);
                      allowed = ground (arith, r.retryable);
                      no_conflict = k;
                      jobs = refl;
                      projects = refl;
                      event = retry_event g user p j;
                      logged = refl;
                    }))
              ]
      ]
