-- ===== src/Operations/Deletion.antt =====
-- request_project_deletion of routers/admin.py.
--
-- `updated_at` of the project's row, which the tables here leave out, is an argument.
use conductor_data_platform.Prelude.{
  ℕ, String, Bool, true, false, not, ◌&&◌, ◌||◌, Option, none, some, List, [], ◌∷◌, ltb,
  if◌then◌else◌, ◌==◌, is_some_text, is_empty, find_row, update_rows,
}
use conductor_data_platform.Models.{
  Db, AuditEvent, Project, User, ProjectLifecycleJob, ReauthGrant, find_project_by_slug,
  ProjectLifecycleStatus, ready, provision_failed, deleting, deletion_failed, LifecycleOperation,
  delete, is_failed, save_project, text,
}
use conductor_data_platform.Http.{Reply, answer, http}
use conductor_data_platform.Reauth.{delete_action}
use conductor_data_platform.Operations.Fingerprint.{delete_fingerprint}
use conductor_data_platform.Operations.Tables.{
  insert_job, find_job_by_key, add_audit, new_job, requested_event,
}
use conductor_data_platform.Operations.Provision.{
  OperationResponse, operation_response, RetryGenerated, mismatch,
}

abbrev pub is_delete : LifecycleOperation → Bool
is_delete delete = true
is_delete _ = false

abbrev pub is_deleting : ProjectLifecycleStatus → Bool
is_deleting deleting = true
is_deleting _ = false

abbrev pub is_deletion_failed : ProjectLifecycleStatus → Bool
is_deletion_failed deletion_failed = true
is_deletion_failed _ = false

abbrev pub is_deletable : ProjectLifecycleStatus → Bool
is_deletable ready = true
is_deletable provision_failed = true
is_deletable deletion_failed = true
is_deletable _ = false

abbrev pub is_delete_replay : User → Project → String → ProjectLifecycleJob → Bool
is_delete_replay actor project fingerprint j =
    j.project_id == project.id
    && is_delete j.operation
    && is_some_text j.requested_by actor.id
    && j.request_fingerprint == fingerprint

abbrev newer : ProjectLifecycleJob → Option ProjectLifecycleJob → ProjectLifecycleJob
newer j none = j
newer j (some k) = if ltb j.created_at k.created_at then k else j

-- `ORDER BY created_at DESC LIMIT 1` over the failed deletions of the project.
unfoldable pub latest_failed_delete : String → List ProjectLifecycleJob → Option ProjectLifecycleJob
latest_failed_delete project_id [] = none
latest_failed_delete project_id (j ∷ js) =
    let rest = latest_failed_delete project_id js in
    if j.project_id == project_id && is_delete j.operation && is_failed j.status
    then some (newer j rest)
    else rest

unfoldable pub failed_deletion_boundary : ℕ → Project → Db → ℕ
failed_deletion_boundary updated_at project db = elim (latest_failed_delete project.id db.jobs) [
  | none ↦ updated_at
  | some j ↦ elim j.finished_at [ some at ↦ at | none ↦ updated_at ]
]

-- None of the conditions that refuse a grant holds.
unfoldable pub is_valid_grant : ℕ → ℕ → User → Project → Db → ReauthGrant → Bool
is_valid_grant updated_at now actor project db grant =
    grant.user_id == actor.id
    && grant.action == delete_action
    && grant.project_id == project.id
    && (elim grant.consumed_at [ none ↦ true | some _ ↦ false ])
    && ltb now grant.expires_at
    && (not (is_deletion_failed project.lifecycle_status)
        || ltb (failed_deletion_boundary updated_at project db) grant.created_at)

abbrev pub consume : String → ℕ → List ReauthGrant → List ReauthGrant
consume token_hash now =
    update_rows (λ g. g.token_hash == token_hash) (λ g. record g { consumed_at = some now })

abbrev pub invalid_grant : Reply OperationResponse
invalid_grant = http 403 "Invalid re-authentication grant"

abbrev pub mark_deleting : Project → String → ℕ → Db → Db
mark_deleting project token_hash now db =
    record (save_project (record project { lifecycle_status = deleting }) db) {
      grants = consume token_hash now db.grants;
    }

abbrev pub deletion_event : RetryGenerated → User → Project → AuditEvent
deletion_event g actor project =
    requested_event "project.delete.requested" actor.id
      (record project { lifecycle_status = deleting }) g.correlation_id
      (("operation_id", text g.operation_id) ∷ [])

module _ (sha256 : String → String) where
  abbrev pub delete_job :
      RetryGenerated → User → Project → String → String → String → ProjectLifecycleJob
  delete_job g actor project slug confirmation key =
      new_job g.operation_id project.id delete 5 g.now key
        (delete_fingerprint sha256 actor.id project.id slug confirmation) actor.id g.correlation_id

  -- The handler of the IntegrityError: the replay is not looked up under the project any more.
  abbrev pub resolve_delete : User → String → String → String → Db → Reply OperationResponse
  resolve_delete actor slug confirmation key db = elim (find_job_by_key key db) [
    | none ↦ http 500 "Project deletion request failed"
    | some j ↦
        if is_delete j.operation
          && is_some_text j.requested_by actor.id
          && j.request_fingerprint
            == delete_fingerprint sha256 actor.id j.project_id slug confirmation
        then answer (operation_response j)
        else mismatch
  ]

  unfoldable pub enqueue_delete :
      RetryGenerated
      → User
      → Project
      → String
      → String
      → String
      → String
      → Db
      → Reply OperationResponse × Db
  enqueue_delete g actor project slug confirmation key token_hash db =
      elim (insert_job (delete_job g actor project slug confirmation key)
        (mark_deleting project token_hash g.now db)) [
          | none ↦ (resolve_delete actor slug confirmation key db, db)
          | some db' ↦ (
            answer (operation_response (delete_job g actor project slug confirmation key)),
            add_audit (deletion_event g actor project) db',
          )
        ]

  -- The grant of the token, once the request itself is in order.
  unfoldable pub authorize_delete :
      (Db → Db)
      → RetryGenerated
      → ℕ
      → User
      → Project
      → String
      → String
      → String
      → String
      → Db
      → Reply OperationResponse × Db
  unfolding enqueue_delete
  authorize_delete others g updated_at actor project slug confirmation key token db =
      elim (find_row (λ r. r.token_hash == sha256 token) db.grants) [
        | none ↦ (invalid_grant, others db)
        | some grant ↦
            if is_valid_grant updated_at g.now actor project db grant
            then enqueue_delete g actor project slug confirmation key (sha256 token) (others db)
            else (invalid_grant, others db)
      ]

  -- The refusals before the grant is looked at, in their order; `none` lets the request on.
  abbrev pub refusal :
      Project
      → String
      → String
      → Option ProjectLifecycleJob
      → Option String
      → Option (Reply OperationResponse)
  refusal project slug confirmation existing token =
      if is_deleting project.lifecycle_status
      then some (http 409 "Project deletion already has a different request")
      else if not (is_deletable project.lifecycle_status)
      then some (http 409 "Project is not in a deletable state")
      else if not (confirmation == slug)
      then some (http 400 "Project slug confirmation does not match")
      else elim existing [
        | some _ ↦ some mismatch
        | none ↦ elim token [
          | none ↦ some invalid_grant
          | some t ↦ if is_empty t then some invalid_grant else none
        ]
      ]

  abbrev pub token_text : Option String → String
  token_text none = ""
  token_text (some t) = t

  -- A replay of the same request, if the key is known.
  abbrev pub delete_replay :
      User → Project → String → Option ProjectLifecycleJob → Option ProjectLifecycleJob
  delete_replay actor project fingerprint none = none
  delete_replay actor project fingerprint (some j) =
      if is_delete_replay actor project fingerprint j then some j else none

  unfoldable pub request_project_deletion :
      (Db → Db)
      → RetryGenerated
      → ℕ
      → User
      → String
      → String
      → String
      → Option String
      → Db
      → Reply OperationResponse × Db
  unfolding authorize_delete
  request_project_deletion others g updated_at actor slug confirmation key token db =
      elim (find_project_by_slug slug db) [
        | none ↦ (http 404 "Project not found", others db)
        | some project ↦
            let existing = find_job_by_key key db in
            elim (delete_replay actor project
              (delete_fingerprint sha256 actor.id project.id slug confirmation) existing) [
                | some j ↦ (answer (operation_response j), others db)
                | none ↦ elim (refusal project slug confirmation existing token) [
                  | some r ↦ (r, others db)
                  | none ↦
                      authorize_delete others g updated_at actor project slug confirmation key
                        (token_text token) db
                ]
              ]
      ]
