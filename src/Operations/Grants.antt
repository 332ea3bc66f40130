-- ===== src/Operations/Grants.antt =====
-- What a deletion request needs, and that its grant serves once.
use conductor_data_platform.Prelude.{
  ℕ, ◌<◌, String, ◌≡◌, refl, sym, ap, ◌∙◌, ◌⊎◌, inl, inr, true, false, Option, none, some, List, [],
  ◌∷◌, ◌++◌, arith, ◌==◌, find_row, any_row, Bool-cases, Option-cases,
}
use conductor_data_platform.Models.{
  Db, Project, User, ReauthGrant, ProjectLifecycleJob, AuditEvent, find_project_by_slug, deleting,
  save_project, ProjectLifecycleStatus, deletion_failed,
}
use conductor_data_platform.Lifecycle.Transitions.{is_allowed}
use conductor_data_platform.Http.{Reply, answer}
use conductor_data_platform.Reauth.{delete_action}
use conductor_data_platform.Operations.Fingerprint.{delete_fingerprint}
use conductor_data_platform.Operations.Tables.{insert_job, job_conflicts, find_job_by_key}
use conductor_data_platform.Operations.Provision.{
  OperationResponse, operation_response, RetryGenerated,
}
use conductor_data_platform.Operations.Deletion.{
  is_valid_grant, failed_deletion_boundary, consume, delete_job, enqueue_delete, authorize_delete,
  refusal, delete_replay, request_project_deletion, is_deletable, mark_deleting, deletion_event,
}

module _ (sha256 : String → String) where
  -- A deletion that was enqueued: its grant was the user's, for this project, unused, not expired and, after
  -- a failed deletion, issued since; the tables have the job, the project being deleted, the grant consumed
  -- and one audit event. `seen` are the tables at the reads, `before` those at the flush.
  pub record IsEnqueued (g : RetryGenerated) (updated_at : ℕ) (actor : User)
      (slug confirmation key token : String) (seen before after : Db) : Type 0 where
    pub project : Project
    pub found : find_project_by_slug slug seen ≡ some project
    pub confirmed : confirmation ≡ slug
    pub deletable : is_deletable project.lifecycle_status ≡ true
    pub allowed : is_allowed project.lifecycle_status deleting ≡ true
    pub grant : ReauthGrant
    pub grant_found : find_row (λ r. r.token_hash == sha256 token) seen.grants ≡ some grant
    pub of_actor : grant.user_id ≡ actor.id
    pub to_delete : grant.action ≡ delete_action
    pub of_project : grant.project_id ≡ project.id
    pub unused : grant.consumed_at ≡ none
    pub in_time : g.now < grant.expires_at
    pub fresh :
        project.lifecycle_status ≡ deletion_failed
        → failed_deletion_boundary updated_at project seen < grant.created_at
    pub no_conflict :
        any_row
          (job_conflicts (delete_job sha256 g actor project slug confirmation key))
          before.jobs
        ≡ false
    pub jobs :
        after.jobs ≡ before.jobs ++ delete_job sha256 g actor project slug confirmation key ∷ []
    pub projects :
        after.projects
        ≡ (save_project (record project { lifecycle_status = deleting }) before).projects
    pub grants : after.grants ≡ consume (sha256 token) g.now before.grants
    pub event : AuditEvent
    pub logged : after.audit ≡ before.audit ++ event ∷ []

  valid :
      (updated_at now : ℕ) (actor : User) (project : Project) (db : Db) (grant : ReauthGrant)
      → is_valid_grant updated_at now actor project db grant ≡ true
      → (grant.user_id ≡ actor.id)
        × (grant.action ≡ delete_action)
        × (grant.project_id ≡ project.id)
        × (grant.consumed_at ≡ none)
        × (now < grant.expires_at)
        × (project.lifecycle_status ≡ deletion_failed
            → failed_deletion_boundary updated_at project db < grant.created_at)
  unfolding is_valid_grant
  valid updated_at now actor project db grant h = elim (Option-cases grant.consumed_at) [
    | inl e ↦ (ground arith, ground arith, ground arith, e, ground arith, λ f. ground arith)
    | inr (at, e) ↦ absurd (ground arith)
  ]

  may_delete : (s : ProjectLifecycleStatus) → is_deletable s ≡ true → is_allowed s deleting ≡ true
  may_delete s h = ground arith

  may_go_on :
      (project : Project) (slug confirmation : String) (existing : Option ProjectLifecycleJob)
      (token : Option String)
      → refusal sha256 project slug confirmation existing token ≡ none
      → (is_deletable project.lifecycle_status ≡ true)
        × (confirmation ≡ slug)
        × ((t : String) × (token ≡ some t))
  may_go_on project slug confirmation (some j) token h = absurd (ground arith)
  may_go_on project slug confirmation none none h = absurd (ground arith)
  may_go_on project slug confirmation none (some t) h = (ground arith, ground arith, (t, refl))

  deleted_db : RetryGenerated → User → Project → String → String → String → String → Db → Db
  deleted_db g actor project slug confirmation key token db =
      record (mark_deleting project (sha256 token) g.now db) {
        jobs = db.jobs ++ delete_job sha256 g actor project slug confirmation key ∷ [];
        audit = db.audit ++ deletion_event g actor project ∷ [];
      }

  inserted :
      (g : RetryGenerated) (actor : User) (project : Project) (slug confirmation key token : String)
      (db : Db)
      → any_row (job_conflicts (delete_job sha256 g actor project slug confirmation key)) db.jobs
        ≡ false
      → enqueue_delete sha256 g actor project slug confirmation key (sha256 token) db ≡ (
        answer (operation_response (delete_job sha256 g actor project slug confirmation key)),
        deleted_db g actor project slug confirmation key token db,
      )
  unfolding enqueue_delete insert_job deleted_db
  inserted g actor project slug confirmation key token db k = ground arith

  enqueued :
      (g : RetryGenerated) (updated_at : ℕ) (actor : User) (project : Project)
      (slug confirmation key token : String) (seen before : Db) (grant : ReauthGrant)
      → find_project_by_slug slug seen ≡ some project
      → is_deletable project.lifecycle_status ≡ true
      → confirmation ≡ slug
      → find_row (λ r. r.token_hash == sha256 token) seen.grants ≡ some grant
      → is_valid_grant updated_at g.now actor project seen grant ≡ true
      → let (r, after) =
          enqueue_delete sha256 g actor project slug confirmation key (sha256 token) before in
        IsEnqueued g updated_at actor slug confirmation key token seen before after
        ⊎ (after ≡ before)
  unfolding enqueue_delete insert_job deleted_db
  enqueued g updated_at actor project slug confirmation key token seen before grant f d c e v =
      let (of_actor, to_delete, of_project, unused, in_time, fresh) =
        valid updated_at g.now actor project seen grant v in
      elim (Bool-cases (
        any_row (job_conflicts (delete_job sha256 g actor project slug confirmation key))
          before.jobs)) [
            | inl k ↦ inr (ground arith)
            | inr k ↦ rw (inserted g actor project slug confirmation key token before k) (
                inl (record {
                  project = project;
                  found = f;
                  confirmed = c;
                  deletable = d;
                  allowed = may_delete project.lifecycle_status d;
                  grant = grant;
                  grant_found = e;
                  of_actor = of_actor;
                  to_delete = to_delete;
                  of_project = of_project;
                  unused = unused;
                  in_time = in_time;
                  fresh = fresh;
                  no_conflict = k;
                  jobs = refl;
                  projects = refl;
                  grants = refl;
                  event = deletion_event g actor project;
                  logged = refl;
                }))
          ]

  module _ (others : Db → Db) (g : RetryGenerated) (updated_at : ℕ) (actor : User)
      (slug confirmation key token : String) (db : Db) where
    seen_grant : Option ReauthGrant
    seen_grant = find_row (λ r. r.token_hash == sha256 token) db.grants

    authorized_db : Project → Db
    authorized_db project =
        (authorize_delete sha256 others g updated_at actor project slug confirmation key token db).1

    no_grant : (project : Project) → seen_grant ≡ none → authorized_db project ≡ others db
    unfolding authorize_delete seen_grant authorized_db
    no_grant project e = ground (arith, e)

    bad_grant :
        (project : Project) (grant : ReauthGrant)
        → seen_grant ≡ some grant
        → is_valid_grant updated_at g.now actor project db grant ≡ false
        → authorized_db project ≡ others db
    unfolding authorize_delete seen_grant authorized_db
    bad_grant project grant e v = ground (arith, e)

    good_grant :
        (project : Project) (grant : ReauthGrant)
        → seen_grant ≡ some grant
        → is_valid_grant updated_at g.now actor project db grant ≡ true
        → authorized_db project
          ≡ (enqueue_delete sha256 g actor project slug confirmation key
              (sha256 token)
              (others db)).1
    unfolding authorize_delete seen_grant authorized_db
    good_grant project grant e v = ground (arith, e)

    authorized :
        (project : Project)
        → find_project_by_slug slug db ≡ some project
        → is_deletable project.lifecycle_status ≡ true
        → confirmation ≡ slug
        → IsEnqueued g updated_at actor slug confirmation key token db
            (others db)
            (authorized_db project)
          ⊎ (authorized_db project ≡ others db)
    unfolding seen_grant
    authorized project f d c = elim (Option-cases seen_grant) [
      | inl e ↦ inr (no_grant project e)
      | inr (grant, e) ↦
          elim (Bool-cases (is_valid_grant updated_at g.now actor project db grant)) [
            | inl v ↦ rw (good_grant project grant e v) (
                enqueued g updated_at actor project slug confirmation key token db (others db) grant
                  f d c e v)
            | inr v ↦ inr (bad_grant project grant e v)
          ]
    ]

    requested_db : Db
    requested_db =
        (request_project_deletion sha256 others g updated_at actor slug confirmation key
          (some token) db).1

    no_project : find_project_by_slug slug db ≡ none → requested_db ≡ others db
    unfolding request_project_deletion requested_db
    no_project e = ground (arith, e)

    replay_of : Project → Option ProjectLifecycleJob
    replay_of project =
        delete_replay sha256 actor project
          (delete_fingerprint sha256 actor.id project.id slug confirmation) (find_job_by_key key db)

    refusal_of : Project → Option (Reply OperationResponse)
    refusal_of project =
        refusal sha256 project slug confirmation (find_job_by_key key db) (some token)

    is_stopped :
        (project : Project)
        → find_project_by_slug slug db ≡ some project
        → (requested_db ≡ others db)
          ⊎ ((refusal_of project ≡ none) × (requested_db ≡ authorized_db project))
    unfolding request_project_deletion requested_db authorized_db replay_of refusal_of
    is_stopped project e = elim (Option-cases (replay_of project)) [
      | inr (j, r) ↦ inl (ground (arith, e, r))
      | inl r ↦ elim (Option-cases (refusal_of project)) [
        | inr (x, s) ↦ inl (ground (arith, e, r, s))
        | inl s ↦ inr (s, ground (arith, e, r, s))
      ]
    ]

  -- A deletion request with a token either enqueues the deletion, and then the project was deletable by an
  -- allowed transition, its slug was confirmed and the token was a valid grant, which it consumes; or it
  -- writes nothing.
  pub request_project_deletion-IsEnqueued :
      (others : Db → Db) (g : RetryGenerated) (updated_at : ℕ) (actor : User)
      (slug confirmation key token : String) (db : Db)
      → let (r, after) =
          request_project_deletion sha256 others g updated_at actor slug confirmation key
            (some token)
            db in
        IsEnqueued g updated_at actor slug confirmation key token db (others db) after
        ⊎ (after ≡ others db)
  unfolding requested_db authorized_db refusal_of
  request_project_deletion-IsEnqueued others g updated_at actor slug confirmation key token db =
      elim (Option-cases (find_project_by_slug slug db)) [
        | inl e ↦ inr (no_project others g updated_at actor slug confirmation key token db e)
        | inr (project, e) ↦
            elim (is_stopped others g updated_at actor slug confirmation key token db project e) [
              | inl same ↦ inr same
              | inr (s, same) ↦
                  let (d, c, _) =
                    may_go_on project slug confirmation (find_job_by_key key db) (some token) s in
                  elim (authorized others g updated_at actor slug confirmation key token db project
                    e d c) [
                      | inl whole ↦ inl (rw same whole)
                      | inr none_written ↦ inr (same ∙ none_written)
                    ]
            ]
      ]

  consumed :
      (now : ℕ) (token_hash : String) (grants : List ReauthGrant) (r : ReauthGrant)
      → find_row (λ r. r.token_hash == token_hash) (consume token_hash now grants) ≡ some r
      → r.consumed_at ≡ some now
  consumed now token_hash [] r h = cc
  consumed now token_hash (x ∷ xs) r h = ground (arith, consumed now token_hash xs r)

  -- A token serves once: after a deletion that it has enqueued, no deletion request with this token, of any
  -- user, for any project, with any key, writes anything.
  pub request_project_deletion_once :
      (g g' : RetryGenerated) (updated_at updated_at' : ℕ) (actor actor' : User)
      (slug slug' confirmation confirmation' key key' token : String) (seen before after : Db)
      (others : Db → Db)
      → IsEnqueued g updated_at actor slug confirmation key token seen before after
      → (request_project_deletion sha256 others g' updated_at' actor' slug' confirmation' key'
          (some token)
          after).1
        ≡ others after
  request_project_deletion_once g g' updated_at updated_at' actor actor' slug slug' confirmation
        confirmation' key key' token seen before after others h =
      elim (request_project_deletion-IsEnqueued others g' updated_at' actor' slug' confirmation'
        key' token after) [
          | inr same ↦ same
          | inl again ↦ absurd (
              let used = consumed g.now (sha256 token) before.grants again.grant (
                ap (find_row (λ r. r.token_hash == sha256 token)) (sym h.grants)
                ∙ again.grant_found) in
              ground (arith, again.unused, used))
        ]
