-- ===== src/Operations/Created.antt =====
-- What create_project_operation leaves in the tables, and what it answers to the same request again.
use conductor_data_platform.Prelude.{
  String, ◌≡◌, ◌≢◌, refl, sym, ap, ◌∙◌, ◌⊎◌, inl, inr, true, false, Option, none, some, [], ◌∷◌,
  ◌++◌, arith, ◌==◌, any_row, Bool-cases, Option-cases,
}
use conductor_data_platform.Models.{
  Db, Project, ProjectDeployment, Role, ProjectLifecycleJob, AuditEvent, find_project,
  find_project_by_slug, find_role_by_name, text, provisioning, pending, provision, Environment,
  ProjectMember,
}
use conductor_data_platform.Lifecycle.Identity.{RuntimeIdentity, derive_runtime_identity}
use conductor_data_platform.Operations.Tables.{
  project_conflicts, job_conflicts, insert_project, insert_job, find_job_by_key, requested_event,
}
use conductor_data_platform.Operations.Fingerprint.{project_create_fingerprint}
use conductor_data_platform.Operations.Create.{
  Created, created, credentials_not_configured, value_error, runtime_error, CreateRequest,
  Generated, new_project, new_operation, fingerprint_of, attempt_create, resolve_conflict,
  create_project_operation, default_environments, first_member, new_deployment,
}
use conductor_data_platform.Operations.Rows.{find_row-append_none, any_row-append, no_slug, no_key}

module _ (g : Generated) where
  -- The five credentials of the deployment are those of the request, encrypted.
  abbrev pub HasSealed : (String → Option String) → ProjectDeployment → Type 0
  HasSealed encrypt d =
      (encrypt g.db_password ≡ some d.airflow_db_password_encrypted)
      × (encrypt g.admin_password ≡ some d.airflow_admin_password_encrypted)
      × (encrypt g.dev_password ≡ some d.airflow_dev_password_encrypted)
      × (encrypt g.viewer_password ≡ some d.airflow_viewer_password_encrypted)
      × (encrypt g.integration_password ≡ some d.airflow_integration_password_encrypted)

  -- The deployment belongs to the project and has the names of its identity.
  abbrev pub IsPlaced : RuntimeIdentity → ProjectDeployment → Type 0
  IsPlaced identity d =
      (d.project_id ≡ g.project_id)
      × (d.generation ≡ 1)
      × (d.compose_project_name ≡ identity.compose_project_name)
      × (d.airflow_external_url ≡ identity.airflow_external_url)
      × (d.airflow_db_name ≡ identity.airflow_db_name)
      × (d.airflow_db_role ≡ identity.airflow_db_role)

  -- The protected production environment and the open development environment of the project
  abbrev pub AreFirst : Environment → Environment → Type 0
  AreFirst production development =
      (production.project_id ≡ g.project_id)
      × (production.name ≡ "production")
      × (production.branch_name ≡ "main")
      × (production.is_protected ≡ true)
      × (development.project_id ≡ g.project_id)
      × (development.name ≡ "development")
      × (development.branch_name ≡ "develop")
      × (development.is_protected ≡ false)

  module _ (r : CreateRequest) where
    abbrev pub IsProvisioning : Project → Type 0
    IsProvisioning p =
        (p.id ≡ g.project_id)
        × (p.name ≡ r.name)
        × (p.slug ≡ r.slug)
        × (p.description ≡ r.description)
        × (p.lifecycle_status ≡ provisioning)

    -- A pending provisioning of the project, without a lease and with no attempt made, under the key
    -- and the fingerprint of the request
    abbrev pub IsQueued : (String → String) → ProjectLifecycleJob → Type 0
    IsQueued sha256 j =
        (j.id ≡ g.operation_id)
        × (j.project_id ≡ g.project_id)
        × (j.operation ≡ provision)
        × (j.status ≡ pending)
        × (j.attempt ≡ 0)
        × (j.locked_by ≡ none)
        × (j.available_at ≡ g.now)
        × (j.idempotency_key ≡ r.idempotency_key)
        × (j.requested_by ≡ some r.requested_by.id)
        × (j.request_fingerprint
            ≡ project_create_fingerprint sha256 r.name r.slug r.description r.requested_by.id)

    abbrev pub IsFirstMember : String → ProjectMember → Type 0
    IsFirstMember role_id m =
        (m.project_id ≡ g.project_id) × (m.user_id ≡ r.requested_by.id) × (m.role_id ≡ role_id)

    abbrev pub IsRequested : AuditEvent → Type 0
    IsRequested e =
        (e.event_type ≡ "project.provision.requested")
        × (e.actor_user_id ≡ some r.requested_by.id)
        × (e.project_id_snapshot ≡ g.project_id)
        × (e.outcome ≡ "requested")
        × (e.metadata_json ≡ ("operation_id", text g.operation_id) ∷ [])

module _ (sha256 : String → String) (encrypt : String → Option String) (domain : String) where
  sealed_by :
      (g : Generated) (identity : RuntimeIdentity) (d : ProjectDeployment)
      → new_deployment sha256 encrypt domain g identity ≡ some d
      → HasSealed g encrypt d × IsPlaced g identity d
  unfolding new_deployment
  sealed_by g identity d h = (
    (ground arith, ground arith, ground arith, ground arith, ground arith),
    (ground arith, ground arith, ground arith, ground arith, ground arith, ground arith),
  )

  -- The rows of a request that was carried out.
  pub record IsCreated (g : Generated) (r : CreateRequest) (p : Project) (j : ProjectLifecycleJob)
      (db db' : Db) : Type 0 where
    pub project : p ≡ new_project g r
    pub operation : j ≡ new_operation sha256 encrypt domain g r
    pub role : Role
    pub role_found : find_role_by_name "project_admin" db ≡ some role
    pub identity : RuntimeIdentity
    pub identity_derived : derive_runtime_identity g.project_id r.slug domain ≡ some identity
    pub deployment : ProjectDeployment
    pub encrypted : new_deployment sha256 encrypt domain g identity ≡ some deployment
    pub no_project : any_row (project_conflicts p) db.projects ≡ false
    pub no_job : any_row (job_conflicts j) db.jobs ≡ false
    pub projects : db'.projects ≡ db.projects ++ p ∷ []
    pub jobs : db'.jobs ≡ db.jobs ++ j ∷ []
    pub environments : db'.environments ≡ db.environments ++ default_environments g
    pub members : db'.members ≡ db.members ++ first_member g r role.id ∷ []
    pub deployments : db'.deployments ≡ db.deployments ++ deployment ∷ []
    pub provisioned : IsProvisioning g r p
    pub queued : IsQueued g r sha256 j
    pub first_environments :
        (production : Environment) × (development : Environment) × (default_environments g
          ≡ production ∷ development ∷ [])
        × AreFirst g production development
    pub administered : IsFirstMember g r role.id (first_member g r role.id)
    pub sealed : HasSealed g encrypt deployment
    pub placed : IsPlaced g identity deployment
    pub event : AuditEvent
    pub requested : IsRequested g r event
    pub logged : db'.audit ≡ db.audit ++ event ∷ []

  created_db : Generated → CreateRequest → Role → ProjectDeployment → Db → Db
  created_db g r role deployment db = record db {
    projects = db.projects ++ new_project g r ∷ [];
    environments = db.environments ++ default_environments g;
    members = db.members ++ first_member g r role.id ∷ [];
    deployments = db.deployments ++ deployment ∷ [];
    jobs = db.jobs ++ new_operation sha256 encrypt domain g r ∷ [];
    audit =
        db.audit
        ++ requested_event "project.provision.requested" r.requested_by.id (new_project g r)
            g.correlation_id (("operation_id", text g.operation_id) ∷ [])
          ∷ [];
  }

  attempted :
      (g : Generated) (r : CreateRequest) (db db' : Db) (p : Project) (j : ProjectLifecycleJob)
      → attempt_create sha256 encrypt domain g r db ≡ some (created p j, db')
      → (any_row (project_conflicts (new_project g r)) db.projects ≡ false)
        × (any_row (job_conflicts (new_operation sha256 encrypt domain g r)) db.jobs ≡ false)
        × (p ≡ new_project g r)
        × (j ≡ new_operation sha256 encrypt domain g r)
        × ((role : Role) × (identity : RuntimeIdentity) × (deployment : ProjectDeployment)
            × (find_role_by_name "project_admin" db ≡ some role)
            × (derive_runtime_identity g.project_id r.slug domain ≡ some identity)
            × (new_deployment sha256 encrypt domain g identity ≡ some deployment)
            × (db' ≡ created_db g r role deployment db))
  unfolding attempt_create insert_project insert_job created_db
  attempted g r db db' p j h =
      elim (Bool-cases (any_row (project_conflicts (new_project g r)) db.projects)) [
        | inl c ↦ absurd (ground arith)
        | inr c ↦ elim (Option-cases (find_role_by_name "project_admin" db)) [
          | inl e ↦ absurd (ground arith)
          | inr (role, e) ↦
              elim (Option-cases (derive_runtime_identity g.project_id r.slug domain)) [
                | inl e' ↦ absurd (ground arith)
                | inr (identity, e') ↦
                    elim (Option-cases (new_deployment sha256 encrypt domain g identity)) [
                      | inl e'' ↦ absurd (ground arith)
                      | inr (deployment, e'') ↦
                          elim (Bool-cases (
                            any_row (job_conflicts (new_operation sha256 encrypt domain g r))
                              db.jobs)) [
                                | inl k ↦ absurd (ground arith)
                                | inr k ↦ (
                                  c,
                                  k,
                                  ground arith,
                                  ground arith,
                                  (role, identity, deployment, e, e', e'', ground arith),
                                )
                              ]
                    ]
              ]
        ]
      ]

  is_created :
      (g : Generated) (r : CreateRequest) (db db' : Db) (p : Project) (j : ProjectLifecycleJob)
      → attempt_create sha256 encrypt domain g r db ≡ some (created p j, db')
      → IsCreated g r p j db db'
  unfolding created_db
  is_created g r db db' p j h =
      let (c, k, ep, ej, (role, identity, deployment, e, e', e'', s)) =
        attempted g r db db' p j h in
      record {
        project = ep;
        operation = ej;
        role = role;
        role_found = e;
        identity = identity;
        identity_derived = e';
        deployment = deployment;
        encrypted = e'';
        no_project = ap (λ q. any_row (project_conflicts q) db.projects) ep ∙ c;
        no_job = ap (λ i. any_row (job_conflicts i) db.jobs) ej ∙ k;
        projects = rw s (ap (λ x. db.projects ++ x ∷ []) (sym ep));
        jobs = rw s (ap (λ x. db.jobs ++ x ∷ []) (sym ej));
        environments = ap (λ d. d.environments) s;
        members = ap (λ d. d.members) s;
        deployments = ap (λ d. d.deployments) s;
        provisioned = rw ep (refl, refl, refl, refl, refl);
        queued = rw ej (refl, refl, refl, refl, refl, refl, refl, refl, refl, refl);
        first_environments = (_, _, refl, (refl, refl, refl, refl, refl, refl, refl, refl));
        administered = (refl, refl, refl);
        sealed = (sealed_by g identity deployment e'').0;
        placed = (sealed_by g identity deployment e'').1;
        event =
            requested_event "project.provision.requested" r.requested_by.id (new_project g r)
              g.correlation_id (("operation_id", text g.operation_id) ∷ []);
        logged = ap (λ d. d.audit) s;
        requested = (refl, refl, refl, refl, refl);
      }

  attempt_cases :
      (g : Generated) (r : CreateRequest) (db : Db)
      → (attempt_create sha256 encrypt domain g r db ≡ none)
        ⊎ ((c : Created) × (attempt_create sha256 encrypt domain g r db ≡ some (c, db))
            × ((p : Project) (j : ProjectLifecycleJob) → c ≢ created p j))
        ⊎ ((p : Project) × (j : ProjectLifecycleJob) × (db' : Db) × (attempt_create sha256 encrypt
                domain g r db
              ≡ some (created p j, db')))
  unfolding attempt_create insert_project insert_job created_db
  attempt_cases g r db =
      elim (Bool-cases (any_row (project_conflicts (new_project g r)) db.projects)) [
        | inl e ↦ inl (ground arith)
        | inr e ↦ elim (Option-cases (find_role_by_name "project_admin" db)) [
          | inl e' ↦ inr (
              inl (
                runtime_error "Required project_admin role is not configured",
                ground arith,
                λ p j q. ground arith,
              ))
          | inr (role, e') ↦
              elim (Option-cases (derive_runtime_identity g.project_id r.slug domain)) [
                | inl e'' ↦ inr (
                    inl (
                      value_error "project_id must be exactly 32 lowercase hexadecimal characters",
                      ground arith,
                      λ p j q. ground arith,
                    ))
                | inr (identity, e'') ↦
                    elim (Option-cases (new_deployment sha256 encrypt domain g identity)) [
                      | inl d ↦
                          inr
                            (inl (credentials_not_configured, ground arith, λ p j q. ground arith))
                      | inr (deployment, d) ↦
                          elim (Bool-cases (
                            any_row (job_conflicts (new_operation sha256 encrypt domain g r))
                              db.jobs)) [
                                | inl k ↦ inl (ground arith)
                                | inr k ↦ inr (
                                    inr (
                                      new_project g r,
                                      new_operation sha256 encrypt domain g r,
                                      created_db g r role deployment db,
                                      ground arith,
                                    ))
                              ]
                    ]
              ]
        ]
      ]

  -- What the handler of the IntegrityError answers.
  pub resolved :
      (r : CreateRequest) (db : Db) (p : Project) (j : ProjectLifecycleJob)
      → resolve_conflict sha256 encrypt domain r db ≡ created p j
      → (find_job_by_key r.idempotency_key db ≡ some j)
        × (j.request_fingerprint ≡ fingerprint_of sha256 encrypt domain r)
        × (find_project j.project_id db ≡ some p)
  unfolding resolve_conflict
  resolved r db p j h = elim (Option-cases (find_job_by_key r.idempotency_key db)) [
    | inl e ↦ elim (Option-cases (find_project_by_slug r.slug db)) [
      | inl e' ↦ absurd (ground arith)
      | inr (q, e') ↦ absurd (ground arith)
    ]
    | inr (k, e) ↦ elim (Option-cases (find_project k.project_id db)) [
      | inl e' ↦ absurd (ground arith)
      | inr (q, e') ↦ (ground arith, ground arith, ground arith)
    ]
  ]

  ran :
      (g : Generated) (r : CreateRequest) (db : Db) (result : Created × Db)
      → attempt_create sha256 encrypt domain g r db ≡ some result
      → create_project_operation sha256 encrypt domain g r db ≡ result
  unfolding create_project_operation
  ran g r db result e = ground arith

  rolled_back :
      (g : Generated) (r : CreateRequest) (db : Db)
      → attempt_create sha256 encrypt domain g r db ≡ none
      → create_project_operation sha256 encrypt domain g r db
        ≡ (resolve_conflict sha256 encrypt domain r db, db)
  unfolding create_project_operation
  rolled_back g r db e = ground arith

  -- A request either is carried out in full - the project being provisioned, its two environments, the
  -- requester as its administrator, its deployment with encrypted credentials, a pending job and one audit
  -- event - or leaves every table as it was; in the second case an answer with a project and a job is the
  -- replay of the request that has used the key before, with the same fingerprint.
  pub create_project_operation-IsCreated :
      (g : Generated) (r : CreateRequest) (db : Db)
      → let (c, db') = create_project_operation sha256 encrypt domain g r db in
        ((p : Project) × (j : ProjectLifecycleJob) × (c ≡ created p j) × IsCreated g r p j db db')
        ⊎ ((db' ≡ db)
            × ((p : Project) (j : ProjectLifecycleJob)
                → c ≡ created p j
                → (find_job_by_key r.idempotency_key db ≡ some j)
                  × (j.request_fingerprint ≡ fingerprint_of sha256 encrypt domain r)
                  × (find_project j.project_id db ≡ some p)))
  create_project_operation-IsCreated g r db = elim (attempt_cases g r db) [
    | inl e ↦ rw (rolled_back g r db e) (inr (refl, resolved r db))
    | inr (inl (c, e, other)) ↦
        rw (ran g r db (c, db) e) (inr (refl, λ p j q. absurd (other p j q)))
    | inr (inr (p, j, db', e)) ↦
        rw (ran g r db (created p j, db') e) (inl (p, j, refl, is_created g r db db' p j e))
  ]

  refused_again :
      (g g' : Generated) (r : CreateRequest) (p : Project) (j : ProjectLifecycleJob) (db db' : Db)
      → IsCreated g r p j db db'
      → attempt_create sha256 encrypt domain g' r db' ≡ none
  unfolding attempt_create insert_project
  refused_again g g' r p j db db' h =
      let same : p.slug ≡ r.slug = ground (arith, h.project) in
      let taken : any_row (project_conflicts (new_project g' r)) db'.projects ≡ true =
        rw h.projects (
          any_row-append (project_conflicts (new_project g' r)) db.projects p
            (ground (arith, same))) in
      ground (arith, taken)

  found_again :
      (g : Generated) (r : CreateRequest) (p : Project) (j : ProjectLifecycleJob) (db db' : Db)
      → IsCreated g r p j db db'
      → resolve_conflict sha256 encrypt domain r db' ≡ created p j
  unfolding resolve_conflict
  found_again g r p j db db' h =
      let id = (no_slug p db.projects h.no_project).1 in
      let key = no_key j db.jobs h.no_job in
      let same_key : j.idempotency_key ≡ r.idempotency_key = ground (arith, h.operation) in
      let same_id : j.project_id ≡ p.id = ground (arith, h.operation, h.project) in
      let print : j.request_fingerprint ≡ fingerprint_of sha256 encrypt domain r =
        ground (arith, h.operation) in
      let job : find_job_by_key r.idempotency_key db' ≡ some j = rw h.jobs (
        find_row-append_none (λ k. k.idempotency_key == r.idempotency_key) db.jobs j
          (ground (arith, key, same_key)) (ground (arith, same_key))) in
      let project : find_project j.project_id db' ≡ some p = rw h.projects (
        find_row-append_none (λ q. q.id == j.project_id) db.projects p (ground (arith, id, same_id))
          (ground (arith, same_id))) in
      ground (arith, job, project, print)

  -- A request with a new key that was carried out is idempotent: sent again, whatever ids and credentials
  -- are generated then, it answers with the same project and the same job and changes no table.
  pub create_project_operation_idempotent :
      (g g' : Generated) (r : CreateRequest) (p : Project) (j : ProjectLifecycleJob) (db db' : Db)
      → find_job_by_key r.idempotency_key db ≡ none
      → create_project_operation sha256 encrypt domain g r db ≡ (created p j, db')
      → create_project_operation sha256 encrypt domain g' r db' ≡ (created p j, db')
  create_project_operation_idempotent g g' r p j db db' new h = elim (attempt_cases g r db) [
    | inl e ↦
        let same = ap (λ x. x.0) (sym (rolled_back g r db e) ∙ h) in
        absurd (ground (arith, (resolved r db p j same).0))
    | inr (inl (c, e, other)) ↦ absurd (other p j (ap (λ x. x.0) (sym (ran g r db (c, db) e) ∙ h)))
    | inr (inr (q, k, db₁, e)) ↦
        let whole =
          is_created g r db db' p j (e ∙ ap some (sym (ran g r db (created q k, db₁) e) ∙ h)) in
        rolled_back g' r db' (refused_again g g' r p j db db' whole)
        ∙ ap (λ c. (c, db')) (found_again g r p j db db' whole)
  ]
