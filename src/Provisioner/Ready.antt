-- ===== src/Provisioner/Ready.antt =====
-- When a project becomes ready, and what a failed attempt leaves.
use mathlib.Core.Path.{subst}
use conductor_data_platform.Prelude.{
  ℕ, ◌<◌, String, ◌≡◌, refl, sym, ap, ◌∙◌, ◌⊎◌, inl, inr, true, Option, none, some, List, [], ◌∷◌,
  arith, Bool-cases, Option-cases, In,
}
use conductor_data_platform.Models.{
  Db, running, LifecycleJobStatus, Project, ProjectDeployment, ProjectLifecycleJob, find_job,
  find_project, save_job, save_project, ready, provisioning, provision_failed,
}
use conductor_data_platform.Lifecycle.{Raised, job_ownership, foreign_resource_conflict}
use conductor_data_platform.Lifecycle.Transitions.{assert_transition}
use conductor_data_platform.Outcome.{Outcome, returned, raised, Transaction, ◌>>=◌}
use conductor_data_platform.Queue.{ClaimedJob}
use conductor_data_platform.Provisioner.Resources.{
  ObservedComposeResource, all_running, required_services, status_of, is_running_status,
}
use conductor_data_platform.Provisioner.Saga

module _ {A B : Type 0} (m : Transaction A) (f : A → Transaction B) where
  bind_returned :
      (b : B) (db db' : Db)
      → (m >>= f) db ≡ (returned b, db')
      → (a : A) × (mid : Db) × (m db ≡ (returned a, mid)) × (f a mid ≡ (returned b, db'))
  bind_returned b db db' h = go (m db) refl
    where
      go :
          (x : Outcome A × Db)
          → m db ≡ x
          → (a : A) × (mid : Db) × (m db ≡ (returned a, mid)) × (f a mid ≡ (returned b, db'))
      go (returned a, mid) e = (a, mid, e, ground (arith, e))
      go (raised r, mid) e = absurd (ground (arith, e))

abbrev pub not_resumable : Raised
not_resumable =
    foreign_resource_conflict "Provisioning project is not in a resumable lifecycle state"

running_each :
    (ss : List String) (observed : List ObservedComposeResource)
    → all_running ss observed ≡ true
    → (service : String) → In service ss
    → is_running_status (status_of service observed) ≡ true
unfolding all_running
running_each [] observed h service i = absurd i
running_each (s ∷ ss) observed h service (inl same) = rw (← same) (ground arith)
running_each (s ∷ ss) observed h service (inr i) = running_each ss observed (ground arith) service i

module _ (s : Saga.Surroundings) (claimed : ClaimedJob) where
  -- The worker holds the lease of the job's attempt at that time.
  abbrev pub HoldsLease : ℕ → ProjectLifecycleJob → Type 0
  HoldsLease now job =
      (job.project_id ≡ claimed.project_id)
      × (job.status ≡ running)
      × (job.locked_by ≡ some claimed.worker_id)
      × (job.attempt ≡ claimed.attempt)
      × ((until : ℕ) × (job.lock_expires_at ≡ some until) × (now < until))

  holds :
      (now : ℕ) (job : ProjectLifecycleJob)
      → Saga.is_claimed claimed now job ≡ true
      → HoldsLease now job
  holds now job h = go job.status job.lock_expires_at refl refl
    where
      go :
          (status : LifecycleJobStatus) (o : Option ℕ)
          → job.status ≡ status
          → job.lock_expires_at ≡ o
          → HoldsLease now job
      go status none p q = absurd (ground arith)
      go status (some until) p q =
          (ground arith, ground arith, ground arith, ground arith, (until, q, ground arith))

  -- A publication of the project in the tables `before`
  pub record IsPublication (before after : Db) : Type 0 where
    pub job : ProjectLifecycleJob
    pub job_found : find_job claimed.id before ≡ some job
    pub lease : HoldsLease (s.clock "ready") job
    pub project : Project
    pub project_found : find_project claimed.project_id before ≡ some project
    pub status :
        (project.lifecycle_status ≡ provisioning) ⊎ (project.lifecycle_status ≡ provision_failed)
    pub projects :
        after.projects
        ≡ (save_project (record project { lifecycle_status = ready }) before).projects

  -- A provisioning that was published: the tables of the publication are those that its steps have left,
  -- with what others committed before it.
  pub record IsPublished (db after : Db) : Type 0 where
    pub desired : Project × ProjectDeployment
    pub loaded : Db
    pub load : Saga.load s claimed db ≡ (returned desired, loaded)
    pub observed : List ObservedComposeResource
    pub up : Db
    pub steps :
        Saga.◌>>◌ (Saga.prepare s claimed desired.1) (Saga.bring_up s claimed desired.1) loaded
        ≡ (returned observed, up)
    pub inspected : s.after_ready ≡ returned observed
    pub services :
        (service : String)
        → In service required_services
        → is_running_status (status_of service observed) ≡ true
    pub publication : IsPublication (s.others "ready" up) after

  inspected_last :
      (d : ProjectDeployment) (db db' : Db) (answer : Outcome (List ObservedComposeResource))
      (observed : List ObservedComposeResource)
      → Saga.record_inspected s claimed d answer db ≡ (returned observed, db')
      → answer ≡ returned observed
  unfolding Saga.record_inspected
  inspected_last d db db' (returned rs) observed h = ground arith
  inspected_last d db db' (raised e) observed h = absurd (ground arith)

  may_publish :
      (p : Project)
      → assert_transition (Saga.restarted p).lifecycle_status ready ≡ none
      → (p.lifecycle_status ≡ provisioning) ⊎ (p.lifecycle_status ≡ provision_failed)
  unfolding assert_transition
  may_publish p h = ground arith

  published_project :
      (p : Project) (db db' : Db)
      → Saga.publish_project p db ≡ (returned tt, db')
      → ((p.lifecycle_status ≡ provisioning) ⊎ (p.lifecycle_status ≡ provision_failed))
        × (db' ≡ save_project (record p { lifecycle_status = ready }) db)
  unfolding Saga.publish_project
  published_project p db db' h =
      elim (Option-cases (assert_transition (Saga.restarted p).lifecycle_status ready)) [
        | inl e ↦ (may_publish p e, ground (arith, e))
        | inr (r, e) ↦ absurd (ground (arith, e))
      ]

  owned_row :
      (now : ℕ) (db db' : Db) (job : ProjectLifecycleJob)
      → Saga.locked_owned_job claimed now db ≡ (returned job, db')
      → (find_job claimed.id db ≡ some job) × (Saga.is_claimed claimed now job ≡ true) × (db' ≡ db)
  unfolding Saga.locked_owned_job
  owned_row now db db' job h = elim (Option-cases (find_job claimed.id db)) [
    | inl e ↦ absurd (ground (arith, e))
    | inr (k, e) ↦ elim (Bool-cases (Saga.is_claimed claimed now k)) [
      | inl c ↦
          let same : k ≡ job = ground (arith, e) in
          (ground (arith, e), rw (← same) c, ground (arith, e))
      | inr c ↦ absurd (ground (arith, e))
    ]
  ]

  finish : ProjectLifecycleJob → Transaction (Unit {0})
  finish job db = elim (find_project claimed.project_id db) [
    | none ↦ (raised (job_ownership "Lifecycle project no longer exists"), db)
    | some project ↦
        (Saga.publish_project project >>= λ _ db.
        (returned tt, save_job (record job { current_step = some "ready" }) db))
          db
  ]

  finished :
      (job : ProjectLifecycleJob) (db db' : Db)
      → finish job db ≡ (returned tt, db')
      → (project : Project) × (mid : Db) × (find_project claimed.project_id db ≡ some project)
        × (Saga.publish_project project db ≡ (returned tt, mid))
        × (db' ≡ save_job (record job { current_step = some "ready" }) mid)
  unfolding finish
  finished job db db' h = elim (Option-cases (find_project claimed.project_id db)) [
    | inl e ↦ absurd (ground (arith, e))
    | inr (p, e) ↦
        let (_, mid, q, r) =
          bind_returned (Saga.publish_project p)
            (λ _ db. (returned tt, save_job (record job { current_step = some "ready" }) db)) tt db
            db' (ground (arith, e)) in
        (p, mid, e, q, ground (arith, r))
  ]

  publication :
      (db db' : Db)
      → Saga.publish s claimed db ≡ (returned tt, db')
      → IsPublication (s.others "ready" db) db'
  unfolding Saga.publish Saga.publish_ready finish
  publication db db' h =
      let before = s.others "ready" db in
      let (job, mid, e, f) =
        bind_returned (Saga.locked_owned_job claimed (s.clock "ready")) finish tt before db' h in
      let (found, lease, same) = owned_row (s.clock "ready") before mid job e in
      let (p, last, g, q, t) = finished job mid db' f in
      let (status, u) = published_project p mid last q in
      record {
        job = job;
        job_found = found;
        lease = holds (s.clock "ready") job lease;
        project = p;
        project_found = ap (find_project claimed.project_id) (sym same) ∙ g;
        status = status;
        projects =
            ap (λ x. x.projects) t
            ∙ ap (λ x. x.projects) u
            ∙ ap (λ x. (save_project (record p { lifecycle_status = ready }) x).projects) same;
      }

  last_inspection :
      (d : ProjectDeployment) (db db' : Db) (observed : List ObservedComposeResource)
      → Saga.bring_up s claimed d db ≡ (returned observed, db')
      → s.after_ready ≡ returned observed
  unfolding Saga.bring_up
  last_inspection d db db' observed h =
      let (_, mid, _, f) =
        bind_returned (Saga.start_up s claimed d)
          (λ _. Saga.record_inspected s claimed d s.after_ready) observed db db' h in
      inspected_last d mid db' s.after_ready observed f

  all_ran :
      (observed : List ObservedComposeResource) (db db' : Db)
      → Saga.require_running s claimed observed db ≡ (returned tt, db')
      → (all_running required_services observed ≡ true) × (db' ≡ db)
  all_ran observed db db' h = (ground arith, ground arith)

  -- A provisioning that returns has published the project: the last inspection showed every required
  -- service running; in the tables that its steps had left and others had changed before the publication,
  -- the claimed job was running under this worker's lease of this attempt, which was not over, and the
  -- project, which was being provisioned or had failed to, was then made ready.
  pub provision-IsPublished :
      (db db' : Db) → Saga.provision s claimed db ≡ (returned tt, db') → IsPublished db db'
  unfolding Saga.provision
  provision-IsPublished db db' h =
      let ((p, d), loaded, l, f) =
        bind_returned (Saga.load s claimed)
          (λ (project, d).
            Saga.◌>>◌ (Saga.prepare s claimed d) (Saga.bring_up s claimed d) >>= λ observed.
            Saga.◌>>◌ (Saga.require_running s claimed observed) (Saga.publish s claimed))
          tt db db' h in
      let (observed, up, g, k) =
        bind_returned (Saga.◌>>◌ (Saga.prepare s claimed d) (Saga.bring_up s claimed d))
          (λ observed. Saga.◌>>◌ (Saga.require_running s claimed observed) (Saga.publish s claimed))
          tt loaded db' f in
      let (_, prepared, _, b) =
        bind_returned (Saga.prepare s claimed d) (λ _. Saga.bring_up s claimed d) observed loaded up
          g in
      let (_, checked, q, r) =
        bind_returned (Saga.require_running s claimed observed) (λ _. Saga.publish s claimed) tt up
          db' k in
      let (ran, same) = all_ran observed up checked q in
      record {
        desired = (p, d);
        loaded = loaded;
        load = l;
        observed = observed;
        up = up;
        steps = g;
        inspected = last_inspection d prepared up observed b;
        services = running_each required_services observed ran;
        publication =
            subst (λ x. IsPublication (s.others "ready" x) db') same (publication checked db' r);
      }
