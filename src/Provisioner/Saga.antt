-- ===== src/Provisioner/Saga.antt =====
-- The saga `provision`, its fences and its publication.
--
-- Everything outside the tables answers through arguments: what the database manager, the artifact
-- writer, the Compose client and the readiness checker return or raise, the clock at each fence, and
-- what other processes commit before each fence. The advisory lock of a project is not modelled.
use conductor_data_platform.Prelude.{
  ℕ, String, Bool, true, false, not, ◌&&◌, Option, none, some, List, [], ◌∷◌, eqb, if◌then◌else◌,
  ◌==◌, is_some_text,
}
use conductor_data_platform.Models.{
  Db, Project, ProjectDeployment, ProjectLifecycleJob, is_running, find_job, find_project,
  find_deployment, save_job, save_project, ProjectLifecycleStatus, provisioning, ready,
  provision_failed, is_provision_failed, database, database_role, proxy_route, JsonObject, text,
}
use conductor_data_platform.Lifecycle.{foreign_resource_conflict, job_ownership, runtime_error}
use conductor_data_platform.Lifecycle.Transitions.{assert_transition}
use conductor_data_platform.Outcome.{Outcome, returned, raised, Transaction, ◌>>=◌}
use conductor_data_platform.Queue.{ClaimedJob, not_owner, is_over}
use conductor_data_platform.Provisioner.Resources.{
  ObservedComposeResource, Observation, upsert_resource, record_observed, all_running,
  required_services, init_completed,
}

abbrev pub is_claimed : ClaimedJob → ℕ → ProjectLifecycleJob → Bool
is_claimed claimed now job =
    job.project_id == claimed.project_id
    && is_running job.status
    && is_some_text job.locked_by claimed.worker_id
    && eqb job.attempt claimed.attempt
    && not (is_over job.lock_expires_at now)

unfoldable pub locked_owned_job : ClaimedJob → ℕ → Transaction ProjectLifecycleJob
locked_owned_job claimed now db = elim (find_job claimed.id db) [
  | none ↦ (raised not_owner, db)
  | some job ↦ (if is_claimed claimed now job then returned job else raised not_owner, db)
]

abbrev pub is_resumable : ProjectLifecycleStatus → Bool
is_resumable provisioning = true
is_resumable provision_failed = true
is_resumable _ = false

-- Project and deployment of the claimed job, if the project may be provisioned.
unfoldable pub load_desired_state :
    ClaimedJob → ProjectLifecycleJob → Transaction (Project × ProjectDeployment)
load_desired_state claimed job db = elim (find_project claimed.project_id db) [
  | none ↦
      (raised (foreign_resource_conflict "Provisioning project has incomplete desired state"), db)
  | some project ↦ elim (find_deployment claimed.project_id db) [
    | none ↦
        (raised (foreign_resource_conflict "Provisioning project has incomplete desired state"), db)
    | some deployment ↦
        if not (is_resumable project.lifecycle_status)
        then (
          raised (
              foreign_resource_conflict
                "Provisioning project is not in a resumable lifecycle state"),
          db,
        )
        else if not (job.project_id == project.id)
        then (raised (job_ownership "Lifecycle job project does not match claimed project"), db)
        else (returned (project, deployment), db)
  ]
]

unfoldable pub load_claimed_state : ClaimedJob → ℕ → Transaction (Project × ProjectDeployment)
unfolding locked_owned_job load_desired_state
load_claimed_state claimed now = do
  job ← locked_owned_job claimed now
  load_desired_state claimed job

unfoldable pub set_step : ClaimedJob → ℕ → String → Transaction (Unit {0})
unfolding locked_owned_job
set_step claimed now step = do
  job ← locked_owned_job claimed now
  λ db. (returned tt, save_job (record job { current_step = some step }) db)

-- The transition back from a failed provisioning is allowed, so only the second one is asserted to pass.
abbrev pub restarted : Project → Project
restarted project =
    if is_provision_failed project.lifecycle_status
    then record project { lifecycle_status = provisioning }
    else project

unfoldable pub publish_project : Project → Transaction (Unit {0})
publish_project project db = elim (assert_transition (restarted project).lifecycle_status ready) [
  | some e ↦ (raised e, db)
  | none ↦ (returned tt, save_project (record project { lifecycle_status = ready }) db)
]

unfoldable pub publish_ready : ClaimedJob → ℕ → Transaction (Unit {0})
unfolding locked_owned_job publish_project
publish_ready claimed now = do
  job ← locked_owned_job claimed now
  λ db. elim (find_project claimed.project_id db) [
    | none ↦ (raised (job_ownership "Lifecycle project no longer exists"), db)
    | some project ↦
        (publish_project project >>= λ _ db.
        (returned tt, save_job (record job { current_step = some "ready" }) db))
          db
  ]

pub record ObservedDatabase : Type 0 where
  pub name : String
  pub owner : Option String

abbrev owner_metadata : Option String → JsonObject
owner_metadata none = []
owner_metadata (some owner) = ("owner", text owner) ∷ []

abbrev pub role_observation : ObservedDatabase → Observation
role_observation r = record {
  kind = database_role;
  logical_name = "role";
  provider_id = none;
  provider_name = r.name;
  observed_status = "present";
  metadata = owner_metadata r.owner;
}

abbrev pub database_observation : ObservedDatabase → Observation
database_observation r = record (role_observation r) { kind = database; logical_name = "database" }

pub record RuntimeArtifact : Type 0 where
  pub compose_path : String
  pub metadata : JsonObject

abbrev pub artifact_observation : RuntimeArtifact → Observation
artifact_observation a = record {
  kind = proxy_route;
  logical_name = "runtime_artifact";
  provider_id = none;
  provider_name = a.compose_path;
  observed_status = "rendered";
  metadata = a.metadata;
}

-- The answers of everything outside the tables during one attempt.
pub record Surroundings : Type 0 where
  pub clock : String → ℕ
  pub others : String → Db → Db
  pub role : Outcome ObservedDatabase
  pub database : Outcome ObservedDatabase
  pub artifact : Outcome RuntimeArtifact
  pub image : Outcome (Unit {0})
  pub validate : Outcome (Unit {0})
  pub init : Outcome (Unit {0})
  pub after_init : Outcome (List ObservedComposeResource)
  pub start : Outcome (Unit {0})
  pub after_start : Outcome (List ObservedComposeResource)
  pub wait_ready : Outcome (Unit {0})
  pub after_ready : Outcome (List ObservedComposeResource)

abbrev pub write : (Db → Db) → Transaction (Unit {0})
write f db = (returned tt, f db)

abbrev pub ask : {A : Type 0} → Outcome A → Transaction A
ask answer db = (answer, db)

infixl 5 ◌>>◌
abbrev pub ◌>>◌ : {A B : Type 0} → Transaction A → Transaction B → Transaction B
m >> n = m >>= λ _. n

-- Transactions one after the other, until one raises.
unfoldable pub in_order : List (Transaction (Unit {0})) → Transaction (Unit {0})
in_order [] = ask (returned tt)
in_order (t ∷ ts) = t >> in_order ts

module _ (s : Surroundings) (claimed : ClaimedJob) where
  -- A fenced step: what others have committed, then the lease and the name of the step.
  unfoldable pub enter_step : String → Transaction (Unit {0})
  enter_step step db = set_step claimed (s.clock step) step (s.others step db)

  unfoldable pub record_inspected :
      ProjectDeployment
      → Outcome (List ObservedComposeResource)
      → Transaction (List ObservedComposeResource)
  record_inspected d inspected =
      ask inspected >>= λ observed. write (record_observed d observed) >> ask (returned observed)

  -- A step that obtains a resource and records what was observed of it.
  unfoldable pub record_step :
      {A : Type 0}
      → String
      → Outcome A
      → (A → Observation)
      → ProjectDeployment
      → Transaction (Unit {0})
  record_step step answer observation d =
      enter_step step >> ask answer >>= λ a. write (upsert_resource d (observation a))

  unfoldable pub prepare : ProjectDeployment → Transaction (Unit {0})
  prepare d = in_order (
      record_step "database_role" s.role role_observation d
      ∷ record_step "database" s.database database_observation d
      ∷ record_step "configuration" s.artifact artifact_observation d
      ∷ enter_step "runtime_image"
      ∷ ask s.image
      ∷ ask s.validate
      ∷ [])

  unfoldable pub run_init_once : ProjectDeployment → Transaction (Unit {0})
  run_init_once d db =
      if init_completed d db
      then (returned tt, db)
      else (ask s.init >> record_inspected d s.after_init >> ask (returned tt)) db

  -- Initialization, services and readiness, in their order.
  unfoldable pub start_up : ProjectDeployment → Transaction (Unit {0})
  start_up d = in_order (
      enter_step "init"
      ∷ run_init_once d
      ∷ enter_step "services"
      ∷ ask s.start
      ∷ (record_inspected d s.after_start >> ask (returned tt))
      ∷ enter_step "airflow_readiness"
      ∷ ask s.wait_ready
      ∷ [])

  unfoldable pub bring_up : ProjectDeployment → Transaction (List ObservedComposeResource)
  bring_up d = start_up d >> record_inspected d s.after_ready

  abbrev pub require_running : List ObservedComposeResource → Transaction (Unit {0})
  require_running observed = ask (
      if all_running required_services observed
      then returned tt
      else raised (runtime_error "Required Airflow runtime services are not running"))

  unfoldable pub publish : Transaction (Unit {0})
  publish db = publish_ready claimed (s.clock "ready") (s.others "ready" db)

  unfoldable pub load : Transaction (Project × ProjectDeployment)
  load db = load_claimed_state claimed (s.clock "load") (s.others "load" db)

  unfoldable pub provision : Transaction (Unit {0})
  provision = load >>= λ (project, d).
      prepare d >> bring_up d >>= λ observed. require_running observed >> publish
