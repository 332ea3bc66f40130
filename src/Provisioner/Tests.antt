-- ===== src/Provisioner/Tests.antt =====
-- One attempt that brings a project up, and one that meets it ready.
use conductor_data_platform.Prelude.{leb, ◌*◌, ◌^◌}
use conductor_data_platform.Prelude.{
  String, String-discrete, ◌≡◌, refl, false, none, some, List, [], ◌∷◌,
}
use conductor_data_platform.Models.{
  Db, Project, ProjectDeployment, ProjectLifecycleJob, provision, running, provisioning,
  provision_failed, ready, docker_compose, container,
}
use conductor_data_platform.Lifecycle.{classify_lifecycle_error, timeout_error}
use conductor_data_platform.Lifecycle.Transitions.{assert_transition}
use conductor_data_platform.Outcome.{returned, raised}
use conductor_data_platform.Queue.{
  ClaimedJob, claimed_job, retry_or_fail_job, fail_job, lock_owned_job, settle_failure,
}
use conductor_data_platform.Provisioner.Resources.{
  ObservedComposeResource, Observation, upsert_resource, init_completed, record_observed,
  mark_missing_required_services, all_running, status_of, lowers_to,
}
use conductor_data_platform.Provisioner.Saga
use conductor_data_platform.Provisioner.Failed.{provision-KeepsProjects}
use conductor_data_platform.Provisioner.Ready.{IsPublished, provision-IsPublished, not_resumable}

abbrev job : ProjectLifecycleJob
job = record {
  id = "a";
  project_id = "p";
  operation = provision;
  status = running;
  current_step = none;
  attempt = 1;
  max_attempts = 5;
  available_at = 10;
  locked_by = some "w";
  lock_expires_at = some 100;
  heartbeat_at = some 30;
  idempotency_key = "k";
  request_fingerprint = "f";
  requested_by = some "u";
  correlation_id = "c";
  error_code = none;
  error_message = none;
  created_at = 1;
  started_at = some 30;
  finished_at = none;
}

abbrev sales : Project
sales = record {
  id = "p";
  name = "Sales";
  slug = "sales";
  description = none;
  self_approve_enabled = false;
  lifecycle_status = provisioning;
}

abbrev deployment : ProjectDeployment
deployment = record {
  id = "d";
  project_id = "p";
  provisioner_kind = docker_compose;
  template_version = "v1";
  generation = 1;
  compose_project_name = "conductor-p-p";
  airflow_external_url = "https://sales.airflow.localhost";
  airflow_db_name = "conductor_airflow_p";
  airflow_db_role = "conductor_airflow_p";
  airflow_db_password_encrypted = "e";
  airflow_admin_user = "admin";
  airflow_admin_password_encrypted = "e";
  airflow_dev_user = "dev";
  airflow_dev_password_encrypted = "e";
  airflow_viewer_user = "viewer";
  airflow_viewer_password_encrypted = "e";
  airflow_integration_user = "integration";
  airflow_integration_password_encrypted = "e";
  parameters = [];
}

abbrev tables : Project → Db
tables project = record {
  users = [];
  roles = [];
  permissions = [];
  projects = project ∷ [];
  members = [];
  environments = [];
  git_configs = [];
  deployments = deployment ∷ [];
  resources = [];
  jobs = job ∷ [];
  grants = [];
  audit = [];
}

abbrev service : String → ObservedComposeResource
service name = record {
  kind = container;
  logical_name = name;
  provider_id = none;
  provider_name = name;
  observed_status = "Running";
  labels = [];
}

abbrev all_up : List ObservedComposeResource
all_up =
    service "project-redis"
    ∷ service "airflow-api-server"
    ∷ service "airflow-scheduler"
    ∷ service "airflow-dag-processor"
    ∷ service "airflow-worker"
    ∷ []

abbrev surroundings : Saga.Surroundings
surroundings = record {
  clock = λ step. 50;
  others = λ step db. db;
  role = returned (record { name = "conductor_airflow_p"; owner = none });
  database = returned (record { name = "conductor_airflow_p"; owner = some "conductor_airflow_p" });
  artifact = returned (record { compose_path = "/runtime/compose.yml"; metadata = [] });
  image = returned tt;
  validate = returned tt;
  init = returned tt;
  after_init = returned [];
  start = returned tt;
  after_start = returned all_up;
  wait_ready = returned tt;
  after_ready = returned all_up;
}

abbrev claimed : ClaimedJob
claimed = claimed_job "w" job

abbrev after : Db
after = (Saga.provision surroundings claimed (tables sales)).1

comes_up : Saga.provision surroundings claimed (tables sales) ≡ (returned tt, after)
unfolding Saga.provision Saga.load Saga.load_claimed_state Saga.load_desired_state
    Saga.locked_owned_job String-discrete Saga.prepare Saga.record_step Saga.in_order
    Saga.enter_step Saga.set_step upsert_resource Saga.bring_up Saga.start_up Saga.run_init_once
    init_completed Saga.record_inspected record_observed mark_missing_required_services all_running
    status_of lowers_to assert_transition Saga.publish Saga.publish_project Saga.publish_ready
comes_up = refl

provision-IsPublished_example : IsPublished surroundings claimed (tables sales) after
provision-IsPublished_example =
    provision-IsPublished surroundings claimed (tables sales) after comes_up

abbrev published : Project
published = record sales { lifecycle_status = ready }

-- What the queue makes of that error: the project that was ready has failed.
ready_becomes_failed :
    (retry_or_fail_job
      (λ m. m)
      "a"
      "w"
      50
      not_resumable
      1
      (record {
        base = 5;
        cap = 60;
        jitter = 1;
        reaches_cap = λ attempt base cap. leb cap (base * 2 ^ attempt);
      })
      (tables published)).1.projects
    ≡ record sales { lifecycle_status = provision_failed } ∷ []
unfolding retry_or_fail_job lock_owned_job String-discrete settle_failure classify_lifecycle_error
    fail_job
ready_becomes_failed = refl

abbrev observation : Observation
observation = Saga.role_observation (record { name = "conductor_airflow_p"; owner = none })

-- Airflow does not become ready in time.
abbrev too_slow : Saga.Surroundings
too_slow = record surroundings { wait_ready = raised (timeout_error "slow") }

abbrev after_timeout : Db
after_timeout = (Saga.provision too_slow claimed (tables sales)).1

times_out :
    Saga.provision too_slow claimed (tables sales) ≡ (raised (timeout_error "slow"), after_timeout)
unfolding Saga.provision Saga.load Saga.load_claimed_state Saga.load_desired_state
    Saga.locked_owned_job String-discrete Saga.prepare Saga.record_step Saga.in_order
    Saga.enter_step Saga.set_step upsert_resource Saga.bring_up Saga.start_up Saga.run_init_once
    init_completed Saga.record_inspected record_observed mark_missing_required_services status_of
    lowers_to
times_out = refl

provision-KeepsProjects_example : after_timeout.projects ≡ sales ∷ []
provision-KeepsProjects_example =
    provision-KeepsProjects too_slow claimed (tables sales) after_timeout (timeout_error "slow")
      (λ step db. refl) times_out
