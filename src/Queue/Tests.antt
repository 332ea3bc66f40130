-- ===== src/Queue/Tests.antt =====
-- Runs of the queue on a small set of tables, and the theorems at them.
use conductor_data_platform.Prelude.{leb, ◌*◌, ◌^◌}
use conductor_data_platform.Prelude.{◌⊎◌, inl, ◌≤◌}
use conductor_data_platform.Prelude.{
  ℕ, String, String-discrete, ◌≡◌, refl, inl, Bool, true, false, none, some, List, [], ◌∷◌, arith,
  All, ◌≢◌,
}
use conductor_data_platform.Models.{
  Db, ProjectLifecycleJob, Project, provision, pending, provisioning, provision_failed, failed,
}
use conductor_data_platform.Lifecycle.{
  timeout_error, invalid_compose, classify_lifecycle_error, permanent, retry_delay,
}
use conductor_data_platform.Outcome.{returned, raised}
use conductor_data_platform.Queue.Defs.{
  Backoff, heartbeat_job, complete_job, retry_or_fail_job, not_owner, owns, fail_job,
  lock_owned_job, schedule_retry, settle_failure,
}
use conductor_data_platform.Queue.Claim.{
  claim_next_job, claimed_job, claimed_row, claim_loop, select_due,
}
use conductor_data_platform.Queue.Rows.{by_id, UniqueIds}
use conductor_data_platform.Queue.JobStep.{IsWellFormed}
use conductor_data_platform.Queue.Order.{Taken, claim_next_job_total, claim_next_job-first}
use conductor_data_platform.Queue.Schedule.{
  Call, claim, heartbeat, settle, perform_all, Later, perform_all-IsWellFormed, perform_all-JobRun,
  perform_all-fenced,
}
use conductor_data_platform.Queue.Failure.{IsFailed, retry_or_fail_job-IsFailed}
use conductor_data_platform.Queue.Audit.{Extends, perform_all-audit}

abbrev project : Project
project = record {
  id = "p";
  name = "Sales";
  slug = "sales";
  description = none;
  self_approve_enabled = false;
  lifecycle_status = provisioning;
}

abbrev job : String → ℕ → ProjectLifecycleJob
job id at = record {
  id = id;
  project_id = "p";
  operation = provision;
  status = pending;
  current_step = none;
  attempt = 0;
  max_attempts = 2;
  available_at = at;
  locked_by = none;
  lock_expires_at = none;
  heartbeat_at = none;
  idempotency_key = id;
  request_fingerprint = "f";
  requested_by = some "u";
  correlation_id = "c";
  error_code = none;
  error_message = none;
  created_at = 1;
  started_at = none;
  finished_at = none;
}

abbrev tables : List ProjectLifecycleJob → Db
tables jobs = record {
  users = [];
  roles = [];
  permissions = [];
  projects = project ∷ [];
  members = [];
  environments = [];
  git_configs = [];
  deployments = [];
  resources = [];
  jobs = jobs;
  grants = [];
  audit = [];
}

abbrev waiting : Db
waiting = tables (job "b" 20 ∷ job "a" 10 ∷ [])

abbrev any_order : String → String → Bool
any_order s t = true

abbrev unlocked : String → Bool
unlocked s = false

abbrev leased : ProjectLifecycleJob
leased = claimed_row "w1" 30 5 (job "a" 10)

abbrev held_db : Db
held_db = tables (job "b" 20 ∷ leased ∷ [])

abbrev spent : ProjectLifecycleJob
spent = claimed_row "w2" 40 5 leased

abbrev policy : Backoff
policy = record {
  base = 5;
  cap = 300;
  jitter = 1;
  reaches_cap = λ attempt base cap. leb cap (base * 2 ^ attempt);
}

abbrev keep : String → String
keep s = s

claim_takes_a :
    claim_next_job any_order unlocked "w1" 30 5 waiting
    ≡ (some (returned (some (claimed_job "w1" leased))), held_db)
unfolding claim_next_job String-discrete claim_loop select_due
claim_takes_a = refl

-- A job whose last attempt has lost its lease is failed, and the next one is claimed.
claim_passes_spent :
    (claim_next_job any_order unlocked "w3" 50 5 (tables (spent ∷ job "b" 20 ∷ []))).0
    ≡ some (returned (some (claimed_job "w3" (claimed_row "w3" 50 5 (job "b" 20)))))
unfolding claim_next_job String-discrete claim_loop select_due fail_job
claim_passes_spent = refl

retry_waits :
    (retry_or_fail_job keep "a" "w1" 31 (timeout_error "slow") 1 policy held_db).0 ≡ returned false
unfolding retry_or_fail_job String-discrete lock_owned_job settle_failure classify_lifecycle_error
    schedule_retry retry_delay
retry_waits = refl

held_IsWellFormed : All IsWellFormed held_db.jobs
held_IsWellFormed = ground arith

held_UniqueIds : UniqueIds held_db.jobs
unfolding String-discrete
held_UniqueIds = (refl, (refl, tt))

waiting_UniqueIds : UniqueIds waiting.jobs
unfolding String-discrete
waiting_UniqueIds = (refl, (refl, tt))

a_is_leased : by_id "a" held_db.jobs ≡ some leased
unfolding String-discrete
a_is_leased = refl

-- A worker dies, its lease lapses, and another takes over.
abbrev calls : List Call
calls =
    heartbeat "a" "w1" 31 5 1
    ∷ claim any_order unlocked "w2" 40 5
    ∷ settle "a" "w2" 41 (timeout_error "slow") 2 policy
    ∷ []

perform_all-IsWellFormed_example :
    All IsWellFormed (perform_all keep calls held_db).jobs
    × UniqueIds (perform_all keep calls held_db).jobs
perform_all-IsWellFormed_example =
    perform_all-IsWellFormed keep calls held_db held_IsWellFormed held_UniqueIds

perform_all-JobRun_example : Later leased "a" (perform_all keep calls held_db).jobs
perform_all-JobRun_example =
    perform_all-JobRun keep calls held_db "a" leased held_UniqueIds a_is_leased

abbrev ended : ProjectLifecycleJob
ended = record leased { status = failed; locked_by = none; lock_expires_at = none }

ended_found : by_id "a" (tables (ended ∷ [])).jobs ≡ some ended
unfolding String-discrete
ended_found = refl

perform_all-fenced_example :
    let db' = perform_all keep calls held_db in
    (heartbeat_job "a" "w1" 32 5 0 db' ≡ (raised not_owner, db'))
    × (complete_job "a" "w1" 32 0 db' ≡ (raised not_owner, db'))
    × (retry_or_fail_job keep "a" "w1" 32 (timeout_error "slow") 0 policy db'
        ≡ (raised not_owner, db'))
perform_all-fenced_example =
    perform_all-fenced keep calls held_db "a" "w1" 0 32 5 (timeout_error "slow") policy leased
      held_UniqueIds a_is_leased (omega arith) (omega arith)

claim_next_job_total_example : (claim_next_job any_order unlocked "w1" 30 5 waiting).0 ≢ none
claim_next_job_total_example = claim_next_job_total any_order unlocked "w1" 30 5 waiting

claimed_a :
    (claim_next_job any_order unlocked "w1" 30 5 waiting).0
    ≡ some (returned (some (claimed_job "w1" leased)))
unfolding claim_next_job String-discrete claim_loop select_due
claimed_a = refl

claim_next_job-first_example :
    Taken any_order unlocked "w1" 30 5
      (claimed_job "w1" leased)
      (job "b" 20)
      waiting.jobs
      (claim_next_job any_order unlocked "w1" 30 5 waiting).1.jobs
claim_next_job-first_example =
    claim_next_job-first any_order unlocked "w1" 30 5 waiting (claimed_job "w1" leased) (job "b" 20)
      waiting_UniqueIds (inl refl) (refl, refl, refl) claimed_a

abbrev retried_db : Db
retried_db = (retry_or_fail_job keep "a" "w1" 31 (timeout_error "slow") 1 policy held_db).1

retries :
    retry_or_fail_job keep "a" "w1" 31 (timeout_error "slow") 1 policy held_db
    ≡ (returned false, retried_db)
unfolding retry_or_fail_job String-discrete lock_owned_job settle_failure classify_lifecycle_error
    schedule_retry retry_delay
retries = refl

abbrev failed_db : Db
failed_db = (retry_or_fail_job keep "a" "w1" 31 (invalid_compose "bad") 1 policy held_db).1

fails :
    retry_or_fail_job keep "a" "w1" 31 (invalid_compose "bad") 1 policy held_db
    ≡ (returned true, failed_db)
unfolding retry_or_fail_job String-discrete lock_owned_job settle_failure classify_lifecycle_error
    fail_job
fails = refl

retry_or_fail_job-IsFailed_example :
    ((classify_lifecycle_error (invalid_compose "bad") ≡ permanent)
      ⊎ (leased.max_attempts ≤ leased.attempt))
    × (owns leased "w1" 1 31 ≡ true)
    × IsFailed keep "a" "w1" 31 1
        (invalid_compose "bad")
        policy
        leased
        provision_failed
        "project.provision.failed"
        held_db
        failed_db
retry_or_fail_job-IsFailed_example =
    retry_or_fail_job-IsFailed keep "a" "w1" 31 1 (invalid_compose "bad") policy held_db failed_db
      leased provision_failed "project.provision.failed" fails a_is_leased (inl (refl, refl, refl))

perform_all-audit_example : Extends held_db.audit (perform_all keep calls held_db).audit
perform_all-audit_example = perform_all-audit keep calls held_db
