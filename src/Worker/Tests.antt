-- ===== src/Worker/Tests.antt =====
-- A worker on one waiting job, and the theorems there.
use conductor_data_platform.Prelude.{leb, ◌*◌, ◌^◌}
use conductor_data_platform.Prelude.{
  String, String-discrete, ◌≡◌, ◌↔◌, refl, true, false, none, some, List, [], ◌∷◌, arith, ==-refl,
}
use conductor_data_platform.Models.{
  Db, ProjectLifecycleJob, provision, delete, reconcile, pending, save_job,
}
use conductor_data_platform.Outcome.{Outcome, returned, raised}
use conductor_data_platform.Queue.{
  owns, claimed_row, claimed_job, completed, claim_loop, claim_next_job, complete_job,
  heartbeat_job, select_due, not_owner,
}
use conductor_data_platform.Queue.Lease.{Owned, Stale}
use conductor_data_platform.Worker.Defs.{
  WorkerOptions, Moment, Registry, Round, job_succeeded, ownership_lost, run_moments, conclude,
  process_one_job,
}
use conductor_data_platform.Worker.Settled.{conclude_iff}
use conductor_data_platform.Worker.Lost.{lost_lease-stops}

abbrev waiting_job : ProjectLifecycleJob
waiting_job = record {
  id = "a";
  project_id = "p";
  operation = provision;
  status = pending;
  current_step = none;
  attempt = 0;
  max_attempts = 2;
  available_at = 10;
  locked_by = none;
  lock_expires_at = none;
  heartbeat_at = none;
  idempotency_key = "k";
  request_fingerprint = "f";
  requested_by = some "u";
  correlation_id = "c";
  error_code = none;
  error_message = none;
  created_at = 1;
  started_at = none;
  finished_at = none;
}

abbrev tables : List ProjectLifecycleJob → Db
tables jobs = record {
  users = [];
  roles = [];
  permissions = [];
  projects = [];
  members = [];
  environments = [];
  git_configs = [];
  deployments = [];
  resources = [];
  jobs = jobs;
  grants = [];
  audit = [];
}

abbrev options : WorkerOptions
options = record {
  lease_seconds = 5;
  retry_base_seconds = 5;
  retry_cap_seconds = 300;
  reaches_cap = λ attempt base cap. leb cap (base * 2 ^ attempt);
}

-- A runner that takes one heartbeat and returns.
abbrev runners : Registry
runners provision = some (λ claimed. record { moments = Moment.beat 32 ∷ []; result = returned tt })
runners delete = none
runners reconcile = none

abbrev round : Round
round = record {
  id_le = λ a b. true;
  locked = λ a. false;
  claimed_at = 30;
  ended_at = 34;
  jitter = 1;
}

abbrev keep : String → String
keep s = s

-- The heartbeat at 32 keeps the lease until the job is completed at 34.
completes_after_beat :
    (process_one_job keep "w" options runners round (tables (waiting_job ∷ []))).0
    ≡ some (returned (some job_succeeded))
unfolding process_one_job claim_next_job claim_loop select_due heartbeat_job String-discrete
    complete_job
completes_after_beat = refl

-- A lease that is over when the runner returns.
abbrev leased : ProjectLifecycleJob
leased = claimed_row "w" 30 5 waiting_job

at_40-Stale : Stale "a" "w" 1 40 (tables (leased ∷ []))
unfolding owns
at_40-Stale j e = ground (arith, ==-refl "a")

conclude_iff_example :
    (((conclude "w" options
          (claimed_job "w" leased)
          keep
          34
          1
          (returned tt)
          (tables (leased ∷ []))).0
        ≡ returned job_succeeded)
      ↔ ((◌≡◌ {A = Outcome (Unit {0})} (returned tt) (returned tt))
          × Owned "a" "w" 1 34 (tables (leased ∷ []))))
    × ((o : Owned "a" "w" 1 34 (tables (leased ∷ [])))
        → ◌≡◌ {A = Outcome (Unit {0})} (returned tt) (returned tt)
        → (conclude "w" options
            (claimed_job "w" leased)
            keep
            34
            1
            (returned tt)
            (tables (leased ∷ []))).1
          ≡ save_job (completed 34 o.job) (tables (leased ∷ [])))
conclude_iff_example =
    conclude_iff keep "w" options (claimed_job "w" leased) 34 1 (returned tt) (tables (leased ∷ []))

-- The runner has worked once before the lease is found to be over, and would empty the table behind that.
lost_lease-stops_example :
    (run_moments "w" options
        (claimed_job "w" leased)
        (Moment.work (λ db. db) ∷ Moment.beat 40 ∷ Moment.work (λ db. tables []) ∷ [])
        (returned tt)
        (tables (leased ∷ []))
      ≡ (raised not_owner, tables (leased ∷ [])))
    × (conclude "w" options
          (claimed_job "w" leased)
          keep
          41
          1
          (raised not_owner)
          (tables (leased ∷ []))
        ≡ (returned ownership_lost, tables (leased ∷ [])))
unfolding run_moments
lost_lease-stops_example =
    lost_lease-stops "w" options (claimed_job "w" leased) keep (Moment.work (λ db. db) ∷ [])
      (Moment.work (λ db. tables []) ∷ []) 40 41 1 (returned tt) (tables (leased ∷ []))
      (tables (leased ∷ [])) (omega arith) refl at_40-Stale
