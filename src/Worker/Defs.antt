-- ===== src/Worker/Defs.antt =====
-- The worker, round by round.
--
-- What happens while a runner works is a list of moments in their order: a commit of the runner or of
-- another process, or a heartbeat of this worker. A heartbeat that raises cancels the runner. The
-- clock readings and the sampled jitter are arguments, and what is logged of a job's end is the value.
use conductor_data_platform.Prelude.{
  ℕ, String, Bool, true, false, Option, none, some, List, [], ◌∷◌, if◌then◌else◌,
}
use conductor_data_platform.Models.{Db, LifecycleOperation, provision, delete, reconcile}
use conductor_data_platform.Lifecycle.{Raised, job_ownership, runner_not_configured, value_error}
use conductor_data_platform.Outcome.{Outcome, returned, raised, Transaction}
use conductor_data_platform.Queue.{
  ClaimedJob, Backoff, heartbeat_job, complete_job, retry_or_fail_job, claim_next_job,
}

pub record WorkerOptions : Type 0 where
  pub lease_seconds : ℕ
  pub retry_base_seconds : ℕ
  pub retry_cap_seconds : ℕ
  -- the float comparison of retry_delay
  pub reaches_cap : ℕ → ℕ → ℕ → Bool

pub data Moment : Type 0 where
  work : (Db → Db) → Moment
  beat : ℕ → Moment

-- One execution of a runner: what happens meanwhile, and how the runner ends.
pub record Execution : Type 0 where
  pub moments : List Moment
  pub result : Outcome (Unit {0})

abbrev pub Runner : Type 0
Runner = ClaimedJob → Execution

abbrev pub Registry : Type 0
Registry = LifecycleOperation → Option Runner

abbrev same_operation : LifecycleOperation → LifecycleOperation → Bool
same_operation provision provision = true
same_operation delete delete = true
same_operation reconcile reconcile = true
same_operation _ _ = false

unfoldable pub register : LifecycleOperation → Runner → Registry → Outcome Registry
register operation runner registry = elim (registry operation) [
  | some _ ↦ raised (value_error "Runner already registered")
  | none ↦ returned (λ o. if same_operation o operation then some runner else registry o)
]

unfoldable pub resolve : Registry → LifecycleOperation → Outcome Runner
resolve registry operation = elim (registry operation) [
  | some runner ↦ returned runner
  | none ↦ raised (runner_not_configured "No lifecycle runner configured for operation")
]

-- The events by which `process_one_job` reports the end of a job.
pub data Settlement : Type 0 where
  ownership_lost job_failed retry_scheduled job_succeeded : Settlement

-- `isinstance(error, JobOwnershipError)`
abbrev pub is_ownership : Raised → Bool
is_ownership (job_ownership m) = true
is_ownership _ = false

abbrev pub lost_or_raised : Raised → Outcome Settlement
lost_or_raised e = if is_ownership e then returned ownership_lost else raised e

module _ (worker_id : String) (options : WorkerOptions) (claimed : ClaimedJob) where
  -- `_run_with_heartbeats` from the start of the runner on.
  unfoldable pub run_moments : List Moment → Outcome (Unit {0}) → Transaction (Unit {0})
  run_moments [] result db = (result, db)
  run_moments (work f ∷ ms) result db = run_moments ms result (f db)
  run_moments (beat now ∷ ms) result db =
      let (r, db') =
        heartbeat_job claimed.id worker_id now options.lease_seconds claimed.attempt db in
      elim r [ returned _ ↦ run_moments ms result db' | raised e ↦ (raised e, db') ]

  unfoldable pub run_with_heartbeats : Registry → Transaction (Unit {0})
  unfolding resolve run_moments
  run_with_heartbeats registry db = elim (resolve registry claimed.operation) [
    | raised e ↦ (raised e, db)
    | returned runner ↦
        let execution = runner claimed in run_moments execution.moments execution.result db
  ]

  module _ (redact : String → String) (now jitter : ℕ) where
    abbrev pub backoff : Backoff
    backoff = record {
      base = options.retry_base_seconds;
      cap = options.retry_cap_seconds;
      jitter = jitter;
      reaches_cap = options.reaches_cap;
    }

    unfoldable pub complete : Transaction Settlement
    complete db =
        let (r, db') = complete_job claimed.id worker_id now claimed.attempt db in
        elim r [ returned _ ↦ (returned job_succeeded, db') | raised e ↦ (lost_or_raised e, db') ]

    unfoldable pub settle_error : Raised → Transaction Settlement
    settle_error error db =
        if is_ownership error
        then (returned ownership_lost, db)
        else let (r, db') =
            retry_or_fail_job redact claimed.id worker_id now error claimed.attempt backoff db in
          elim r [
            | returned terminal ↦ (returned (if terminal then job_failed else retry_scheduled), db')
            | raised e ↦ (lost_or_raised e, db')
          ]

    -- What follows the run of a job, by how it has ended.
    unfoldable pub conclude : Outcome (Unit {0}) → Transaction Settlement
    unfolding complete settle_error
    conclude (returned _) = complete
    conclude (raised error) = settle_error error

-- The values that one round reads from its surroundings.
pub record Round : Type 0 where
  pub id_le : String → String → Bool
  pub locked : String → Bool
  pub claimed_at : ℕ
  pub ended_at : ℕ
  pub jitter : ℕ

-- `none` in the result is a claim out of fuel; else `none` is False, no job was due, and a settlement is
-- True.
abbrev pub Processed : Type 0
Processed = Option (Outcome (Option Settlement))

module _ (redact : String → String) (worker_id : String) (options : WorkerOptions) where
  unfoldable pub process_claimed : Registry → Round → ClaimedJob → Db → Outcome Settlement × Db
  unfolding run_with_heartbeats conclude
  process_claimed registry round claimed db =
      let (r, db') = run_with_heartbeats worker_id options claimed registry db in
      conclude worker_id options claimed redact round.ended_at round.jitter r db'

  abbrev pub as_processed : Outcome Settlement × Db → Processed × Db
  as_processed (returned s, db) = (some (returned (some s)), db)
  as_processed (raised e, db) = (some (raised e), db)

  unfoldable pub process_one_job : Registry → Round → Db → Processed × Db
  unfolding process_claimed
  process_one_job registry round db =
      let (r, db') =
        claim_next_job round.id_le round.locked worker_id round.claimed_at options.lease_seconds
          db in
      elim r [
        | none ↦ (none, db')
        | some (raised e) ↦ (some (raised e), db')
        | some (returned none) ↦ (some (returned none), db')
        | some (returned (some claimed)) ↦ as_processed (process_claimed registry round claimed db')
      ]

  -- `run_worker` over the rounds until its stop event is set; `false` is an exception that ends it.
  unfoldable pub run_worker : Bool → Registry → List Round → Db → Bool × Db
  unfolding process_one_job
  run_worker once registry [] db = (true, db)
  run_worker once registry (round ∷ rounds) db =
      let (r, db') = process_one_job registry round db in
      elim r [
        | none ↦ (false, db')
        | some (raised e) ↦ (false, db')
        | some (returned _) ↦ elim once [
          | true ↦ (true, db')
          | false ↦ run_worker once registry rounds db'
        ]
      ]
