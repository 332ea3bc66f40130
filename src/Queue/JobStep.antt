-- ===== src/Queue/JobStep.antt =====
-- What the queue promises of one job row, with no tables: the steps that a row may take, the
-- well-formed rows, and the runs of steps.
use conductor_data_platform.Prelude.{
  ℕ, ◌≤◌, ◌<◌, String, ◌≡◌, ◌≢◌, refl, Bool, true, false, none, arith,
}
use conductor_data_platform.Models.{
  is_active_status, ProjectLifecycleJob, LifecycleJobStatus, pending, running, retry_wait,
  succeeded, failed,
}
use conductor_data_platform.Lifecycle.{Raised}
use conductor_data_platform.Queue.Defs.{
  owns, extended, completed, failed_row, retry_row, is_terminal,
}
use conductor_data_platform.Queue.Claim.{is_due, is_spent, claimed_row}

pub data JobStep (j j' : ProjectLifecycleJob) : Type 0 where
  claim :
      (worker : String) (now lease : ℕ)
      → is_due now j ≡ true
      → is_spent j ≡ false
      → j' ≡ claimed_row worker now lease j
      → JobStep j j'
  expire :
      (now : ℕ) (code message : String)
      → is_due now j ≡ true
      → is_spent j ≡ true
      → j' ≡ failed_row now code message j
      → JobStep j j'
  heartbeat :
      (worker : String) (n now lease : ℕ)
      → owns j worker n now ≡ true
      → j' ≡ extended now lease j
      → JobStep j j'
  complete :
      (worker : String) (n now : ℕ)
      → owns j worker n now ≡ true
      → j' ≡ completed now j
      → JobStep j j'
  fail :
      (worker : String) (n now : ℕ) (e : Raised) (code message : String)
      → owns j worker n now ≡ true
      → is_terminal e j ≡ true
      → j' ≡ failed_row now code message j
      → JobStep j j'
  retry :
      (worker : String) (n now delay : ℕ) (e : Raised) (code message : String)
      → owns j worker n now ≡ true
      → is_terminal e j ≡ false
      → j' ≡ retry_row now delay code message j
      → JobStep j j'

-- What the status of a row says of its other columns.
abbrev pub StatusIsWellFormed : LifecycleJobStatus → ProjectLifecycleJob → Type 0
StatusIsWellFormed pending j =
    (j.attempt < j.max_attempts) × (j.locked_by ≡ none) × (j.lock_expires_at ≡ none)
StatusIsWellFormed retry_wait j =
    (j.attempt < j.max_attempts) × (j.locked_by ≡ none) × (j.lock_expires_at ≡ none)
StatusIsWellFormed running j =
    (0 < j.attempt)
    × (j.attempt ≤ j.max_attempts)
    × (j.locked_by ≢ none)
    × (j.lock_expires_at ≢ none)
    × (j.started_at ≢ none)
    × (j.finished_at ≡ none)
StatusIsWellFormed succeeded j =
    (j.locked_by ≡ none) × (j.lock_expires_at ≡ none) × (j.finished_at ≢ none)
StatusIsWellFormed failed j =
    (j.locked_by ≡ none)
    × (j.lock_expires_at ≡ none)
    × (j.finished_at ≢ none)
    × (j.error_code ≢ none)

abbrev pub IsWellFormed : ProjectLifecycleJob → Type 0
IsWellFormed j = StatusIsWellFormed j.status j

-- What no step changes.
pub record SameJob (j j' : ProjectLifecycleJob) : Type 0 where
  pub id : j'.id ≡ j.id
  pub project_id : j'.project_id ≡ j.project_id
  pub operation : j'.operation ≡ j.operation
  pub max_attempts : j'.max_attempts ≡ j.max_attempts
  pub idempotency_key : j'.idempotency_key ≡ j.idempotency_key
  pub request_fingerprint : j'.request_fingerprint ≡ j.request_fingerprint
  pub attempt : j.attempt ≤ j'.attempt

pub JobStep-SameJob : {j j' : ProjectLifecycleJob} → JobStep j j' → SameJob j j'
JobStep-SameJob (claim w now lease d s e) = ground arith
JobStep-SameJob (expire now c m d s e) = ground arith
JobStep-SameJob (heartbeat w n now lease o e) = ground arith
JobStep-SameJob (complete w n now o e) = ground arith
JobStep-SameJob (fail w n now x c m o t e) = ground arith
JobStep-SameJob (retry w n now d x c m o t e) = ground arith

-- A well-formed row by its status.
cases :
    (j : ProjectLifecycleJob) (st : LifecycleJobStatus)
    → j.status ≡ st
    → IsWellFormed j
    → StatusIsWellFormed st j
cases j st e h = rw (← e) h

pub JobStep-IsWellFormed :
    {j j' : ProjectLifecycleJob} → JobStep j j' → IsWellFormed j → IsWellFormed j'
unfolding owns
JobStep-IsWellFormed {j} (claim w now lease d s e) h = rw e (go j.status refl h)
  where
    go :
        (st : LifecycleJobStatus)
        → j.status ≡ st
        → StatusIsWellFormed st j
        → IsWellFormed (claimed_row w now lease j)
    go pending p k = ground arith
    go retry_wait p k = ground arith
    go running p k = ground arith
    go succeeded p k = ground arith
    go failed p k = ground arith
JobStep-IsWellFormed (expire now c m d s e) h = rw e (ground arith)
JobStep-IsWellFormed {j} (heartbeat w n now lease o e) h = rw e (ground (arith, cases j running))
JobStep-IsWellFormed (complete w n now o e) h = rw e (ground arith)
JobStep-IsWellFormed (fail w n now x c m o t e) h = rw e (ground arith)
JobStep-IsWellFormed {j} (retry w n now d x c m o t e) h = rw e (ground (arith, cases j running))

-- Runs of steps of one row.
pub data JobRun (j : ProjectLifecycleJob) : ProjectLifecycleJob → Type 0 where
  start : JobRun j j
  after : {k l : ProjectLifecycleJob} → JobRun j k → JobStep k l → JobRun j l

pub JobRun-attempt : {j k : ProjectLifecycleJob} → JobRun j k → j.attempt ≤ k.attempt
JobRun-attempt start = omega arith
JobRun-attempt (after r s) = omega (arith, JobRun-attempt r, (JobStep-SameJob s).attempt)

-- A job that has ended, well or badly.
abbrev pub is_ended : LifecycleJobStatus → Bool
is_ended succeeded = true
is_ended failed = true
is_ended _ = false

-- An ended row takes no step.
JobStep-ended : {j j' : ProjectLifecycleJob} → JobStep j j' → is_ended j.status ≡ true → ⊥
unfolding owns
JobStep-ended (claim w now lease d s e) h = ground arith
JobStep-ended (expire now c m d s e) h = ground arith
JobStep-ended (heartbeat w n now lease o e) h = ground arith
JobStep-ended (complete w n now o e) h = ground arith
JobStep-ended (fail w n now x c m o t e) h = ground arith
JobStep-ended (retry w n now d x c m o t e) h = ground arith

pub JobRun-ended : {j k : ProjectLifecycleJob} → JobRun j k → is_ended j.status ≡ true → k ≡ j
JobRun-ended start h = refl
JobRun-ended (after r s) h = absurd (JobStep-ended s (rw (JobRun-ended r h) h))

-- Only an active row takes a step.
pub JobStep-active : {j j' : ProjectLifecycleJob} → JobStep j j' → is_active_status j.status ≡ true
unfolding owns
JobStep-active (claim w now lease d s e) = ground arith
JobStep-active (expire now c m d s e) = ground arith
JobStep-active (heartbeat w n now lease o e) = ground arith
JobStep-active (complete w n now o e) = ground arith
JobStep-active (fail w n now x c m o t e) = ground arith
JobStep-active (retry w n now d x c m o t e) = ground arith
