-- ===== src/Lifecycle/Errors.antt =====
-- The exceptions of backend/app/services/lifecycle_errors.py with those that other services raise
-- beside them, their stable codes, and the classification that decides on a retry.
use conductor_data_platform.Prelude.{String, Bool, true, false}

pub data ErrorDisposition : Type 0 where
  transient permanent : ErrorDisposition

-- A raised exception with its text. `job_ownership` is lifecycle_queue.JobOwnershipError,
-- `runner_not_configured` is lifecycle_runner.RunnerNotConfiguredError; `value_error`,
-- `runtime_error`, `timeout_error` and `other` are no lifecycle errors.
pub data Raised : Type 0 where
  lifecycle_error transient_error permanent_error invalid_transition invalid_parameters
        invalid_template foreign_resource_conflict invalid_compose runner_not_configured
        job_ownership value_error runtime_error timeout_error other :
      String → Raised

-- `isinstance(error, PermanentLifecycleError)`
unfoldable pub is_permanent : Raised → Bool
is_permanent (permanent_error m) = true
is_permanent (invalid_transition m) = true
is_permanent (invalid_parameters m) = true
is_permanent (invalid_template m) = true
is_permanent (foreign_resource_conflict m) = true
is_permanent (invalid_compose m) = true
is_permanent (runner_not_configured m) = true
is_permanent _ = false

unfoldable pub classify_lifecycle_error : Raised → ErrorDisposition
unfolding is_permanent
classify_lifecycle_error e = elim (is_permanent e) [ true ↦ permanent | false ↦ transient ]

-- `error.code if isinstance(error, LifecycleError) else "TRANSIENT_LIFECYCLE_ERROR"`
unfoldable pub code_of : Raised → String
code_of (lifecycle_error m) = "LIFECYCLE_ERROR"
code_of (permanent_error m) = "PERMANENT_LIFECYCLE_ERROR"
code_of (invalid_transition m) = "INVALID_LIFECYCLE_TRANSITION"
code_of (invalid_parameters m) = "INVALID_PARAMETERS"
code_of (invalid_template m) = "INVALID_TEMPLATE"
code_of (foreign_resource_conflict m) = "FOREIGN_RESOURCE_CONFLICT"
code_of (invalid_compose m) = "INVALID_COMPOSE"
code_of (runner_not_configured m) = "RUNNER_NOT_CONFIGURED"
code_of _ = "TRANSIENT_LIFECYCLE_ERROR"

-- `str(error)`
abbrev pub message : Raised → String
message (lifecycle_error m) = m
message (transient_error m) = m
message (permanent_error m) = m
message (invalid_transition m) = m
message (invalid_parameters m) = m
message (invalid_template m) = m
message (foreign_resource_conflict m) = m
message (invalid_compose m) = m
message (runner_not_configured m) = m
message (job_ownership m) = m
message (value_error m) = m
message (runtime_error m) = m
message (timeout_error m) = m
message (other m) = m
