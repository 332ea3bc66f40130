-- ===== src/Models/Enums.antt =====
-- The string enumerations of backend/app/models, and the tests `x is Enum.MEMBER`.
use conductor_data_platform.Prelude.{Bool, true, false, String}

pub data ProjectLifecycleStatus : Type 0 where
  provisioning ready provision_failed deleting deletion_failed : ProjectLifecycleStatus

pub data LifecycleOperation : Type 0 where
  provision delete reconcile : LifecycleOperation

pub data LifecycleJobStatus : Type 0 where
  pending running retry_wait succeeded failed : LifecycleJobStatus

pub data RuntimeResourceKind : Type 0 where
  container volume network database database_role proxy_route : RuntimeResourceKind

pub data ProvisionerKind : Type 0 where
  docker_compose : ProvisionerKind

abbrev pub status_value : ProjectLifecycleStatus → String
status_value provisioning = "provisioning"
status_value ready = "ready"
status_value provision_failed = "provision_failed"
status_value deleting = "deleting"
status_value deletion_failed = "deletion_failed"

abbrev pub is_ready : ProjectLifecycleStatus → Bool
is_ready ready = true
is_ready _ = false

abbrev pub is_provision_failed : ProjectLifecycleStatus → Bool
is_provision_failed provision_failed = true
is_provision_failed _ = false

abbrev pub is_provision : LifecycleOperation → Bool
is_provision provision = true
is_provision _ = false

abbrev pub is_running : LifecycleJobStatus → Bool
is_running running = true
is_running _ = false

abbrev pub is_failed : LifecycleJobStatus → Bool
is_failed failed = true
is_failed _ = false

-- `status IN ('pending', 'retry_wait')`
abbrev pub is_waiting : LifecycleJobStatus → Bool
is_waiting pending = true
is_waiting retry_wait = true
is_waiting _ = false

-- The predicate of the partial unique index on active jobs.
abbrev pub is_active_status : LifecycleJobStatus → Bool
is_active_status pending = true
is_active_status running = true
is_active_status retry_wait = true
is_active_status _ = false

abbrev pub is_container : RuntimeResourceKind → Bool
is_container container = true
is_container _ = false

abbrev pub operation_value : LifecycleOperation → String
operation_value provision = "provision"
operation_value delete = "delete"
operation_value reconcile = "reconcile"
