-- ===== src/Lifecycle/Transitions.antt =====
-- The project state machine of backend/app/services/project_lifecycle.py, and its one parameter
-- schema.
use Prim.Native.String.{◌++◌}
use conductor_data_platform.Prelude.{
  ◌≡◌, Bool, true, false, ◌&&◌, Option, none, some, List, [], ◌∷◌, arith, if◌then◌else◌, any_row,
}
use conductor_data_platform.Models.{
  ProjectLifecycleStatus, provisioning, ready, provision_failed, deleting, deletion_failed,
  JsonObject, status_value,
}
use conductor_data_platform.Lifecycle.Errors.{Raised, invalid_transition, invalid_parameters}

abbrev pub same_status : ProjectLifecycleStatus → ProjectLifecycleStatus → Bool
same_status provisioning provisioning = true
same_status ready ready = true
same_status provision_failed provision_failed = true
same_status deleting deleting = true
same_status deletion_failed deletion_failed = true
same_status _ _ = false

-- `_ALLOWED_TRANSITIONS`
abbrev pub allowed_transitions : List (ProjectLifecycleStatus × ProjectLifecycleStatus)
allowed_transitions =
    (provisioning, ready)
    ∷ (provisioning, provision_failed)
    ∷ (provision_failed, provisioning)
    ∷ (ready, deleting)
    ∷ (provision_failed, deleting)
    ∷ (deleting, deletion_failed)
    ∷ (deletion_failed, deleting)
    ∷ []

abbrev pub is_allowed : ProjectLifecycleStatus → ProjectLifecycleStatus → Bool
is_allowed current target =
    any_row (λ t. same_status t.0 current && same_status t.1 target) allowed_transitions

-- `none` is a return, and `some` the exception that is raised.
unfoldable pub assert_transition : ProjectLifecycleStatus → ProjectLifecycleStatus → Option Raised
assert_transition current target =
    if is_allowed current target
    then none
    else some (
        invalid_transition (
          "Lifecycle transition from "
          ++ status_value current
          ++ " to "
          ++ status_value target
          ++ " is not allowed"))

-- `parameters` is a JSON object here, so that it is a dict is given.
unfoldable pub validate_runtime_parameters : JsonObject → Option Raised
validate_runtime_parameters [] = none
validate_runtime_parameters (p ∷ ps) =
    some (invalid_parameters "Runtime parameters must be an empty object")

-- The runs of allowed transitions.
pub data Journey (from : ProjectLifecycleStatus) : ProjectLifecycleStatus → Type 0 where
  stay : Journey from from
  move :
      {mid to : ProjectLifecycleStatus}
      → Journey from mid
      → assert_transition mid to ≡ none
      → Journey from to

abbrev pub is_deletion : ProjectLifecycleStatus → Bool
is_deletion deleting = true
is_deletion deletion_failed = true
is_deletion _ = false

step-is_deletion :
    (a b : ProjectLifecycleStatus)
    → assert_transition a b ≡ none
    → is_deletion a ≡ true
    → is_deletion b ≡ true
unfolding assert_transition
step-is_deletion a b h d = ground arith

-- A project whose deletion has begun never gets out of the two deletion states.
pub deletion_is_final :
    {a b : ProjectLifecycleStatus} → Journey a b → is_deletion a ≡ true → is_deletion b ≡ true
deletion_is_final stay d = d
deletion_is_final (move {mid = m} {to = b} j h) d = step-is_deletion m b h (deletion_is_final j d)
