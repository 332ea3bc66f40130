-- ===== src/Lifecycle/Tests.antt =====
-- Delays, transitions and names at concrete values, and the theorems there.
use Prim.Native.String
use Prim.Native.String.{count}
use conductor_data_platform.Prelude.{
  String, String-discrete, ne_of_test, true, ◌≡◌, ◌<◌, ◌⊎◌, ◌≢◌, refl, some, arith, ℕ, Bool, leb,
  ◌*◌, ◌^◌, ◌≤◌,
}
use conductor_data_platform.Models.{ready, deleting, deletion_failed}
use conductor_data_platform.Lifecycle.Retry.{retry_delay}
use conductor_data_platform.Lifecycle.Delay.{capped_backoff, retry_delay_bounds}
use conductor_data_platform.Lifecycle.Transitions.{Journey, stay, move, assert_transition}
use conductor_data_platform.Lifecycle.Identity.{
  RuntimeIdentity, derive_runtime_identity, is_hex_text,
}

abbrev exact : ℕ → ℕ → ℕ → Bool
exact attempt base cap = leb cap (base * 2 ^ attempt)

retry_delay_bounds_example :
    (d : ℕ) × (retry_delay exact 3 5 60 4 ≡ some d)
    × (capped_backoff 3 5 60 4 ≤ d)
    × (d ≤ 60)
    × ((d ≡ capped_backoff 3 5 60 4) ⊎ ((d ≡ 60) × (exact 3 5 60 ≡ true) × (5 * 2 ^ 3 < 60)))
retry_delay_bounds_example = retry_delay_bounds exact 3 5 60 4 (omega arith) (omega arith)

third_delay : retry_delay exact 3 5 60 4 ≡ some 44
unfolding retry_delay
third_delay = refl

fourth_delay : retry_delay exact 4 5 60 4 ≡ some 60
unfolding retry_delay
fourth_delay = refl

begun : Journey ready deleting
unfolding assert_transition
begun = move stay refl

failed_deletion : Journey deleting deletion_failed
unfolding assert_transition
failed_deletion = move stay refl

abbrev first_id : String
first_id = "0123456789abcdef0123456789abcdef"

abbrev second_id : String
second_id = "0123456789abcdef0123456789abcde0"

abbrev names : String → RuntimeIdentity
names id = record {
  compose_project_name = String.◌++◌ "conductor-p-" id;
  network_name = String.◌++◌ (String.◌++◌ "conductor-p-" id) "_default";
  airflow_db_name = String.◌++◌ "conductor_airflow_" id;
  airflow_db_role = String.◌++◌ "conductor_airflow_" id;
  airflow_external_url = "https://sales.airflow.localhost";
}

first_names : derive_runtime_identity first_id "sales" "localhost" ≡ some (names first_id)
unfolding derive_runtime_identity is_hex_text
first_names = refl

second_names : derive_runtime_identity second_id "sales" "localhost" ≡ some (names second_id)
unfolding derive_runtime_identity is_hex_text
second_names = refl

first-ne-second : first_id ≢ second_id
unfolding String-discrete
first-ne-second = ne_of_test first_id second_id refl
