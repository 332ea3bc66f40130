-- ===== src/Provisioner/Resources.antt =====
-- The rows of project_runtime_resources that a provisioning records, and the checks on what it observes.
use Prim.Native.Char.{code}
use conductor_data_platform.Prelude.{
  ℕ, ◌+◌, String, Bool, true, false, not, ◌&&◌, Option, none, some, List, [], ◌∷◌, ◌++◌, leb, eqb,
  if◌then◌else◌, ◌==◌, find_row, update_rows, any_row,
}
use conductor_data_platform.Models.{
  Db, ProjectDeployment, ProjectRuntimeResource, RuntimeResourceKind, is_container, JsonObject,
  texts,
}

pub record ObservedComposeResource : Type 0 where
  pub kind : RuntimeResourceKind
  pub logical_name : String
  pub provider_id : Option String
  pub provider_name : String
  pub observed_status : String
  pub labels : List (String × String)

abbrev lower_code : ℕ → ℕ
lower_code n = if leb 65 n && leb n 90 then n + 32 else n

-- `s.lower() == t` for a text t of small ASCII letters without k, which no other character lowers to.
unfoldable pub lowers_to : String → String → Bool
lowers_to String.[] String.[] = true
lowers_to String.[] (String.◌∷◌ d t) = false
lowers_to (String.◌∷◌ c s) String.[] = false
lowers_to (String.◌∷◌ c s) (String.◌∷◌ d t) = eqb (lower_code (code c)) (code d) && lowers_to s t

abbrev pub required_services : List String
required_services =
    "project-redis" ∷ "airflow-api-server" ∷ "airflow-scheduler" ∷ "airflow-dag-processor"
    ∷ "airflow-worker" ∷ []

-- The key of `_upsert_resource`.
abbrev pub is_resource : ProjectDeployment → String → ProjectRuntimeResource → Bool
is_resource d logical_name r =
    r.project_id == d.project_id && eqb r.generation d.generation && r.logical_name == logical_name

abbrev pub find_resource : ProjectDeployment → String → Db → Option ProjectRuntimeResource
find_resource d logical_name db = find_row (is_resource d logical_name) db.resources

-- The columns that an upsert sets.
pub record Observation : Type 0 where
  pub kind : RuntimeResourceKind
  pub logical_name : String
  pub provider_id : Option String
  pub provider_name : String
  pub observed_status : String
  pub metadata : JsonObject

abbrev pub resource_row : ProjectDeployment → Observation → ProjectRuntimeResource
resource_row d o = record {
  project_id = d.project_id;
  generation = d.generation;
  resource_kind = o.kind;
  logical_name = o.logical_name;
  provider_id = o.provider_id;
  provider_name = some o.provider_name;
  observed_status = o.observed_status;
  metadata_json = o.metadata;
  deleted_at = none;
}

unfoldable pub upsert_resource : ProjectDeployment → Observation → Db → Db
upsert_resource d o db = record db {
  resources = elim (find_resource d o.logical_name db) [
    | none ↦ db.resources ++ resource_row d o ∷ []
    | some _ ↦ update_rows (is_resource d o.logical_name) (λ _. resource_row d o) db.resources
  ];
}

abbrev pub observation_of : ObservedComposeResource → Observation
observation_of r = record {
  kind = r.kind;
  logical_name = r.logical_name;
  provider_id = r.provider_id;
  provider_name = r.provider_name;
  observed_status = r.observed_status;
  metadata = ("labels", texts r.labels) ∷ [];
}

abbrev pub is_service : String → ObservedComposeResource → Bool
is_service service r = is_container r.kind && r.logical_name == service

abbrev pub is_missing : List ObservedComposeResource → String → Bool
is_missing observed service = not (any_row (is_service service) observed)

abbrev pub is_required : String → Bool
is_required name = any_row (λ s. s == name) required_services

-- The rows of required services that were not observed become "absent".
unfoldable pub mark_missing_required_services :
    ProjectDeployment → List ObservedComposeResource → Db → Db
mark_missing_required_services d observed db = record db {
  resources =
      update_rows
        (λ r.
          r.project_id == d.project_id
          && eqb r.generation d.generation
          && is_container r.resource_kind
          && is_required r.logical_name
          && is_missing observed r.logical_name)
        (λ r. record r { observed_status = "absent" }) db.resources;
}

abbrev pub upsert_all : ProjectDeployment → List ObservedComposeResource → Db → Db
upsert_all d [] db = db
upsert_all d (r ∷ rs) db = upsert_all d rs (upsert_resource d (observation_of r) db)

unfoldable pub record_observed : ProjectDeployment → List ObservedComposeResource → Db → Db
record_observed d observed db = mark_missing_required_services d observed (upsert_all d observed db)

-- The status of a service in the dictionary of statuses, where a later container replaces an earlier.
unfoldable pub status_of : String → List ObservedComposeResource → Option String
status_of service [] = none
status_of service (r ∷ rs) = elim (status_of service rs) [
  | some s ↦ some s
  | none ↦ if is_service service r then some r.observed_status else none
]

abbrev pub is_running_status : Option String → Bool
is_running_status none = false
is_running_status (some s) = lowers_to s "running"

unfoldable pub all_running : List String → List ObservedComposeResource → Bool
all_running [] observed = true
all_running (s ∷ ss) observed = is_running_status (status_of s observed) && all_running ss observed

unfoldable pub init_completed : ProjectDeployment → Db → Bool
init_completed d db =
    elim (find_row (λ r. is_resource d "airflow-init" r && is_container r.resource_kind)
      db.resources) [ none ↦ false | some r ↦ lowers_to r.observed_status "exited" ]
