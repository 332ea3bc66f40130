-- ===== src/Database/Tests.antt =====
-- A catalogue as a pair of functions, and runs on it.
use conductor_data_platform.Prelude.{
  inl, ne_of_test, ℕ, ◌+◌, String, Option, none, some, [], ◌∷◌, ◌≡◌, refl, String-discrete,
  if◌then◌else◌, ◌==◌,
}
use conductor_data_platform.Models.{ProjectDeployment, docker_compose}
use conductor_data_platform.Outcome.{Outcome, returned}
use conductor_data_platform.Database.Identifiers.{validate, quote_identifier, read_identifier}
use conductor_data_platform.Database.Server.{
  Server, World, RoleRow, DatabaseRow, Statement, commits, breaks, create_role, comment_on_role,
  comment_on_database, create_database, revoke_connect, disallow_connections, terminate_backends,
  drop_database, drop_role,
}
use conductor_data_platform.Database.Manager
use conductor_data_platform.Database.Manager.{
  ensure_role, ensure_database, verify_absent, database_resource,
}
use conductor_data_platform.Database.Trace.{IsGuarded}
use conductor_data_platform.Database.Calls.{
  ensures_role, ensures_database, drops_database, drops_role, perform_all, perform_all-IsGuarded,
}
use conductor_data_platform.Database.Refused.{calm, IsRefused, database-IsRefused}
use conductor_data_platform.Lifecycle.Identity.{is_hex_text}

record Catalogue : Type 0 where
  roles : String → Option RoleRow
  databases : String → Option DatabaseRow
  next_oid : ℕ

abbrev put : {A : Type 0} → String → Option A → (String → Option A) → String → Option A
put k v f j = if j == k then v else f j

abbrev comment_role : String → Option RoleRow → Option RoleRow
comment_role c none = none
comment_role c (some row) = some (record row { comment = some c })

abbrev comment_database : String → Option DatabaseRow → Option DatabaseRow
comment_database c none = none
comment_database c (some row) = some (record row { comment = some c })

-- The name that a quoted identifier stands for
name_of : String → String
name_of i = elim (read_identifier i) [ none ↦ "" | some r ↦ r.0 ]

-- Statements on what is not there have no effect instead of failing.
run : Statement → Catalogue → Option Catalogue
run (create_role i password) s = some (record s {
  roles = put (name_of i) (some (record { oid = s.next_oid; comment = none })) s.roles;
  next_oid = s.next_oid + 1;
})
run (comment_on_role i c) s =
    some (record s { roles = put (name_of i) (comment_role c (s.roles (name_of i))) s.roles })
run (comment_on_database i c) s = some (record s {
  databases = put (name_of i) (comment_database c (s.databases (name_of i))) s.databases;
})
run (create_database i o) s = some (record s {
  databases =
      put (name_of i) (some (record { oid = s.next_oid; owner = name_of o; comment = none }))
        s.databases;
  next_oid = s.next_oid + 1;
})
run (drop_database i) s = some (record s { databases = put (name_of i) none s.databases })
run (drop_role i) s = some (record s { roles = put (name_of i) none s.roles })
run (revoke_connect i) s = some s
run (disallow_connections i) s = some s
run (terminate_backends n) s = some s

abbrev catalogue : Server Catalogue
catalogue = record { role = λ n s. s.roles n; database = λ n s. s.databases n; run = run }

abbrev deployment : ProjectDeployment
deployment = record {
  id = "d";
  project_id = "0123456789abcdef0123456789abcdef";
  provisioner_kind = docker_compose;
  template_version = "v1";
  generation = 1;
  compose_project_name = "conductor-p-0123456789abcdef0123456789abcdef";
  airflow_external_url = "https://sales.airflow.example.org";
  airflow_db_name = "conductor_airflow_0123456789abcdef0123456789abcdef";
  airflow_db_role = "conductor_airflow_0123456789abcdef0123456789abcdef";
  airflow_db_password_encrypted = "sealed";
  airflow_admin_user = "admin";
  airflow_admin_password_encrypted = "sealed";
  airflow_dev_user = "dev";
  airflow_dev_password_encrypted = "sealed";
  airflow_viewer_user = "viewer";
  airflow_viewer_password_encrypted = "sealed";
  airflow_integration_user = "integration";
  airflow_integration_password_encrypted = "sealed";
  parameters = [];
}

deployment_valid : validate deployment ≡ none
unfolding validate is_hex_text String-discrete
deployment_valid = refl

abbrev empty : Catalogue
empty = record { roles = λ _. none; databases = λ _. none; next_oid = 7 }

abbrev foreign : DatabaseRow
foreign = record { oid = 3; owner = "postgres"; comment = none }

abbrev taken : Catalogue
taken = record { roles = λ _. none; databases = λ _. some foreign; next_oid = 7 }

abbrev open_box : String → Outcome String
open_box s = returned "pw"

-- Two commits of other sessions, and a connection that breaks at the sixth query
abbrev busy : World Catalogue
busy = record {
  catalogue = empty;
  before =
      commits (λ s. s)
      ∷ commits (λ s. s)
      ∷ commits (λ s. taken)
      ∷ commits (λ s. s)
      ∷ commits (λ s. s)
      ∷ breaks
      ∷ [];
  trace = [];
}

quoted : quote_identifier "a\"b" ≡ "\"a\"\"b\""
unfolding quote_identifier
quoted = refl

perform_all-IsGuarded_example :
    IsGuarded deployment
      (perform_all catalogue open_box deployment
        (ensures_role ∷ ensures_database ∷ drops_database ∷ drops_role ∷ [])
        busy).trace
perform_all-IsGuarded_example =
    perform_all-IsGuarded catalogue open_box deployment
      (ensures_role ∷ ensures_database ∷ drops_database ∷ drops_role ∷ []) busy tt

database-IsRefused_example :
    IsRefused taken (ensure_database catalogue deployment (calm taken []))
    × IsRefused taken (Manager.drop_database catalogue deployment (calm taken []))
    × IsRefused taken (verify_absent catalogue deployment (calm taken []))
unfolding String-discrete
database-IsRefused_example =
    database-IsRefused catalogue open_box deployment taken [] deployment_valid foreign refl
      (inl (ne_of_test "postgres" "conductor_airflow_0123456789abcdef0123456789abcdef" refl))
