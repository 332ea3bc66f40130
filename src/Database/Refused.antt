-- ===== src/Database/Refused.antt =====
-- What the manager does with roles and databases that are not the project's.
use conductor_data_platform.Prelude.{
  String, false, none, some, List, [], ◌≡◌, ◌≢◌, ◌⊎◌, arith, Bool-cases, inl, inr,
}
use conductor_data_platform.Models.{ProjectDeployment}
use conductor_data_platform.Lifecycle.{foreign_resource_conflict}
use conductor_data_platform.Outcome.{Outcome, raised}
use conductor_data_platform.Database.Identifiers.{validate, ownership_comment}
use conductor_data_platform.Database.Server.{
  Server, World, Event, RoleRow, DatabaseRow, fetch_role, fetch_database, arrive, fenced_connection,
}
use conductor_data_platform.Database.Manager.{
  ensure_role, ensure_database, drop_database, drop_role, verify_absent, own_role, own_database,
  own_database_of, drop_found, drop_found_role, report_role, report_absent, is_owned_role,
  is_owned_database,
}

-- No other session acts and the connection holds.
abbrev pub calm : {S : Type 0} → S → List Event → World S
calm s past = record { catalogue = s; before = []; trace = past }

-- A call ended in a conflict and left the server as it was.
abbrev pub IsRefused : {S A : Type 0} → S → Outcome A × World S → Type 0
IsRefused s (r, w) = ((m : String) × (r ≡ raised (foreign_resource_conflict m))) × (w.catalogue ≡ s)

module _ {S : Type 0} (server : Server S) (decrypt : String → Outcome String)
    (d : ProjectDeployment) (s : S) (past : List Event) (valid : validate d ≡ none) where
  -- A role of the project's name without the project's ownership comment is neither adopted nor dropped
  -- and no database is made for it: the calls raise ForeignResourceConflictError and change nothing on
  -- the server.
  pub role-IsRefused :
      (row : RoleRow)
      → server.role d.airflow_db_role s ≡ some row
      → is_owned_role (some row) (ownership_comment d.project_id) ≡ false
      → IsRefused s (ensure_role server decrypt d (calm s past))
        × IsRefused s (ensure_database server d (calm s past))
        × IsRefused s (drop_role server d (calm s past))
  unfolding ensure_role ensure_database drop_role arrive fetch_role fenced_connection own_role
      own_database_of drop_found_role
  role-IsRefused row found foreign = (
    (("PostgreSQL role exists without matching Conductor ownership", ground arith), ground arith),
    (
      ("PostgreSQL owner role is absent or lacks matching Conductor ownership", ground arith),
      ground arith,
    ),
    (("PostgreSQL role exists without matching Conductor ownership", ground arith), ground arith),
  )

  -- While no other session acts and no connection breaks, for a valid deployment: a database of its name that
  -- another role owns, or whose comment is not exactly that of the project, is neither adopted, dropped nor
  -- reported as absent: ensure_database, drop_database and verify_absent raise ForeignResourceConflictError
  -- and change nothing on the server.
  pub database-IsRefused :
      (row : DatabaseRow)
      → server.database d.airflow_db_name s ≡ some row
      → ((row.owner ≢ d.airflow_db_role) ⊎ (row.comment ≢ some (ownership_comment d.project_id)))
      → IsRefused s (ensure_database server d (calm s past))
        × IsRefused s (drop_database server d (calm s past))
        × IsRefused s (verify_absent server d (calm s past))
  unfolding ensure_database drop_database verify_absent arrive fetch_role fetch_database
      fenced_connection own_database own_database_of drop_found report_role report_absent
  database-IsRefused row found another =
      let foreign : is_owned_database (some row) d.airflow_db_role (ownership_comment d.project_id)
          ≡ false =
        elim another [ inl o ↦ ground arith | inr c ↦ ground arith ] in
      elim (Bool-cases
        (is_owned_role (server.role d.airflow_db_role s) (ownership_comment d.project_id))) [
          | inl owned ↦ (
            (
              ("PostgreSQL database exists without matching Conductor ownership", ground arith),
              ground arith,
            ),
            (
              ("PostgreSQL database exists without matching Conductor ownership", ground arith),
              ground arith,
            ),
            (
              ("PostgreSQL database exists without matching Conductor ownership", ground arith),
              ground arith,
            ),
          )
          | inr lacks ↦ (
            (
              (
                "PostgreSQL owner role is absent or lacks matching Conductor ownership",
                ground arith,
              ),
              ground arith,
            ),
            (
              ("PostgreSQL database exists without matching Conductor ownership", ground arith),
              ground arith,
            ),
            (
              ("PostgreSQL database exists without matching Conductor ownership", ground arith),
              ground arith,
            ),
          )
        ]
