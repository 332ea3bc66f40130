-- ===== src/Database/Manager.antt =====
-- `AsyncpgProjectDatabaseManager` of backend/app/services/project_database.py, over a PostgreSQL that
-- is a parameter. `decrypt` is crypto.decrypt_token.
use conductor_data_platform.Prelude.{
  String, Bool, true, false, ◌&&◌, ◌||◌, Option, none, some, eqb, if◌then◌else◌, ◌==◌, is_some_text,
}
use conductor_data_platform.Models.{ProjectDeployment}
use conductor_data_platform.Lifecycle.{Raised, foreign_resource_conflict}
use conductor_data_platform.Outcome.{Outcome, returned, raised}
use conductor_data_platform.Database.Identifiers.{validate, ownership_comment, quote_identifier}
use conductor_data_platform.Database.Server.{
  RoleRow, DatabaseRow, Statement, create_role, comment_on_role, comment_on_database,
  create_database, revoke_connect, disallow_connections, terminate_backends, Server, Session, ◌>>=◌,
  ◌>>◌, arrive, pure, raising, fetch_role, fetch_database, execute, execute_both, on_error,
  fenced_connection, same_role, same_database,
}

pub data ResourceKind : Type 0 where
  role database : ResourceKind

pub record ObservedDatabaseResource : Type 0 where
  pub kind : ResourceKind
  pub name : String
  pub project_id : String
  pub owner : Option String

abbrev pub is_owned_role : Option RoleRow → String → Bool
is_owned_role none comment = false
is_owned_role (some row) comment = is_some_text row.comment comment

abbrev pub is_owned_database : Option DatabaseRow → String → String → Bool
is_owned_database none owner comment = false
is_owned_database (some row) owner comment = row.owner == owner && is_some_text row.comment comment

abbrev pub require : {S : Type 0} → Bool → String → Session S (Unit {0})
require true message = pure tt
require false message = raising (foreign_resource_conflict message)

abbrev pub require_owned_role :
    {S : Type 0} → Option RoleRow → String → String → Session S (Unit {0})
require_owned_role row comment message = require (is_owned_role row comment) message

abbrev pub require_owned_database :
    {S : Type 0} → Option DatabaseRow → String → String → String → Session S (Unit {0})
require_owned_database row owner comment message =
    require (is_owned_database row owner comment) message

abbrev pub role_resource : ProjectDeployment → ObservedDatabaseResource
role_resource d = record {
  kind = role;
  name = d.airflow_db_role;
  project_id = d.project_id;
  owner = none;
}

abbrev pub database_resource : ProjectDeployment → ObservedDatabaseResource
database_resource d = record {
  kind = database;
  name = d.airflow_db_name;
  project_id = d.project_id;
  owner = some d.airflow_db_role;
}

-- A new database has our owner and no comment yet.
abbrev pub is_created : Option DatabaseRow → String → Bool
is_created none owner = false
is_created (some row) owner =
    row.owner == owner && (elim row.comment [ none ↦ true | some _ ↦ false ])

abbrev pub same_oid : Option DatabaseRow → Option DatabaseRow → Bool
same_oid (some left) (some right) = eqb right.oid left.oid
same_oid _ _ = false

-- `_validate`, before a connection is opened
abbrev pub validated : {S A : Type 0} → ProjectDeployment → Session S A → Session S A
validated d body w = elim (validate d) [ some e ↦ (raised e, w) | none ↦ body w ]

abbrev pub unproven : Raised
unproven =
    foreign_resource_conflict
      "Created PostgreSQL database ownership could not be proven after comment"

abbrev pub is_absent : {A : Type 0} → Option A → Bool
is_absent none = true
is_absent (some _) = false

module _ {S : Type 0} (server : Server S) where
  unfoldable pub create_owned_role :
      (String → Outcome String) → ProjectDeployment → Session S (Unit {0})
  create_owned_role decrypt d w = elim (decrypt d.airflow_db_password_encrypted) [
    | raised e ↦ (raised e, w)
    | returned password ↦
        let identifier = quote_identifier d.airflow_db_role in
        execute_both server (create_role identifier password)
          (comment_on_role identifier (ownership_comment d.project_id)) w
  ]

  unfoldable pub own_role :
      (String → Outcome String)
      → ProjectDeployment
      → Option RoleRow
      → Session S ObservedDatabaseResource
  unfolding create_owned_role
  own_role decrypt d none = do create_owned_role decrypt d; pure (role_resource d)
  own_role decrypt d (some row) = do
    require_owned_role (some row) (ownership_comment d.project_id)
        "PostgreSQL role exists without matching Conductor ownership"
    pure (role_resource d)

  unfoldable pub ensure_role :
      (String → Outcome String) → ProjectDeployment → Session S ObservedDatabaseResource
  unfolding own_role
  ensure_role decrypt d =
      validated d (fenced_connection (fetch_role server d.airflow_db_role >>= own_role decrypt d))

  -- `DROP DATABASE`, if the database is still the one that this run has created
  unfoldable pub drop_created :
      ProjectDeployment → Option DatabaseRow → Option DatabaseRow → Session S (Unit {0})
  drop_created d created current =
      if same_database created current
      then execute server (Statement.drop_database (quote_identifier d.airflow_db_name))
      else pure tt

  abbrev pub is_proven : ProjectDeployment → Option DatabaseRow → Option DatabaseRow → Bool
  is_proven d created current =
      same_oid created current
      && is_owned_database current d.airflow_db_role (ownership_comment d.project_id)

  unfoldable pub prove_current :
      ProjectDeployment → Option DatabaseRow → Option DatabaseRow → Session S (Unit {0})
  unfolding drop_created
  prove_current d created current =
      if is_proven d created current
      then pure tt
      else (drop_created d created current >> raising unproven)

  -- The text of the statement is formatted by a query of its own.
  abbrev pub comment_database : ProjectDeployment → Session S (Unit {0})
  comment_database d =
      arrive
      >> execute server (
          comment_on_database (quote_identifier d.airflow_db_name) (ownership_comment d.project_id))

  unfoldable pub comment_created : ProjectDeployment → Option DatabaseRow → Session S (Unit {0})
  unfolding drop_created
  comment_created d created =
      on_error (comment_database d)
        (fetch_database server d.airflow_db_name >>= drop_created d created)

  abbrev pub comment_and_prove : ProjectDeployment → Option DatabaseRow → Session S (Unit {0})
  comment_and_prove d created =
      comment_created d created
      >> (fetch_database server d.airflow_db_name >>= prove_current d created)

  unfoldable pub settle_created : ProjectDeployment → Option DatabaseRow → Session S (Unit {0})
  unfolding comment_created prove_current
  settle_created d created = do
    require (is_created created d.airflow_db_role)
        "Created PostgreSQL database identity could not be proven"
    comment_and_prove d created

  abbrev pub create_and_settle : ProjectDeployment → Session S (Unit {0})
  create_and_settle d =
      execute server
        (create_database (quote_identifier d.airflow_db_name) (quote_identifier d.airflow_db_role))
      >> (fetch_database server d.airflow_db_name >>= settle_created d)

  unfoldable pub create_owned_database :
      ProjectDeployment → Option RoleRow → Option RoleRow → Session S (Unit {0})
  unfolding settle_created
  create_owned_database d row current_role = do
    require (same_role row current_role) "PostgreSQL owner role changed before database creation"
    create_and_settle d

  unfoldable pub own_database :
      ProjectDeployment → Option RoleRow → Option DatabaseRow → Session S ObservedDatabaseResource
  unfolding create_owned_database
  own_database d row none = do
    fetch_role server d.airflow_db_role >>= create_owned_database d row
    pure (database_resource d)
  own_database d row (some found) = do
    require_owned_database (some found) d.airflow_db_role (ownership_comment d.project_id)
        "PostgreSQL database exists without matching Conductor ownership"
    pure (database_resource d)

  unfoldable pub own_database_of :
      ProjectDeployment → Option RoleRow → Session S ObservedDatabaseResource
  unfolding own_database
  own_database_of d row = do
    require_owned_role row (ownership_comment d.project_id)
        "PostgreSQL owner role is absent or lacks matching Conductor ownership"
    fetch_database server d.airflow_db_name >>= own_database d row

  unfoldable pub ensure_database : ProjectDeployment → Session S ObservedDatabaseResource
  unfolding own_database_of
  ensure_database d =
      validated d (fenced_connection (fetch_role server d.airflow_db_role >>= own_database_of d))

  unfoldable pub drop_current :
      ProjectDeployment → DatabaseRow → Option DatabaseRow → Session S (Unit {0})
  drop_current d found current = do
    require (same_database (some found) current)
        "PostgreSQL database identity changed before final drop"
    execute server (Statement.drop_database (quote_identifier d.airflow_db_name))

  abbrev pub read_and_drop : ProjectDeployment → DatabaseRow → Session S (Unit {0})
  read_and_drop d found = fetch_database server d.airflow_db_name >>= drop_current d found

  abbrev pub terminate_and_drop : ProjectDeployment → DatabaseRow → Session S (Unit {0})
  terminate_and_drop d found =
      execute server (terminate_backends d.airflow_db_name) >> read_and_drop d found

  abbrev pub disallow_and_drop : ProjectDeployment → DatabaseRow → Session S (Unit {0})
  disallow_and_drop d found =
      execute server (disallow_connections (quote_identifier d.airflow_db_name))
      >> terminate_and_drop d found

  abbrev pub disconnect_and_drop : ProjectDeployment → DatabaseRow → Session S (Unit {0})
  disconnect_and_drop d found =
      execute server (revoke_connect (quote_identifier d.airflow_db_name))
      >> disallow_and_drop d found

  unfoldable pub drop_found : ProjectDeployment → Option DatabaseRow → Session S (Unit {0})
  unfolding drop_current
  drop_found d none = pure tt
  drop_found d (some found) = do
    require_owned_database (some found) d.airflow_db_role (ownership_comment d.project_id)
        "PostgreSQL database exists without matching Conductor ownership"
    disconnect_and_drop d found

  unfoldable pub drop_database : ProjectDeployment → Session S (Unit {0})
  unfolding drop_found
  drop_database d =
      validated d (fenced_connection (fetch_database server d.airflow_db_name >>= drop_found d))

  unfoldable pub drop_current_role :
      ProjectDeployment → RoleRow → Option RoleRow → Session S (Unit {0})
  drop_current_role d found current = do
    require (same_role (some found) current) "PostgreSQL role identity changed before final drop"
    execute server (Statement.drop_role (quote_identifier d.airflow_db_role))

  -- The transaction around it has one statement that writes, its last.
  unfoldable pub drop_found_role : ProjectDeployment → Option RoleRow → Session S (Unit {0})
  unfolding drop_current_role
  drop_found_role d none = pure tt
  drop_found_role d (some found) = do
    require_owned_role (some found) (ownership_comment d.project_id)
        "PostgreSQL role exists without matching Conductor ownership"
    fetch_role server d.airflow_db_role >>= drop_current_role d found

  unfoldable pub drop_role : ProjectDeployment → Session S (Unit {0})
  unfolding drop_found_role
  drop_role d =
      validated d (fenced_connection (fetch_role server d.airflow_db_role >>= drop_found_role d))

  unfoldable pub report_absent :
      ProjectDeployment → Option DatabaseRow → Option RoleRow → Session S Bool
  report_absent d found row = do
    require
        (is_absent found
          || is_owned_database found d.airflow_db_role (ownership_comment d.project_id))
        "PostgreSQL database exists without matching Conductor ownership"
    require (is_absent row || is_owned_role row (ownership_comment d.project_id))
        "PostgreSQL role exists without matching Conductor ownership"
    pure (is_absent found && is_absent row)

  unfoldable pub report_role : ProjectDeployment → Option DatabaseRow → Session S Bool
  unfolding report_absent
  report_role d found = fetch_role server d.airflow_db_role >>= report_absent d found

  unfoldable pub verify_absent : ProjectDeployment → Session S Bool
  unfolding report_role
  verify_absent d =
      validated d (fenced_connection (fetch_database server d.airflow_db_name >>= report_role d))
