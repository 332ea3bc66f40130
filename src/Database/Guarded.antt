-- ===== src/Database/Guarded.antt =====
-- What each operation of the manager has read before it drops something.
use conductor_data_platform.Prelude.{◌≡◌, refl, String, true, ◌&&◌, ◌||◌, Option, none, some, arith}
use conductor_data_platform.Models.{ProjectDeployment}
use conductor_data_platform.Outcome.{Outcome}
use conductor_data_platform.Database.Identifiers.{ownership_comment, quote_identifier}
use conductor_data_platform.Database.Server.{
  RoleRow, DatabaseRow, Statement, revoke_connect, disallow_connections, terminate_backends, Server,
  found_role, found_database, ◌>>=◌, ◌>>◌, pure, fetch_role, fetch_database, execute,
  fenced_connection, same_role, same_database,
}
use conductor_data_platform.Database.Manager.{
  is_owned_role, is_owned_database, require, disconnect_and_drop, read_and_drop, terminate_and_drop,
  disallow_and_drop, own_role, own_database_of, drop_current, drop_found, drop_current_role,
  drop_found_role, report_absent, report_role, ensure_role, ensure_database, drop_database,
  drop_role, verify_absent, is_absent,
}
use conductor_data_platform.Database.Trace.{
  Keeps, After, is_ours, require->>=, execute_lem, fetch_database->>=, fetch_role->>=,
}
use conductor_data_platform.Database.Fenced.{
  then-IsGuarded, fenced_connection-IsGuarded, validated-IsGuarded,
}
use conductor_data_platform.Database.Created.{
  execute-Keeps, own_role-IsGuarded, own_database_of-IsGuarded,
}

module _ {S : Type 0} (server : Server S) (d : ProjectDeployment) where
  same_database-owned :
      (found : DatabaseRow) (current : Option DatabaseRow)
      → is_owned_database (some found) d.airflow_db_role (ownership_comment d.project_id) ≡ true
      → same_database (some found) current ≡ true
      → is_ours d current ≡ true
  same_database-owned found current h k = ground arith

  drop_current-IsGuarded :
      (found : DatabaseRow) (current : Option DatabaseRow)
      → is_owned_database (some found) d.airflow_db_role (ownership_comment d.project_id) ≡ true
      → After d (found_database current) (drop_current server d found current)
  unfolding drop_current
  drop_current-IsGuarded found current c w past e h =
      let st = Statement.drop_database (quote_identifier d.airflow_db_name) in
      require->>= d (same_database (some found) current)
        "PostgreSQL database identity changed before final drop" (execute server st) w h
        (λ same.
          execute_lem server d st w (refl, rw e (same_database-owned found current c same)) h)

  drop_found-IsGuarded : (found : Option DatabaseRow) → Keeps d (drop_found server d found)
  unfolding drop_found
  drop_found-IsGuarded none w h = h
  drop_found-IsGuarded (some found) w h =
      require->>= d
        (is_owned_database (some found) d.airflow_db_role (ownership_comment d.project_id))
        "PostgreSQL database exists without matching Conductor ownership"
        (disconnect_and_drop server d found) w h
        (λ c.
          let name = quote_identifier d.airflow_db_name in
          then-IsGuarded d (execute server (revoke_connect name)) (disallow_and_drop server d found)
            (execute-Keeps server d (revoke_connect name) (λ _. tt))
            (then-IsGuarded d (execute server (disallow_connections name))
              (terminate_and_drop server d found)
              (execute-Keeps server d (disallow_connections name) (λ _. tt))
              (then-IsGuarded d (execute server (terminate_backends d.airflow_db_name))
                (read_and_drop server d found)
                (execute-Keeps server d (terminate_backends d.airflow_db_name) (λ _. tt))
                (fetch_database->>= server d d.airflow_db_name (drop_current server d found)
                  (λ current. drop_current-IsGuarded found current c))))
            w h)

  same_role-owned :
      (found : RoleRow) (current : Option RoleRow)
      → is_owned_role (some found) (ownership_comment d.project_id) ≡ true
      → same_role (some found) current ≡ true
      → is_owned_role current (ownership_comment d.project_id) ≡ true
  same_role-owned found current h k = ground arith

  drop_current_role-IsGuarded :
      (found : RoleRow) (current : Option RoleRow)
      → is_owned_role (some found) (ownership_comment d.project_id) ≡ true
      → After d (found_role current) (drop_current_role server d found current)
  unfolding drop_current_role
  drop_current_role-IsGuarded found current c w past e h =
      let st = Statement.drop_role (quote_identifier d.airflow_db_role) in
      require->>= d (same_role (some found) current)
        "PostgreSQL role identity changed before final drop" (execute server st) w h
        (λ same. execute_lem server d st w (refl, rw e (same_role-owned found current c same)) h)

  drop_found_role-IsGuarded : (found : Option RoleRow) → Keeps d (drop_found_role server d found)
  unfolding drop_found_role
  drop_found_role-IsGuarded none w h = h
  drop_found_role-IsGuarded (some found) w h =
      require->>= d (is_owned_role (some found) (ownership_comment d.project_id))
        "PostgreSQL role exists without matching Conductor ownership"
        (fetch_role server d.airflow_db_role >>= drop_current_role server d found) w h
        (λ c.
          fetch_role->>= server d d.airflow_db_role (drop_current_role server d found)
            (λ current. drop_current_role-IsGuarded found current c) w h)

  report_role-IsGuarded : (found : Option DatabaseRow) → Keeps d (report_role server d found)
  unfolding report_role report_absent
  report_role-IsGuarded found =
      fetch_role->>= server d d.airflow_db_role (report_absent server d found) (λ row w _ _ h.
        require->>= d
          (is_absent found
            || is_owned_database found d.airflow_db_role (ownership_comment d.project_id))
          "PostgreSQL database exists without matching Conductor ownership"
          (require (is_absent row || is_owned_role row (ownership_comment d.project_id))
              "PostgreSQL role exists without matching Conductor ownership"
            >> pure (is_absent found && is_absent row))
          w h
          (λ _.
            require->>= d (is_absent row || is_owned_role row (ownership_comment d.project_id))
              "PostgreSQL role exists without matching Conductor ownership"
              (pure (is_absent found && is_absent row)) w h (λ _. h)))

  pub ensure_role-IsGuarded :
      (decrypt : String → Outcome String) → Keeps d (ensure_role server decrypt d)
  unfolding ensure_role
  ensure_role-IsGuarded decrypt =
      let body = fetch_role server d.airflow_db_role >>= own_role server decrypt d in
      validated-IsGuarded d (fenced_connection body) (
        fenced_connection-IsGuarded d body (
          fetch_role->>= server d d.airflow_db_role (own_role server decrypt d)
            (λ row w _ _. own_role-IsGuarded server d decrypt row w)))

  pub ensure_database-IsGuarded : Keeps d (ensure_database server d)
  unfolding ensure_database
  ensure_database-IsGuarded =
      let body = fetch_role server d.airflow_db_role >>= own_database_of server d in
      validated-IsGuarded d (fenced_connection body) (
        fenced_connection-IsGuarded d body (
          fetch_role->>= server d d.airflow_db_role (own_database_of server d)
            (λ row w _ _. own_database_of-IsGuarded server d row w)))

  pub drop_database-IsGuarded : Keeps d (drop_database server d)
  unfolding drop_database
  drop_database-IsGuarded =
      let body = fetch_database server d.airflow_db_name >>= drop_found server d in
      validated-IsGuarded d (fenced_connection body) (
        fenced_connection-IsGuarded d body (
          fetch_database->>= server d d.airflow_db_name (drop_found server d)
            (λ found w _ _. drop_found-IsGuarded found w)))

  pub drop_role-IsGuarded : Keeps d (drop_role server d)
  unfolding drop_role
  drop_role-IsGuarded =
      let body = fetch_role server d.airflow_db_role >>= drop_found_role server d in
      validated-IsGuarded d (fenced_connection body) (
        fenced_connection-IsGuarded d body (
          fetch_role->>= server d d.airflow_db_role (drop_found_role server d)
            (λ found w _ _. drop_found_role-IsGuarded found w)))

  pub verify_absent-IsGuarded : Keeps d (verify_absent server d)
  unfolding verify_absent
  verify_absent-IsGuarded =
      let body = fetch_database server d.airflow_db_name >>= report_role server d in
      validated-IsGuarded d (fenced_connection body) (
        fenced_connection-IsGuarded d body (
          fetch_database->>= server d d.airflow_db_name (report_role server d)
            (λ found w _ _. report_role-IsGuarded found w)))
