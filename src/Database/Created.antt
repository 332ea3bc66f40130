-- ===== src/Database/Created.antt =====
-- What ensure_role and ensure_database have read before they drop what they created.
use conductor_data_platform.Prelude.{
  ◌≡◌, refl, String, true, Option, none, some, List, arith, Bool-cases, inl, inr,
}
use conductor_data_platform.Models.{ProjectDeployment}
use conductor_data_platform.Outcome.{Outcome, returned, raised}
use conductor_data_platform.Database.Identifiers.{ownership_comment, quote_identifier}
use conductor_data_platform.Database.Server.{
  RoleRow, DatabaseRow, Statement, create_role, comment_on_role, comment_on_database,
  create_database, Server, Event, found_database, World, arrive, ◌>>=◌, ◌>>◌, pure, fetch_role,
  fetch_database, execute, execute_both, both, effect, same_role, same_database,
}
use conductor_data_platform.Database.Manager.{
  is_owned_role, is_owned_database, is_created, create_owned_role, drop_created, unproven,
  comment_database, comment_and_prove, create_and_settle, prove_current, comment_created,
  settle_created, create_owned_database, own_role, own_database, own_database_of, is_proven,
  database_resource, role_resource,
}
use conductor_data_platform.Database.Trace.{
  MayRun, IsGuarded, Keeps, After, is_ours, >>=-IsGuarded, require->>=, arrive-trace, effect_lem,
  execute_lem, fetch_database->>=, fetch_role->>=,
}
use conductor_data_platform.Database.Fenced.{then-IsGuarded, on_error-IsGuarded}

module _ {S : Type 0} (server : Server S) (d : ProjectDeployment) where
  same_database-is_ours :
      (created current : Option DatabaseRow)
      → is_created created d.airflow_db_role ≡ true
      → same_database created current ≡ true
      → is_ours d current ≡ true
  same_database-is_ours created current h k = ground arith

  drop_created-IsGuarded :
      (created current : Option DatabaseRow)
      → is_created created d.airflow_db_role ≡ true
      → After d (found_database current) (drop_created server d created current)
  unfolding drop_created
  drop_created-IsGuarded created current c w past e h =
      elim (Bool-cases (same_database created current)) [
        | inl same ↦ rw same (
            execute_lem server d (Statement.drop_database (quote_identifier d.airflow_db_name)) w
              (refl, rw e (same_database-is_ours created current c same)) h)
        | inr differ ↦ rw differ h
      ]

  prove_current-IsGuarded :
      (created current : Option DatabaseRow)
      → is_created created d.airflow_db_role ≡ true
      → After d (found_database current) (prove_current server d created current)
  unfolding prove_current
  prove_current-IsGuarded created current c w past e h =
      elim (Bool-cases (is_proven server d created current)) [
        | inl proven ↦ rw proven h
        | inr failed ↦ rw failed (
            let dropped = drop_created-IsGuarded created current c w past e h in
            >>=-IsGuarded d (drop_created server d created current) (λ _ w. (raised unproven, w)) w
              dropped (λ _ _. dropped))
      ]

  comment_created-IsGuarded :
      (created : Option DatabaseRow)
      → is_created created d.airflow_db_role ≡ true
      → Keeps d (comment_created server d created)
  unfolding comment_created
  comment_created-IsGuarded created c =
      on_error-IsGuarded d (comment_database server d)
        (fetch_database server d.airflow_db_name >>= drop_created server d created)
        (λ w h.
          let e = arrive-trace d w in
          let comment =
            comment_on_database (quote_identifier d.airflow_db_name)
              (ownership_comment d.project_id) in
          >>=-IsGuarded d arrive (λ _. execute server comment) w (rw e h)
            (λ _ _. execute_lem server d comment (arrive w).1 tt (rw e h)))
        (fetch_database->>= server d d.airflow_db_name (drop_created server d created)
          (λ current. drop_created-IsGuarded created current c))

  comment_and_prove-IsGuarded :
      (created : Option DatabaseRow)
      → is_created created d.airflow_db_role ≡ true
      → Keeps d (comment_and_prove server d created)
  comment_and_prove-IsGuarded created c =
      then-IsGuarded d (comment_created server d created)
        (fetch_database server d.airflow_db_name >>= prove_current server d created)
        (comment_created-IsGuarded created c)
        (fetch_database->>= server d d.airflow_db_name (prove_current server d created)
          (λ current. prove_current-IsGuarded created current c))

  settle_created-IsGuarded :
      (created : Option DatabaseRow) → Keeps d (settle_created server d created)
  unfolding settle_created
  settle_created-IsGuarded created w h =
      require->>= d (is_created created d.airflow_db_role)
        "Created PostgreSQL database identity could not be proven"
        (comment_and_prove server d created) w h (λ c. comment_and_prove-IsGuarded created c w h)

  -- A statement that drops nothing
  pub execute-Keeps :
      (st : Statement) → ((past : List Event) → MayRun d st past) → Keeps d (execute server st)
  execute-Keeps st free w h = execute_lem server d st w (free w.trace) h

  create_owned_database-IsGuarded :
      (row current_role : Option RoleRow)
      → Keeps d (create_owned_database server d row current_role)
  unfolding create_owned_database
  create_owned_database-IsGuarded row current_role w h =
      require->>= d (same_role row current_role)
        "PostgreSQL owner role changed before database creation" (create_and_settle server d) w h
        (λ _.
          let st =
            create_database (quote_identifier d.airflow_db_name)
              (quote_identifier d.airflow_db_role) in
          then-IsGuarded d (execute server st)
            (fetch_database server d.airflow_db_name >>= settle_created server d)
            (execute-Keeps st (λ _. tt))
            (fetch_database->>= server d d.airflow_db_name (settle_created server d)
              (λ created w _ _. settle_created-IsGuarded created w))
            w h)

  -- Two statements that drop nothing
  execute_both-Keeps :
      (first second : Statement)
      → ((past : List Event) → MayRun d first past)
      → ((past : List Event) → MayRun d second past)
      → Keeps d (execute_both server first second)
  unfolding execute_both
  execute_both-Keeps first second f s w h =
      let e = arrive-trace d w in
      >>=-IsGuarded d arrive (λ _. both server first second) w (rw e h)
        (λ _ _. go (arrive w).1 (rw e h))
    where
      go : Keeps d (both server first second)
      go w h = split ((effect server first >> effect server second) w).0
        where
          ran_both : IsGuarded d ((effect server first >> effect server second) w).1.trace
          ran_both =
              then-IsGuarded d (effect server first) (effect server second)
                (λ w h. effect_lem server d first w (f w.trace) h)
                (λ w h. effect_lem server d second w (s w.trace) h) w h

          split :
              (r : Outcome (Unit {0}))
              → IsGuarded d
                  (elim r as (λ _. Outcome (Unit {0}) × World S) [
                    | returned _ ↦
                        (returned tt, ((effect server first >> effect server second) w).1)
                    | raised e ↦ (raised e, w)
                  ]).1.trace
          split (returned _) = ran_both
          split (raised e) = h

  create_owned_role-IsGuarded :
      (decrypt : String → Outcome String) → Keeps d (create_owned_role server decrypt d)
  unfolding create_owned_role
  create_owned_role-IsGuarded decrypt w h = go (decrypt d.airflow_db_password_encrypted)
    where
      go :
          (o : Outcome String)
          → IsGuarded d
              (elim o as (λ _. Outcome (Unit {0}) × World S) [
                | raised e ↦ (raised e, w)
                | returned password ↦
                    let identifier = quote_identifier d.airflow_db_role in
                    execute_both server
                      (create_role identifier password)
                      (comment_on_role identifier (ownership_comment d.project_id))
                      w
              ]).1.trace
      go (raised e) = h
      go (returned password) =
          let identifier = quote_identifier d.airflow_db_role in
          execute_both-Keeps (create_role identifier password)
            (comment_on_role identifier (ownership_comment d.project_id)) (λ _. tt) (λ _. tt) w h

  pub own_role-IsGuarded :
      (decrypt : String → Outcome String) (row : Option RoleRow)
      → Keeps d (own_role server decrypt d row)
  unfolding own_role
  own_role-IsGuarded decrypt none w h =
      then-IsGuarded d (create_owned_role server decrypt d) (pure (role_resource d))
        (create_owned_role-IsGuarded decrypt) (λ w h. h) w h
  own_role-IsGuarded decrypt (some row) w h =
      require->>= d (is_owned_role (some row) (ownership_comment d.project_id))
        "PostgreSQL role exists without matching Conductor ownership" (pure (role_resource d)) w h
        (λ _. h)

  own_database-IsGuarded :
      (row : Option RoleRow) (found : Option DatabaseRow)
      → Keeps d (own_database server d row found)
  unfolding own_database
  own_database-IsGuarded row none w h =
      then-IsGuarded d (fetch_role server d.airflow_db_role >>= create_owned_database server d row)
        (pure (database_resource d))
        (fetch_role->>= server d d.airflow_db_role (create_owned_database server d row)
          (λ current w _ _. create_owned_database-IsGuarded row current w))
        (λ w h. h) w h
  own_database-IsGuarded row (some found) w h =
      require->>= d
        (is_owned_database (some found) d.airflow_db_role (ownership_comment d.project_id))
        "PostgreSQL database exists without matching Conductor ownership"
        (pure (database_resource d)) w h (λ _. h)

  pub own_database_of-IsGuarded : (row : Option RoleRow) → Keeps d (own_database_of server d row)
  unfolding own_database_of
  own_database_of-IsGuarded row w h =
      require->>= d (is_owned_role row (ownership_comment d.project_id))
        "PostgreSQL owner role is absent or lacks matching Conductor ownership"
        (fetch_database server d.airflow_db_name >>= own_database server d row) w h
        (λ _.
          fetch_database->>= server d d.airflow_db_name (own_database server d row)
            (λ found w _ _. own_database-IsGuarded row found w) w h)
