-- ===== src/Database/Calls.antt =====
-- Sequences of calls of the manager for one deployment.
use conductor_data_platform.Prelude.{
  String, List, [], ◌∷◌, ◌≡◌, refl, ◌⊎◌, inl, inr, Option, none, some,
}
use conductor_data_platform.Models.{ProjectDeployment}
use conductor_data_platform.Lifecycle.{Raised}
use conductor_data_platform.Outcome.{Outcome, returned, raised}
use conductor_data_platform.Database.Identifiers.{validate}
use conductor_data_platform.Database.Server.{
  Server, World, Session, Event, closed, unlocked, locked, connected, note, arrive,
  fenced_connection, under_lock, release, closing, ◌>>=◌, fetch_role, fetch_database,
}
use conductor_data_platform.Database.Manager.{
  ensure_role, ensure_database, drop_database, drop_role, verify_absent, validated, own_role,
  own_database_of, drop_found, drop_found_role, report_role,
}
use conductor_data_platform.Database.Trace.{IsGuarded, arrive-trace}
use conductor_data_platform.Database.Guarded.{
  ensure_role-IsGuarded, ensure_database-IsGuarded, drop_database-IsGuarded, drop_role-IsGuarded,
  verify_absent-IsGuarded,
}

pub data Call : Type 0 where
  ensures_role ensures_database drops_database drops_role verifies_absent : Call

-- A call has ended: its world is as it was and nothing was returned, or the connection is closed,
-- after the lock was given back if a value is returned.
abbrev pub IsReleased : {S A : Type 0} → World S → Outcome A × World S → Type 0
IsReleased w (r, w') =
    ((e : Raised) × (r ≡ raised e) × (w'.trace ≡ w.trace))
    ⊎ ((past : List Event) × (w'.trace ≡ closed ∷ unlocked ∷ past))
    ⊎ ((e : Raised) × (past : List Event) × (r ≡ raised e) × (w'.trace ≡ closed ∷ past))

module _ {S : Type 0} (server : Server S) (decrypt : String → Outcome String)
    (d : ProjectDeployment) where
  pub perform : Call → World S → World S
  perform ensures_role w = (ensure_role server decrypt d w).1
  perform ensures_database w = (ensure_database server d w).1
  perform drops_database w = (drop_database server d w).1
  perform drops_role w = (drop_role server d w).1
  perform verifies_absent w = (verify_absent server d w).1

  pub perform_all : List Call → World S → World S
  unfolding perform
  perform_all [] w = w
  perform_all (call ∷ calls) w = perform_all calls (perform call w)

  perform-IsGuarded :
      (call : Call) (w : World S) → IsGuarded d w.trace → IsGuarded d (perform call w).trace
  unfolding perform
  perform-IsGuarded ensures_role = ensure_role-IsGuarded server d decrypt
  perform-IsGuarded ensures_database = ensure_database-IsGuarded server d
  perform-IsGuarded drops_database = drop_database-IsGuarded server d
  perform-IsGuarded drops_role = drop_role-IsGuarded server d
  perform-IsGuarded verifies_absent = verify_absent-IsGuarded server d

  -- Whatever calls of the manager are made for a deployment, whatever other sessions commit before each
  -- query and wherever the connection breaks: each DROP DATABASE names the database of the project and
  -- comes directly after a read that found it owned by the project's role, with the project's ownership
  -- comment or with none; each DROP ROLE names the project's role and comes directly after a read that
  -- found it with that comment.
  pub perform_all-IsGuarded :
      (calls : List Call) (w : World S)
      → IsGuarded d w.trace
      → IsGuarded d (perform_all calls w).trace
  unfolding perform_all
  perform_all-IsGuarded [] w h = h
  perform_all-IsGuarded (call ∷ calls) w h =
      perform_all-IsGuarded calls (perform call w) (perform-IsGuarded call w h)

module _ {S A : Type 0} (w₀ : World S) where
  release-IsReleased : (r : Outcome A) (w : World S) → IsReleased w₀ (release r w)
  release-IsReleased r w = go (arrive w).0
    where
      go :
          (u : Outcome (Unit {0}))
          → IsReleased w₀ (
              closing {S = S} (elim u as (λ _. Outcome A × World S) [
                | returned _ ↦ (r, note unlocked (arrive w).1)
                | raised e ↦ (raised e, (arrive w).1)
              ]))
      go (returned _) = inr (inl ((arrive w).1.trace, refl))
      go (raised e) = inr (inr (e, (arrive w).1.trace, refl, refl))

  under_lock-IsReleased : (body : Session S A) (w : World S) → IsReleased w₀ (under_lock body w)
  under_lock-IsReleased body w = go (arrive w).0
    where
      go :
          (l : Outcome (Unit {0}))
          → IsReleased w₀ (elim l as (λ _. Outcome A × World S) [
            | raised e ↦ closing (raised e, (arrive w).1)
            | returned _ ↦
                release (body (note locked (arrive w).1)).0 (body (note locked (arrive w).1)).1
          ])
      go (raised e) = inr (inr (e, (arrive w).1.trace, refl, refl))
      go (returned _) =
          release-IsReleased (body (note locked (arrive w).1)).0 (body (note locked (arrive w).1)).1

  fenced_connection-IsReleased :
      (d : ProjectDeployment) (body : Session S A) → IsReleased w₀ (fenced_connection body w₀)
  unfolding fenced_connection
  fenced_connection-IsReleased d body = go (arrive w₀).0
    where
      go :
          (o : Outcome (Unit {0}))
          → IsReleased w₀ (elim o as (λ _. Outcome A × World S) [
            | returned _ ↦ under_lock body (note connected (arrive w₀).1)
            | raised e ↦ (raised e, (arrive w₀).1)
          ])
      go (returned _) = under_lock-IsReleased body (note connected (arrive w₀).1)
      go (raised e) = inl (e, refl, arrive-trace d w₀)

  validated-IsReleased :
      (d : ProjectDeployment) (body : Session S A)
      → IsReleased w₀ (validated d (fenced_connection body) w₀)
  validated-IsReleased d body = go (validate d)
    where
      go :
          (o : Option Raised)
          → IsReleased w₀ (elim o as (λ _. Outcome A × World S) [
            | some e ↦ (raised e, w₀)
            | none ↦ fenced_connection body w₀
          ])
      go (some e) = inl (e, refl, refl)
      go none = fenced_connection-IsReleased d body

module _ {S : Type 0} (server : Server S) (decrypt : String → Outcome String)
    (d : ProjectDeployment) where
  -- However a call of the manager ends, its connection is closed and its advisory lock given back:
  -- either it raised before a connection was made, or the connection is closed directly after the lock
  -- was released, or an error was raised and the connection is closed all the same.
  pub calls-IsReleased :
      (w : World S)
      → IsReleased w (ensure_role server decrypt d w)
        × IsReleased w (ensure_database server d w)
        × IsReleased w (drop_database server d w)
        × IsReleased w (drop_role server d w)
        × IsReleased w (verify_absent server d w)
  unfolding ensure_role ensure_database drop_database drop_role verify_absent
  calls-IsReleased w = (
    validated-IsReleased w d (fetch_role server d.airflow_db_role >>= own_role server decrypt d),
    validated-IsReleased w d (fetch_role server d.airflow_db_role >>= own_database_of server d),
    validated-IsReleased w d (fetch_database server d.airflow_db_name >>= drop_found server d),
    validated-IsReleased w d (fetch_role server d.airflow_db_role >>= drop_found_role server d),
    validated-IsReleased w d (fetch_database server d.airflow_db_name >>= report_role server d),
  )
