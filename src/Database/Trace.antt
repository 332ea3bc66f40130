-- ===== src/Database/Trace.antt =====
-- What is read before a drop, whatever other sessions commit between two queries and wherever the
-- connection breaks.
use conductor_data_platform.Prelude.{
  ◌≡◌, refl, String, Bool, true, false, ◌||◌, Option, none, some, List, [], ◌∷◌, arith,
}
use conductor_data_platform.Models.{ProjectDeployment}
use conductor_data_platform.Outcome.{Outcome, returned, raised}
use conductor_data_platform.Database.Identifiers.{ownership_comment, quote_identifier}
use conductor_data_platform.Database.Server.{
  RoleRow, DatabaseRow, Statement, drop_database, drop_role, Server, Before, commits, breaks, Event,
  found_role, found_database, ran, World, arrive, arrive_at, Session, ◌>>=◌, ◌>>◌, fetch_role,
  fetch_database, read_role, read_database, effect, refused, note, execute,
}
use conductor_data_platform.Database.Manager.{is_owned_role, is_owned_database, require, is_created}

-- The database that a read has found belongs to the project, or to its role with no comment yet.
abbrev pub is_ours : ProjectDeployment → Option DatabaseRow → Bool
is_ours d row =
    is_owned_database row d.airflow_db_role (ownership_comment d.project_id)
    || is_created row d.airflow_db_role

abbrev pub database_was_ours : ProjectDeployment → List Event → Bool
database_was_ours d (found_database row ∷ past) = is_ours d row
database_was_ours d _ = false

abbrev pub role_was_ours : ProjectDeployment → List Event → Bool
role_was_ours d (found_role row ∷ past) = is_owned_role row (ownership_comment d.project_id)
role_was_ours d _ = false

-- What may stand behind a trace.
abbrev pub MayRun : ProjectDeployment → Statement → List Event → Type 0
MayRun d (drop_database i) past =
    (i ≡ quote_identifier d.airflow_db_name) × (database_was_ours d past ≡ true)
MayRun d (drop_role i) past =
    (i ≡ quote_identifier d.airflow_db_role) × (role_was_ours d past ≡ true)
MayRun d _ past = Unit

abbrev pub Fits : ProjectDeployment → Event → List Event → Type 0
Fits d (ran st) past = MayRun d st past
Fits d _ past = Unit

-- Each drop of the trace comes directly after a read that found the project's own resource.
abbrev pub IsGuarded : ProjectDeployment → List Event → Type 0
IsGuarded d [] = Unit
IsGuarded d (e ∷ past) = Fits d e past × IsGuarded d past

module _ {S : Type 0} (d : ProjectDeployment) where
  abbrev pub Keeps : {A : Type 0} → Session S A → Type 0
  Keeps m = (w : World S) → IsGuarded d w.trace → IsGuarded d (m w).1.trace

  -- The last event before `m` is `e`.
  abbrev pub After : {A : Type 0} → Event → Session S A → Type 0
  After e m =
      (w : World S) (past : List Event)
      → w.trace ≡ e ∷ past
      → IsGuarded d w.trace
      → IsGuarded d (m w).1.trace

  pub >>=-IsGuarded :
      {A B : Type 0} (m : Session S A) (f : A → Session S B) (w : World S)
      → IsGuarded d (m w).1.trace
      → ((a : A) → (m w).0 ≡ returned a → IsGuarded d (f a (m w).1).1.trace)
      → IsGuarded d ((m >>= f) w).1.trace
  >>=-IsGuarded {A} {B} m f w h k = go (m w).0 refl
    where
      go :
          (r : Outcome A)
          → (m w).0 ≡ r
          → IsGuarded d
              (elim r as (λ _. Outcome B × World S) [
                | returned a ↦ f a (m w).1
                | raised e ↦ (raised e, (m w).1)
              ]).1.trace
      go (returned a) e = k a e
      go (raised x) e = h

  pub require-Keeps : (b : Bool) (message : String) → Keeps (require b message)
  require-Keeps true message w h = h
  require-Keeps false message w h = h

  -- What `require` lets through may be used behind it.
  pub require->>= :
      {A : Type 0} (b : Bool) (message : String) (k : Session S A) (w : World S)
      → IsGuarded d w.trace
      → (b ≡ true → IsGuarded d (k w).1.trace)
      → IsGuarded d ((require b message >> k) w).1.trace
  require->>= true message k w h hk = hk refl
  require->>= false message k w h hk = h

  arrive_at-trace : (l : List (Before S)) (w : World S) → (arrive_at l w).1.trace ≡ w.trace
  arrive_at-trace [] w = refl
  arrive_at-trace (commits f ∷ l) w = refl
  arrive_at-trace (breaks ∷ l) w = refl

  pub arrive-trace : (w : World S) → (arrive w).1.trace ≡ w.trace
  unfolding arrive
  arrive-trace w = arrive_at-trace w.before w

module _ {S : Type 0} (server : Server S) (d : ProjectDeployment) where
  pub effect_lem :
      (st : Statement) (w : World S)
      → MayRun d st w.trace
      → IsGuarded d w.trace
      → IsGuarded d (effect server st w).1.trace
  effect_lem st w m h = go (server.run st w.catalogue)
    where
      go :
          (o : Option S)
          → IsGuarded d
              (elim o as (λ _. Outcome (Unit {0}) × World S) [
                | none ↦ (raised refused, w)
                | some s ↦ (returned tt, note (ran st) (record w { catalogue = s }))
              ]).1.trace
      go none = h
      go (some s) = (m, h)

  pub execute_lem :
      (st : Statement) (w : World S)
      → MayRun d st w.trace
      → IsGuarded d w.trace
      → IsGuarded d (execute server st w).1.trace
  unfolding execute
  execute_lem st w m h =
      let e = arrive-trace d w in
      >>=-IsGuarded d arrive (λ _. effect server st) w (rw e h)
        (λ _ _. effect_lem st (arrive w).1 (rw e m) (rw e h))

  module _ (name : String) (w : World S) where
    fetch_database-trace :
        (row : Option DatabaseRow)
        → (fetch_database server name w).0 ≡ returned row
        → (fetch_database server name w).1.trace ≡ found_database row ∷ w.trace
    unfolding fetch_database arrive
    fetch_database-trace row = go w.before
      where
        go :
            (l : List (Before S))
            → (((λ w. arrive_at l w) >> read_database server name) w).0 ≡ returned row
            → (((λ w. arrive_at l w) >> read_database server name) w).1.trace
              ≡ found_database row ∷ w.trace
        go [] h = ground arith
        go (commits f ∷ l) h = ground arith
        go (breaks ∷ l) h = cc

    fetch_database-IsGuarded :
        IsGuarded d w.trace → IsGuarded d (fetch_database server name w).1.trace
    unfolding fetch_database
    fetch_database-IsGuarded h =
        >>=-IsGuarded d arrive (λ _. read_database server name) w (rw (arrive-trace d w) h)
          (λ _ _. (tt, rw (arrive-trace d w) h))

    fetch_role-trace :
        (row : Option RoleRow)
        → (fetch_role server name w).0 ≡ returned row
        → (fetch_role server name w).1.trace ≡ found_role row ∷ w.trace
    unfolding fetch_role arrive
    fetch_role-trace row = go w.before
      where
        go :
            (l : List (Before S))
            → (((λ w. arrive_at l w) >> read_role server name) w).0 ≡ returned row
            → (((λ w. arrive_at l w) >> read_role server name) w).1.trace ≡ found_role row ∷ w.trace
        go [] h = ground arith
        go (commits f ∷ l) h = ground arith
        go (breaks ∷ l) h = cc

    fetch_role-IsGuarded : IsGuarded d w.trace → IsGuarded d (fetch_role server name w).1.trace
    unfolding fetch_role
    fetch_role-IsGuarded h =
        >>=-IsGuarded d arrive (λ _. read_role server name) w (rw (arrive-trace d w) h)
          (λ _ _. (tt, rw (arrive-trace d w) h))

  -- Behind a read, the rest of a run starts from a trace that ends in what was found.
  pub fetch_database->>= :
      {B : Type 0} (name : String) (f : Option DatabaseRow → Session S B)
      → ((row : Option DatabaseRow) → After d (found_database row) (f row))
      → Keeps d (fetch_database server name >>= f)
  fetch_database->>= name f k w h =
      >>=-IsGuarded d (fetch_database server name) f w (fetch_database-IsGuarded name w h) (λ row e.
        k row (fetch_database server name w).1 w.trace (fetch_database-trace name w row e)
          (fetch_database-IsGuarded name w h))

  pub fetch_role->>= :
      {B : Type 0} (name : String) (f : Option RoleRow → Session S B)
      → ((row : Option RoleRow) → After d (found_role row) (f row))
      → Keeps d (fetch_role server name >>= f)
  fetch_role->>= name f k w h =
      >>=-IsGuarded d (fetch_role server name) f w (fetch_role-IsGuarded name w h) (λ row e.
        k row (fetch_role server name w).1 w.trace (fetch_role-trace name w row e)
          (fetch_role-IsGuarded name w h))
