-- ===== src/Database/Server.antt =====
-- The connection of backend/app/services/project_database.py: PostgreSQL is a parameter, what other
-- sessions do is a script, and the queries of a run leave a trace.
use conductor_data_platform.Prelude.{
  ℕ, String, Bool, true, false, ◌&&◌, Option, none, some, List, [], ◌∷◌, eqb, ◌==◌,
}
use conductor_data_platform.Lifecycle.{Raised, other}
use conductor_data_platform.Outcome.{Outcome, returned, raised}

-- The rows of `_ROLE_QUERY` and `_DATABASE_QUERY`.
pub record RoleRow : Type 0 where
  pub oid : ℕ
  pub comment : Option String

pub record DatabaseRow : Type 0 where
  pub oid : ℕ
  pub owner : String
  pub comment : Option String

-- The statements, with the quoted identifiers that their texts contain.
pub data Statement : Type 0 where
  create_role comment_on_role comment_on_database create_database : String → String → Statement
  revoke_connect disallow_connections drop_database drop_role : String → Statement
  terminate_backends : String → Statement

-- PostgreSQL over a state of its own. `none`: it refuses the statement, which then has no effect.
pub record Server (S : Type 0) : Type 0 where
  pub role : String → S → Option RoleRow
  pub database : String → S → Option DatabaseRow
  pub run : Statement → S → Option S

-- What comes before a query of ours: commits of other sessions, or the loss of the connection.
pub data Before (S : Type 0) : Type 0 where
  commits : (S → S) → Before S
  breaks : Before S

-- What a run has seen and done.
pub data Event : Type 0 where
  connected locked unlocked closed : Event
  found_role : Option RoleRow → Event
  found_database : Option DatabaseRow → Event
  ran : Statement → Event

-- The trace has the last event first.
pub record World (S : Type 0) : Type 0 where
  pub catalogue : S
  pub before : List (Before S)
  pub trace : List Event

abbrev pub Session : Type 0 → Type 0 → Type 0
Session S A = World S → Outcome A × World S

infixl 5 ◌>>=◌ ◌>>◌
abbrev pub ◌>>=◌ : {S A B : Type 0} → Session S A → (A → Session S B) → Session S B
◌>>=◌ m f w = let (r, w') = m w in elim r [ returned a ↦ f a w' | raised e ↦ (raised e, w') ]

abbrev pub ◌>>◌ : {S B : Type 0} → Session S (Unit {0}) → Session S B → Session S B
m >> k = m >>= λ _. k

abbrev pub pure : {S A : Type 0} → A → Session S A
pure a w = (returned a, w)

abbrev pub raising : {S A : Type 0} → Raised → Session S A
raising e w = (raised e, w)

abbrev pub connection_lost : Raised
connection_lost = other "connection was closed in the middle of operation"

abbrev pub refused : Raised
refused = other "PostgresError"

abbrev pub note : {S : Type 0} → Event → World S → World S
note e w = record w { trace = e ∷ w.trace }

abbrev pub arrive_at : {S : Type 0} → List (Before S) → World S → Outcome (Unit {0}) × World S
arrive_at [] w = (returned tt, w)
arrive_at (commits f ∷ rest) w =
    (returned tt, record w { catalogue = f w.catalogue; before = rest })
arrive_at (breaks ∷ rest) w = (raised connection_lost, record w { before = rest })

-- The next query reaches the server.
unfoldable pub arrive : {S : Type 0} → Session S (Unit {0})
arrive w = arrive_at w.before w

module _ {S : Type 0} (server : Server S) where
  abbrev pub read_role : String → Session S (Option RoleRow)
  read_role name w =
      let row = server.role name w.catalogue in (returned row, note (found_role row) w)

  unfoldable pub fetch_role : String → Session S (Option RoleRow)
  unfolding arrive
  fetch_role name = arrive >> read_role name

  abbrev pub read_database : String → Session S (Option DatabaseRow)
  read_database name w =
      let row = server.database name w.catalogue in (returned row, note (found_database row) w)

  unfoldable pub fetch_database : String → Session S (Option DatabaseRow)
  unfolding arrive
  fetch_database name = arrive >> read_database name

  abbrev pub effect : Statement → Session S (Unit {0})
  effect statement w = elim (server.run statement w.catalogue) [
    | none ↦ (raised refused, w)
    | some s ↦ (returned tt, note (ran statement) (record w { catalogue = s }))
  ]

  unfoldable pub execute : Statement → Session S (Unit {0})
  unfolding arrive
  execute statement = arrive >> effect statement

  abbrev pub both : Statement → Statement → Session S (Unit {0})
  both first second w =
      let (r, w') = (effect first >> effect second) w in
      elim r [ returned _ ↦ (returned tt, w') | raised e ↦ (raised e, w) ]

  -- Two statements in one transaction: both have their effects or none has.
  unfoldable pub execute_both : Statement → Statement → Session S (Unit {0})
  unfolding arrive
  execute_both first second = arrive >> both first second

-- `try: body except BaseException: handler; raise`
abbrev pub on_error : {S A : Type 0} → Session S A → Session S (Unit {0}) → Session S A
on_error body handler w =
    let (r, w') = body w in
    elim r [ returned a ↦ (returned a, w') | raised e ↦ (handler >>= λ _ w. (raised e, w)) w' ]

abbrev pub closing : {S A : Type 0} → Outcome A × World S → Outcome A × World S
closing (r, w) = (r, note closed w)

-- The end of a fenced block: unlock, where a failure replaces what the body ended in, and close.
abbrev pub release : {S A : Type 0} → Outcome A → Session S A
release r w =
    let (u, w') = arrive w in
    closing (elim u [ returned _ ↦ (r, note unlocked w') | raised e ↦ (raised e, w') ])

-- The advisory lock, the body and the release.
abbrev pub under_lock : {S A : Type 0} → Session S A → Session S A
under_lock body w =
    let (l, w') = arrive w in
    elim l [
      | raised e ↦ closing (raised e, w')
      | returned _ ↦ let (r, w'') = body (note locked w') in release r w''
    ]

-- `_fenced_connection`, around the body of its `async with`
unfoldable pub fenced_connection : {S A : Type 0} → Session S A → Session S A
unfolding arrive
fenced_connection body = arrive >> λ w. under_lock body (note connected w)

abbrev pub is_comment : Option String → Option String → Bool
is_comment none none = true
is_comment (some s) (some t) = s == t
is_comment _ _ = false

abbrev pub same_role : Option RoleRow → Option RoleRow → Bool
same_role (some left) (some right) = eqb right.oid left.oid && is_comment right.comment left.comment
same_role _ _ = false

abbrev pub same_database : Option DatabaseRow → Option DatabaseRow → Bool
same_database (some left) (some right) =
    eqb right.oid left.oid && right.owner == left.owner && is_comment right.comment left.comment
same_database _ _ = false
