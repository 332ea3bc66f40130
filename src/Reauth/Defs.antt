-- ===== src/Reauth/Defs.antt =====
-- create_reauth_grant and what it calls.
--
-- The JWT library (`decode`), the password hash check (`verify`), SHA-256 (`hash`) and the random token
-- are arguments. Redis is the table of the counters of one moment, or out of reach; its script INCR
-- and EXPIRE are written out.
use Prim.Native.String.{◌++◌}
use conductor_data_platform.Prelude.{
  ℕ, ◌+◌, String, Bool, true, false, not, ◌&&◌, ◌||◌, Option, none, some, List, [], ◌∷◌, ltb, leb,
  if◌then◌else◌, ◌==◌, is_empty, is_some_text,
}
use mathlib.Core.List
use conductor_data_platform.Models.{
  Db, User, Project, AuditEvent, ReauthGrant, text, find_user, find_project,
}

pub record Payload : Type 0 where
  pub token_type : Option String
  pub sub : Option String

pub record Settings : Type 0 where
  pub reauth_grant_ttl_seconds : ℕ
  pub reauth_rate_limit_attempts : ℕ
  pub reauth_rate_limit_window_seconds : ℕ

abbrev pub delete_action : String
delete_action = "project.delete"

-- A counter of Redis: key, count, and the time at which it is dropped.
pub record Counter : Type 0 where
  pub key : String
  pub count : ℕ
  pub expires_at : ℕ

-- The count of a key at a time; a key that is missing or has expired counts as 0.
unfoldable pub count_at : ℕ → String → List Counter → ℕ
count_at now key [] = 0
count_at now key (c ∷ cs) =
    if c.key == key && ltb now c.expires_at then c.count else count_at now key cs

unfoldable pub increment : ℕ → ℕ → String → List Counter → List Counter
increment now window key [] = record { key = key; count = 1; expires_at = now + window } ∷ []
increment now window key (c ∷ cs) =
    if c.key == key && ltb now c.expires_at
    then record c { count = c.count + 1 } ∷ cs
    else c ∷ increment now window key cs

abbrev pub user_key : String → String
user_key user_id = "reauth:rate:user:" ++ user_id

abbrev pub ip_key : String → String
ip_key source_ip = "reauth:rate:ip:" ++ source_ip

-- What INCR returns for a key: its count, raised by one
abbrev pub incremented : ℕ → String → List Counter → ℕ
incremented now key counters = count_at now key counters + 1

-- Both counters are raised, the user's first, and what the increments return is compared with the limit.
unfoldable pub check_rate_limits :
    Settings → ℕ → String → String → List Counter → Bool × List Counter
unfolding count_at increment
check_rate_limits s now user_id source_ip counters =
    let window = s.reauth_rate_limit_window_seconds in
    let after_user = increment now window (user_key user_id) counters in
    let after_ip = increment now window (ip_key source_ip) after_user in
    (
      leb (incremented now (user_key user_id) counters) s.reauth_rate_limit_attempts
          && leb (incremented now (ip_key source_ip) after_user) s.reauth_rate_limit_attempts,
      after_ip,
    )

-- A token, or the ReauthError with its status and public text.
pub data Reauth : Type 0 where
  granted : String → Reauth
  refused : ℕ → String → Reauth

abbrev name_or_unknown : Option Project → String
name_or_unknown none = "<unknown>"
name_or_unknown (some p) = p.name

abbrev slug_or_unknown : Option Project → String
slug_or_unknown none = "<unknown>"
slug_or_unknown (some p) = p.slug

abbrev id_or : String → Option Project → String
id_or requested none = requested
id_or requested (some p) = p.id

abbrev id_of : Option User → Option String
id_of none = none
id_of (some u) = some u.id

-- `_audit_event`, with its fresh correlation id
abbrev pub audit_event :
    Option User → Option Project → String → String → String → String → AuditEvent
audit_event actor project requested outcome reason correlation_id = record {
  event_type = "auth.reauth";
  actor_user_id = id_of actor;
  project_id_snapshot = id_or requested project;
  project_name_snapshot = name_or_unknown project;
  project_slug_snapshot = slug_or_unknown project;
  correlation_id = correlation_id;
  outcome = outcome;
  metadata_json = ("reason_code", text reason) ∷ [];
}

pub record Denial : Type 0 where
  pub reason : String
  pub status : ℕ
  pub detail : String

abbrev add_event : AuditEvent → Db → Db
add_event e db = record db { audit = List.◌++◌ db.audit (e ∷ []) }

-- `_fail`: the event is committed, then the error is raised.
unfoldable pub fail : Option User → Option Project → String → String → Denial → Db → Reauth × Db
fail actor project requested correlation_id d db = (
  refused d.status d.detail,
  add_event (audit_event actor project requested "failed" d.reason correlation_id) db,
)

abbrev pub denial : String → ℕ → String → Denial
denial reason status detail = record { reason = reason; status = status; detail = detail }

abbrev pub is_none {ℓ} : {A : Type ℓ} → Option A → Bool
is_none none = true
is_none (some a) = false

-- `actor is not None and not actor.is_active`, and so for `is_admin`
abbrev pub is_inactive : Option User → Bool
is_inactive none = false
is_inactive (some u) = not u.is_active

abbrev pub is_no_admin : Option User → Bool
is_no_admin none = false
is_no_admin (some u) = not u.is_admin

-- The table `checks`, in its order.
abbrev pub checks : Bool → Option User → String → Option Project → List (Bool × Denial)
checks allowed actor action project =
    (not allowed, denial "rate_limited" 429 "Too many re-authentication attempts")
    ∷ (is_none actor, denial "actor_not_found" 403 "Re-authentication is not permitted")
    ∷ (is_inactive actor, denial "inactive_actor" 403 "Re-authentication is not permitted")
    ∷ (is_no_admin actor, denial "not_super_admin" 403 "Re-authentication is not permitted")
    ∷ (
      not (action == delete_action),
      denial "invalid_action" 400 "Unsupported re-authentication action",
    )
    ∷ (is_none project, denial "project_not_found" 404 "Project not found")
    ∷ []

-- The loop over the checks: the first that denies.
abbrev pub first_denial : List (Bool × Denial) → Option Denial
first_denial [] = none
first_denial ((denied, d) ∷ cs) = if denied then some d else first_denial cs

-- What one request needs from outside: its time, its random token and its correlation id.
pub record Fresh : Type 0 where
  pub now : ℕ
  pub token : String
  pub correlation_id : String

module _ (s : Settings) (verify : String → String → Bool) (hash : String → String) where
  abbrev pub grant_row : Fresh → User → Project → ReauthGrant
  grant_row f actor project = record {
    token_hash = hash f.token;
    user_id = actor.id;
    action = delete_action;
    project_id = project.id;
    expires_at = f.now + s.reauth_grant_ttl_seconds;
    consumed_at = none;
    created_at = f.now;
  }

  unfoldable pub issue : Fresh → User → Project → String → Db → Reauth × Db
  issue f actor project requested db = (
    granted f.token,
    add_event
        (audit_event (some actor) (some project) requested "succeeded" "granted" f.correlation_id)
        (record db { grants = List.◌++◌ db.grants (grant_row f actor project ∷ []) }),
  )

  -- The password, once the table of checks has denied nothing.
  unfoldable pub confirm : Fresh → User → Project → String → String → Db → Reauth × Db
  unfolding fail issue
  confirm f actor project password requested db =
      if verify password actor.hashed_password
      then issue f actor project requested db
      else fail (some actor) (some project) requested f.correlation_id
          (denial "invalid_password" 401 "Re-authentication failed") db

  -- The `assert` that the row of the user and of the project are there is a 500 where it fails.
  unfoldable pub proceed :
      Option Denial → Fresh → Option User → Option Project → String → String → Db → Reauth × Db
  unfolding fail confirm
  proceed (some d) f actor project password requested db =
      fail actor project requested f.correlation_id d db
  proceed none f (some actor) (some project) password requested db =
      confirm f actor project password requested db
  proceed none f (some actor) none password requested db = (refused 500 "Internal Server Error", db)
  proceed none f none project password requested db = (refused 500 "Internal Server Error", db)

  -- `none` for the counters is a Redis that cannot be reached.
  unfoldable pub reauthenticate :
      Fresh
      → String
      → Option (List Counter)
      → String
      → String
      → String
      → String
      → Db
      → Reauth × Option (List Counter) × Db
  unfolding check_rate_limits proceed
  reauthenticate f user_id redis password action project_id source_ip db =
      let actor = find_user user_id db in
      let project = find_project project_id db in
      elim redis [
        | none ↦
            let (r, db') =
              fail actor project project_id f.correlation_id
                (denial "rate_limit_unavailable" 503 "Re-authentication temporarily unavailable")
                db in
            (r, none, db')
        | some counters ↦
            let (allowed, counters') = check_rate_limits s f.now user_id source_ip counters in
            let (r, db') =
              proceed (first_denial (checks allowed actor action project)) f actor project password
                project_id db in
            (r, some counters', db')
      ]

  unfoldable pub create_reauth_grant :
      (String → Option Payload)
      → Fresh
      → Option (List Counter)
      → String
      → String
      → String
      → String
      → String
      → Db
      → Reauth × Option (List Counter) × Db
  unfolding reauthenticate
  create_reauth_grant decode f redis access_token password action project_id source_ip db =
      elim (decode access_token) [
        | none ↦ (refused 401 "Invalid or expired token", redis, db)
        | some payload ↦ elim payload.sub [
          | none ↦ (refused 401 "Invalid or expired token", redis, db)
          | some user_id ↦
              if not (is_some_text payload.token_type "access") || is_empty user_id
              then (refused 401 "Invalid or expired token", redis, db)
              else reauthenticate f user_id redis password action project_id source_ip db
        ]
      ]
