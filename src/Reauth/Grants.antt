-- ===== src/Reauth/Grants.antt =====
-- Who obtains a deletion grant from create_reauth_grant, and what each request records.
use conductor_data_platform.Prelude.{
  ℕ, ◌<◌, String, ◌≡◌, ◌≢◌, ◌↔◌, refl, ◌⊎◌, inl, inr, Bool, true, Option, none, some, List, [], ◌∷◌,
  ◌++◌, arith, Bool-cases,
}
use conductor_data_platform.Models.{Db, User, Project, AuditEvent, find_user, find_project}
use conductor_data_platform.Reauth.Defs.{
  Settings, Counter, Fresh, Reauth, granted, refused, delete_action, check_rate_limits,
  first_denial, checks, proceed, confirm, issue, fail, reauthenticate, Denial, audit_event,
  grant_row, count_at, user_key, ip_key,
}
use conductor_data_platform.Reauth.Limits.{check_rate_limits_iff}

module _ (s : Settings) (verify : String → String → Bool) (hash : String → String) where
  -- What must hold for a grant.
  pub record IsEntitled (f : Fresh) (user_id : String) (redis : Option (List Counter))
      (password action project_id source_ip : String) (db : Db) : Type 0 where
    pub counters : List Counter
    pub reachable : redis ≡ some counters
    pub user_below : count_at f.now (user_key user_id) counters < s.reauth_rate_limit_attempts
    pub ip_below : count_at f.now (ip_key source_ip) counters < s.reauth_rate_limit_attempts
    pub actor : User
    pub actor_found : find_user user_id db ≡ some actor
    pub active : actor.is_active ≡ true
    pub admin : actor.is_admin ≡ true
    pub deletes : action ≡ delete_action
    pub project : Project
    pub project_found : find_project project_id db ≡ some project
    pub password_matches : verify password actor.hashed_password ≡ true

  entitled_row :
      (f : Fresh) (allowed : Bool) (actor : Option User) (project : Option Project)
      (password action requested token : String) (db : Db)
      → (proceed s verify hash
          (first_denial (checks allowed actor action project))
          f
          actor
          project
          password
          requested
          db).0
        ≡ granted token
      → (allowed ≡ true)
        × (action ≡ delete_action)
        × ((a : User) × (p : Project) × (actor ≡ some a)
            × (project ≡ some p)
            × (a.is_active ≡ true)
            × (a.is_admin ≡ true)
            × (verify password a.hashed_password ≡ true))
        × (token ≡ f.token)
  unfolding proceed confirm issue fail
  entitled_row f allowed none project password action requested token db h = absurd (ground arith)
  entitled_row f allowed (some a) none password action requested token db h = absurd (ground arith)
  entitled_row f allowed (some a) (some p) password action requested token db h = (
    ground arith,
    ground arith,
    (a, p, refl, refl, ground arith, ground arith, ground arith),
    ground arith,
  )

  issued_row :
      (f : Fresh) (allowed : Bool) (a : User) (p : Project) (password action requested : String)
      (db : Db)
      → allowed ≡ true
      → action ≡ delete_action
      → a.is_active ≡ true
      → a.is_admin ≡ true
      → verify password a.hashed_password ≡ true
      → (proceed s verify hash
          (first_denial (checks allowed (some a) action (some p)))
          f
          (some a)
          (some p)
          password
          requested
          db).0
        ≡ granted f.token
  unfolding proceed confirm issue
  issued_row f allowed a p password action requested db l d active admin v = ground arith

  -- A request gets a token exactly if Redis answers, both counters are below the limit, the user is an
  -- active super admin, the action is the deletion, the project exists and the password is the user's; and
  -- the token is then the fresh one.
  pub reauthenticate_iff :
      (f : Fresh) (user_id : String) (redis : Option (List Counter))
      (password action project_id source_ip token : String) (db : Db)
      → ((reauthenticate s verify hash f user_id redis password action project_id source_ip db).0
          ≡ granted token)
        ↔ (IsEntitled f user_id redis password action project_id source_ip db × (token ≡ f.token))
  unfolding reauthenticate
  reauthenticate_iff f user_id none password action project_id source_ip token db =
      (λ h. absurd (ground arith), λ (e, t). absurd (ground (arith, e.reachable)))
  reauthenticate_iff f user_id (some cs) password action project_id source_ip token db =
      (forth, back)
    where
      forth :
          (reauthenticate s verify hash f user_id
              (some cs)
              password
              action
              project_id
              source_ip
              db).0
            ≡ granted token
          → IsEntitled f user_id (some cs) password action project_id source_ip db
            × (token ≡ f.token)
      forth h =
          let (l, d, (a, p, ea, ep, active, admin, v), t) =
            entitled_row f (check_rate_limits s f.now user_id source_ip cs).0 (find_user user_id db)
              (find_project project_id db) password action project_id token db h in
          let below = (check_rate_limits_iff s f.now user_id source_ip cs).0 l in
          (
            record {
              counters = cs;
              reachable = refl;
              user_below = below.0;
              ip_below = below.1;
              actor = a;
              actor_found = ea;
              active = active;
              admin = admin;
              deletes = d;
              project = p;
              project_found = ep;
              password_matches = v;
            },
            t,
          )

      back :
          IsEntitled f user_id (some cs) password action project_id source_ip db × (token ≡ f.token)
          → (reauthenticate s verify hash f user_id
              (some cs)
              password
              action
              project_id
              source_ip
              db).0
            ≡ granted token
      back (e, t) =
          let same : cs ≡ e.counters = ground (arith, e.reachable) in
          let l : (check_rate_limits s f.now user_id source_ip cs).0 ≡ true = rw same (
            (check_rate_limits_iff s f.now user_id source_ip e.counters).1
              (e.user_below, e.ip_below)) in
          rw (e.actor_found, e.project_found, t)
            (issued_row f (check_rate_limits s f.now user_id source_ip cs).0 e.actor e.project
              password action project_id db l e.deletes e.active e.admin e.password_matches)

  -- The rows that a request leaves: one more event of the audit log, and one more grant exactly if a
  -- token went out, for the user and project of the request.
  pub record IsRecorded (f : Fresh) (r : Reauth) (user : Option User) (project : Option Project)
      (db db' : Db) : Type 0 where
    pub event : AuditEvent
    pub logged : db'.audit ≡ db.audit ++ event ∷ []
    pub projects : db'.projects ≡ db.projects
    pub users : db'.users ≡ db.users
    pub outcome :
        ((r ≡ granted f.token)
          × (event.outcome ≡ "succeeded")
          × ((a : User) × (p : Project) × (user ≡ some a)
              × (project ≡ some p)
              × (db'.grants ≡ db.grants ++ grant_row s verify hash f a p ∷ [])))
        ⊎ ((code : ℕ) × (detail : String) × (r ≡ refused code detail)
            × (event.outcome ≡ "failed")
            × (db'.grants ≡ db.grants))

  fail-IsRecorded :
      (f : Fresh) (user : Option User) (project : Option Project) (requested : String) (d : Denial)
      (db : Db)
      → let (r, db') = fail user project requested f.correlation_id d db in
        IsRecorded f r user project db db'
  unfolding fail
  fail-IsRecorded f user project requested d db = record {
    event = audit_event user project requested "failed" d.reason f.correlation_id;
    logged = refl;
    projects = refl;
    users = refl;
    outcome = inr (d.status, d.detail, refl, refl, refl);
  }

  confirm-IsRecorded :
      (f : Fresh) (a : User) (p : Project) (password requested : String) (db : Db)
      → let (r, db') = confirm s verify hash f a p password requested db in
        IsRecorded f r (some a) (some p) db db'
  unfolding confirm issue
  confirm-IsRecorded f a p password requested db =
      elim (Bool-cases (verify password a.hashed_password)) [
        | inl v ↦ rw v (record {
          event = audit_event (some a) (some p) requested "succeeded" "granted" f.correlation_id;
          logged = refl;
          projects = refl;
          users = refl;
          outcome = inl (refl, refl, (a, p, refl, refl, refl));
        })
        | inr v ↦ rw v (fail-IsRecorded f (some a) (some p) requested _ db)
      ]

  no_actor :
      (allowed : Bool) (action : String) (project : Option Project)
      → first_denial (checks allowed none action project) ≢ none
  no_actor allowed action project h = ground arith

  no_project :
      (allowed : Bool) (action : String) (a : User)
      → first_denial (checks allowed (some a) action none) ≢ none
  no_project allowed action a h = ground arith

  proceed-IsRecorded :
      (f : Fresh) (allowed : Bool) (actor : Option User) (project : Option Project)
      (password action requested : String) (db : Db) (o : Option Denial)
      → first_denial (checks allowed actor action project) ≡ o
      → let (r, db') = proceed s verify hash o f actor project password requested db in
        IsRecorded f r actor project db db'
  unfolding proceed
  proceed-IsRecorded f allowed actor project password action requested db (some d) e =
      fail-IsRecorded f actor project requested d db
  proceed-IsRecorded f allowed (some a) (some p) password action requested db none e =
      confirm-IsRecorded f a p password requested db
  proceed-IsRecorded f allowed (some a) none password action requested db none e =
      absurd (no_project allowed action a e)
  proceed-IsRecorded f allowed none project password action requested db none e =
      absurd (no_actor allowed action project e)

  -- Every request behind a valid token, whatever it ends in, adds exactly one event to the audit log:
  -- "succeeded" together with one unused grant for the user and the project it names, or "failed" with the
  -- grants as they were. It changes no user and no project.
  pub reauthenticate-IsRecorded :
      (f : Fresh) (user_id : String) (redis : Option (List Counter))
      (password action project_id source_ip : String) (db : Db)
      → let (r, _, db') =
          reauthenticate s verify hash f user_id redis password action project_id source_ip db in
        IsRecorded f r (find_user user_id db) (find_project project_id db) db db'
  unfolding reauthenticate
  reauthenticate-IsRecorded f user_id none password action project_id source_ip db =
      fail-IsRecorded f (find_user user_id db) (find_project project_id db) project_id _ db
  reauthenticate-IsRecorded f user_id (some cs) password action project_id source_ip db =
      proceed-IsRecorded f (check_rate_limits s f.now user_id source_ip cs).0 (find_user user_id db)
        (find_project project_id db) password action project_id db _ refl
