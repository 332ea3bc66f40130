-- ===== src/Sessions/Endpoints.antt =====
-- The endpoints register, login, refresh and me of backend/app/routers/auth.py, and the current user of
-- backend/app/auth/deps.py. `verify` and `hash` are those of bcrypt; the ids and random texts of a request
-- are passed in. A request runs as one step.
use conductor_data_platform.Prelude.{
  ℕ, ◌*◌, String, Bool, true, false, not, Option, none, some, List, [], ◌∷◌, ◌++◌, if◌then◌else◌,
  ◌==◌, keep_rows,
}
use conductor_data_platform.Models.{
  Db, User, Project, ProjectMember, Role, find_user, find_project, find_role,
}
use conductor_data_platform.Http.{Reply, answer, http, Query}
use conductor_data_platform.Models.{find_user_by_email}
use conductor_data_platform.Sessions.Tokens.{
  Claims, Jwt, SessionSettings, create_access_token, create_refresh_token, Stored, refresh_key,
  redis_get, redis_delete, redis_setex,
}

pub record TokenResponse : Type 0 where
  pub access_token : String
  pub refresh_token : String
  pub expires_in : ℕ

pub record Store : Type 0 where
  pub db : Db
  pub redis : List Stored

-- The moment of a request and its random ids
pub record Moment : Type 0 where
  pub now : ℕ
  pub access_jti : String
  pub refresh_jti : String
  pub user_id : String

pub record RegisterRequest : Type 0 where
  pub email : String
  pub password : String
  pub display_name : String

module _ (jwt : Jwt) (s : SessionSettings) where
  -- The tokens of a new session, and what is stored of them
  unfoldable pub issue : Moment → User → Store → Reply TokenResponse × Store
  unfolding create_access_token create_refresh_token redis_setex
  issue m user store =
      let (refresh, jti) = create_refresh_token jwt s m.now m.refresh_jti user in
      (
        answer (record {
          access_token = create_access_token jwt s m.now m.access_jti user;
          refresh_token = refresh;
          expires_in = s.access_token_expire_minutes * 60;
        }),
        record store {
          redis =
              redis_setex m.now (refresh_key s jti) (s.refresh_token_expire_days * 86400) user.id
                store.redis;
        },
      )

  abbrev pub new_user : (String → String) → Moment → RegisterRequest → User
  new_user hash m body = record {
    id = m.user_id;
    email = body.email;
    hashed_password = hash body.password;
    display_name = body.display_name;
    is_active = true;
    is_admin = false;
  }

  unfoldable pub register :
      (String → String) → Moment → RegisterRequest → Store → Reply TokenResponse × Store
  unfolding issue
  register hash m body store = elim (find_user_by_email body.email store.db) [
    | some _ ↦ (http 409 "Email already registered", store)
    | none ↦
        let user = new_user hash m body in
        issue m user (record store { db = record store.db { users = store.db.users ++ user ∷ [] } })
  ]

  unfoldable pub authenticated : (String → String → Bool) → String → String → Query User
  authenticated verify email password db = elim (find_user_by_email email db) [
    | none ↦ http 401 "Invalid email or password"
    | some user ↦
        if not (verify password user.hashed_password)
        then http 401 "Invalid email or password"
        else if not user.is_active
        then http 401 "User account is disabled"
        else answer user
  ]

  unfoldable pub login :
      (String → String → Bool) → Moment → String → String → Store → Reply TokenResponse × Store
  unfolding authenticated issue
  login verify m email password store = elim (authenticated verify email password store.db) [
    | http c d ↦ (http c d, store)
    | answer user ↦ issue m user store
  ]

  unfoldable pub presented : ℕ → String → List Stored → Reply Claims
  unfolding redis_get
  presented now token redis = elim (jwt.decode now token) [
    | none ↦ http 401 "Invalid refresh token"
    | some c ↦
        if not (c.token_type == "refresh")
        then http 401 "Invalid refresh token"
        else elim (redis_get now (refresh_key s c.jti) redis) [
          | none ↦ http 401 "Refresh token expired or revoked"
          | some stored ↦
              if stored == c.sub then answer c else http 401 "Refresh token expired or revoked"
        ]
  ]

  -- Behind the deletion of the presented token
  unfoldable pub renew : Moment → String → Store → Reply TokenResponse × Store
  unfolding issue
  renew m user_id store = elim (find_user user_id store.db) [
    | none ↦ (http 401 "User not found or inactive", store)
    | some user ↦
        if user.is_active
        then issue m user store
        else (http 401 "User not found or inactive", store)
  ]

  unfoldable pub refresh : Moment → String → Store → Reply TokenResponse × Store
  unfolding presented redis_delete renew
  refresh m token store = elim (presented m.now token store.redis) [
    | http c d ↦ (http c d, store)
    | answer c ↦
        renew m c.sub (record store { redis = redis_delete (refresh_key s c.jti) store.redis })
  ]

unfoldable pub get_current_user_from_access_token : Jwt → ℕ → String → Query User
get_current_user_from_access_token jwt now token db = elim (jwt.decode now token) [
  | none ↦ http 401 "Invalid or expired token"
  | some c ↦
      if not (c.token_type == "access")
      then http 401 "Invalid or expired token"
      else elim (find_user c.sub db) [
        | none ↦ http 401 "User not found or inactive"
        | some user ↦ if user.is_active then answer user else http 401 "User not found or inactive"
      ]
]

pub record UserProjectInfo : Type 0 where
  pub project_id : String
  pub slug : String
  pub name : String
  pub role : String

pub record UserMeResponse : Type 0 where
  pub id : String
  pub email : String
  pub display_name : String
  pub is_admin : Bool
  pub projects : List UserProjectInfo

-- Foreign keys keep the project and the role of a membership in their tables.
abbrev project_info : Option Project → Option Role → List UserProjectInfo
project_info (some p) (some r) =
    record { project_id = p.id; slug = p.slug; name = p.name; role = r.name } ∷ []
project_info _ _ = []

unfoldable pub project_infos : Db → List ProjectMember → List UserProjectInfo
project_infos db [] = []
project_infos db (m ∷ ms) =
    project_info (find_project m.project_id db) (find_role m.role_id db) ++ project_infos db ms

unfoldable pub me : User → Db → UserMeResponse
unfolding project_infos
me user db = record {
  id = user.id;
  email = user.email;
  display_name = user.display_name;
  is_admin = user.is_admin;
  projects = project_infos db (keep_rows (λ m. m.user_id == user.id) db.members);
}
