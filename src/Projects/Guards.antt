-- ===== src/Projects/Guards.antt =====
-- _ensure_access and _ensure_admin_access, behind load_ready_project_for_user.
use conductor_data_platform.Prelude.{String, Option, none, some, if◌then◌else◌, ◌==◌, find_row}
use conductor_data_platform.Models.{Db, User, Project, Role, find_member}
use conductor_data_platform.Http.{Reply, answer, http, Query, ◌>>=◌, ◌>>◌, pure}
use conductor_data_platform.Access.{load_ready_project_for_user}

-- The role behind the foreign key of a membership.
abbrev pub find_role_by_id : String → Db → Option Role
find_role_by_id id db = find_row (λ r. r.id == id) db.roles

unfoldable pub ensure_access : User → String → Query (Unit {0})
ensure_access user project_id db =
    if user.is_admin then answer tt else elim (find_member project_id user.id db) [
      | none ↦ http 403 "Access denied"
      | some _ ↦ answer tt
    ]

-- A membership whose role is missing, which the foreign key rules out, is a server error.
unfoldable pub ensure_admin_access : User → String → Query (Unit {0})
ensure_admin_access user project_id db =
    if user.is_admin then answer tt else elim (find_member project_id user.id db) [
      | none ↦ http 403 "Project admin access required"
      | some member ↦ elim (find_role_by_id member.role_id db) [
        | none ↦ http 500 "Internal Server Error"
        | some role ↦
            if role.name == "project_admin"
            then answer tt
            else http 403 "Project admin access required"
      ]
    ]

-- The two lines with which each endpoint begins.
unfoldable pub project_of_member : String → User → Query Project
project_of_member slug user = load_ready_project_for_user slug user >>= λ project.
    ensure_access user project.id >> pure project

unfoldable pub project_of_admin : String → User → Query Project
project_of_admin slug user = load_ready_project_for_user slug user >>= λ project.
    ensure_admin_access user project.id >> pure project

-- A field of a partial update: left out, null, or a value.
pub data Field (A : Type 0) : Type 0 where
  unset null : Field A
  set : A → Field A

-- `none` is a null for a column that is NOT NULL, which the commit refuses.
abbrev pub apply_field : {A : Type 0} → Field A → A → Option A
apply_field unset a = some a
apply_field null a = none
apply_field (set b) a = some b

-- What a commit refuses for a constraint: an IntegrityError that nothing catches.
abbrev pub server_error {ℓ} : {A : Type ℓ} → Reply A
server_error = http 500 "Internal Server Error"

infixl 5 ◌>>=?◌
abbrev pub ◌>>=?◌ : {A B : Type 0} → Option A → (A → Option B) → Option B
none >>=? f = none
some a >>=? f = f a
