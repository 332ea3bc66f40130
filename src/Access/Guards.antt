-- ===== src/Access/Guards.antt =====
-- The guards of backend/app/auth/permissions.py and services/project_access.py.
use conductor_data_platform.Prelude.{
  String, Bool, true, false, not, ◌&&◌, Option, none, some, List, if◌then◌else◌, ◌==◌, find_row,
  any_row, keep_rows,
}
use conductor_data_platform.Models.{
  Db, User, Project, Permission, find_member, find_project_by_slug, is_ready,
}
use conductor_data_platform.Http.{answer, http, Query, pure, refuse_if, or_http, ◌>>=◌, ◌>>◌}
use conductor_data_platform.Access.Patterns.{match_resource, match_action}

-- SELECT of the permissions of a role
abbrev pub permissions_of : String → Db → List Permission
permissions_of role_id db = keep_rows (λ p. p.role_id == role_id) db.permissions

abbrev pub grants : String → String → Permission → Bool
grants resource action p = match_resource p.resource resource && match_action p.action action

unfoldable pub check_permission : User → String → String → String → Db → Bool
check_permission user project_id resource action db =
    if user.is_admin then true else elim (find_member project_id user.id db) [
      | none ↦ false
      | some member ↦ any_row (grants resource action) (permissions_of member.role_id db)
    ]

unfoldable pub resolve_project_id : String → Query String
resolve_project_id slug = do
  project ← or_http (find_project_by_slug slug) 404 "Project not found"
  pure project.id

-- The dependency that `require_permission(resource, action)` makes.
unfoldable pub require_permission : String → String → String → User → Query (Unit {0})
unfolding check_permission
require_permission resource action project_id user db =
    if check_permission user project_id resource action db
    then answer tt
    else http 403 "Missing permission"

unfoldable pub require_super_admin : User → Query User
require_super_admin user = do
  refuse_if (not user.is_admin) 403 "Super Admin access required"
  pure user

abbrev is_none {ℓ} : {A : Type ℓ} → Option A → Bool
is_none none = true
is_none (some a) = false

unfoldable pub require_project_member : String → User → Query String
require_project_member project_id user db =
    if is_none (find_member project_id user.id db) && not user.is_admin
    then http 403 "Not a member of this project"
    else answer project_id

-- WHERE slug = … AND lifecycle_status = 'ready'
abbrev pub find_ready_project : String → Db → Option Project
find_ready_project slug db =
    find_row (λ p. p.slug == slug && is_ready p.lifecycle_status) db.projects

unfoldable pub load_ready_project_for_user : String → User → Query Project
load_ready_project_for_user slug user = do
  project ← or_http (find_ready_project slug) 404 "Project not found"
  member ← or_http (find_member project.id user.id) 403 "Access denied"
  pure project

unfoldable pub load_project_for_admin : String → User → Query Project
load_project_for_admin slug user = do
  refuse_if (not user.is_admin) 403 "Super Admin access required"
  or_http (find_project_by_slug slug) 404 "Project not found"
