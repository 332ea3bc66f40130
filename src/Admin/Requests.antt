-- ===== src/Admin/Requests.antt =====
-- The endpoints of backend/app/routers/admin.py on users, roles and permissions, each one transaction,
-- behind `require_super_admin`. An IntegrityError is caught nowhere and answered with status 500.
use conductor_data_platform.Prelude.{
  ℕ, String, Bool, true, false, not, ◌&&◌, ◌||◌, Option, none, some, List, [], ◌∷◌, ◌++◌,
  if◌then◌else◌, ◌==◌, find_row, keep_rows, update_rows, any_row, length,
}
use conductor_data_platform.Models.{Db, User, Role, Permission, Project, find_role, find_user}
use conductor_data_platform.Http.{Reply, answer, http, Query, or_http}

-- A field of a PATCH body: unset, or a value, or null
abbrev pub Field : Type 0 → Type 0
Field A = Option (Option A)

module _ {A : Type 0} where
  abbrev pub is_set : Field A → Bool
  is_set none = false
  is_set (some _) = true

  -- A null, which a column with NOT NULL refuses
  abbrev pub is_null : Field A → Bool
  is_null (some none) = true
  is_null _ = false

  abbrev pub column : Field A → A → A
  column (some (some new)) old = new
  column _ old = old

  abbrev pub nullable_column : Field A → Option A → Option A
  nullable_column none old = old
  nullable_column (some new) old = new

abbrev pub internal_error : {A : Type 0} → Reply A
internal_error = http 500 "Internal Server Error"

pub record UserUpdateRequest : Type 0 where
  pub display_name : Field String
  pub is_admin : Field Bool
  pub is_active : Field Bool

pub record RoleCreateRequest : Type 0 where
  pub name : String
  pub description : Option String

pub record RoleUpdateRequest : Type 0 where
  pub name : Field String
  pub description : Field String

pub record PermissionCreateRequest : Type 0 where
  pub resource : String
  pub action : String
  pub constraint : Option String

unfoldable pub get_user : String → Query User
get_user user_id = or_http (find_user user_id) 404 "User not found"

abbrev pub with_user_fields : UserUpdateRequest → User → User
with_user_fields body u = record u {
  display_name = column body.display_name u.display_name;
  is_admin = column body.is_admin u.is_admin;
  is_active = column body.is_active u.is_active;
}

abbrev pub save_user : String → (User → User) → Db → Db
save_user user_id f db = record db { users = update_rows (λ u. u.id == user_id) f db.users }

unfoldable pub update_user : String → UserUpdateRequest → Db → Reply User × Db
unfolding get_user
update_user user_id body db = elim (get_user user_id db) [
  | http c d ↦ (http c d, db)
  | answer user ↦
      if not (is_set body.display_name || is_set body.is_admin || is_set body.is_active)
      then (answer user, db)
      else if is_null body.display_name || is_null body.is_admin || is_null body.is_active
      then (internal_error, db)
      else (answer (with_user_fields body user), save_user user_id (with_user_fields body) db)
]

unfoldable pub deactivate_user : String → Db → Reply (Unit {0}) × Db
unfolding get_user
deactivate_user user_id db = elim (get_user user_id db) [
  | http c d ↦ (http c d, db)
  | answer user ↦ (answer tt, save_user user_id (λ u. record u { is_active = false }) db)
]

abbrev pub new_role : String → RoleCreateRequest → Role
new_role id body = record {
  id = id;
  name = body.name;
  description = body.description;
  is_system = false;
}

-- Ids and names of roles are unique.
unfoldable pub create_role : String → RoleCreateRequest → Db → Reply Role × Db
create_role id body db =
    if any_row (λ r. r.id == id || r.name == body.name) db.roles
    then (internal_error, db)
    else (answer (new_role id body), record db { roles = db.roles ++ new_role id body ∷ [] })

abbrev pub is_taken : String → Field String → List Role → Bool
is_taken role_id (some (some name)) roles =
    any_row (λ r. r.name == name && not (r.id == role_id)) roles
is_taken role_id _ roles = false

abbrev pub with_role_fields : RoleUpdateRequest → Role → Role
with_role_fields body r = record r {
  name = column body.name r.name;
  description = nullable_column body.description r.description;
}

unfoldable pub update_role : String → RoleUpdateRequest → Db → Reply Role × Db
update_role role_id body db = elim (find_role role_id db) [
  | none ↦ (http 404 "Role not found", db)
  | some role ↦
      if not (is_set body.name || is_set body.description)
      then (answer role, db)
      else if is_null body.name || is_taken role_id body.name db.roles
      then (internal_error, db)
      else (
        answer (with_role_fields body role),
        record db { roles = update_rows (λ r. r.id == role_id) (with_role_fields body) db.roles },
      )
]

-- The permissions of the role go with it, by the cascade of the relationship.
abbrev pub without_role : String → Db → Db
without_role role_id db = record db {
  roles = keep_rows (λ r. not (r.id == role_id)) db.roles;
  permissions = keep_rows (λ p. not (p.role_id == role_id)) db.permissions;
}

-- A membership restricts the deletion of its role.
unfoldable pub delete_role : String → Db → Reply (Unit {0}) × Db
delete_role role_id db = elim (find_role role_id db) [
  | none ↦ (http 404 "Role not found", db)
  | some role ↦
      if role.is_system
      then (http 400 "Cannot delete system role", db)
      else if any_row (λ m. m.role_id == role_id) db.members
      then (internal_error, db)
      else (answer tt, without_role role_id db)
]

unfoldable pub list_permissions : String → Db → List Permission
list_permissions role_id db = keep_rows (λ p. p.role_id == role_id) db.permissions

abbrev pub new_permission : String → String → PermissionCreateRequest → Permission
new_permission id role_id body = record {
  id = id;
  role_id = role_id;
  resource = body.resource;
  action = body.action;
  constraint = body.constraint;
}

unfoldable pub add_permission :
    String → String → PermissionCreateRequest → Db → Reply Permission × Db
add_permission id role_id body db = elim (find_role role_id db) [
  | none ↦ (http 404 "Role not found", db)
  | some role ↦
      let permission = new_permission id role_id body in
      if any_row (λ p. p.id == id) db.permissions
      then (internal_error, db)
      else (answer permission, record db { permissions = db.permissions ++ permission ∷ [] })
]

abbrev pub is_permission_of : String → String → Permission → Bool
is_permission_of role_id perm_id p = p.id == perm_id && p.role_id == role_id

unfoldable pub remove_permission : String → String → Db → Reply (Unit {0}) × Db
remove_permission role_id perm_id db =
    elim (find_row (is_permission_of role_id perm_id) db.permissions) [
      | none ↦ (http 404 "Permission not found", db)
      | some permission ↦ (
        answer tt,
        record db { permissions = keep_rows (λ p. not (p.id == permission.id)) db.permissions },
      )
    ]

pub record AdminProjectResponse : Type 0 where
  pub id : String
  pub name : String
  pub slug : String
  pub member_count : ℕ
  pub airflow_status : String

abbrev status_or : Option String → String
status_or none = "not_provisioned"
status_or (some s) = s

-- `airflow_status` gives the status of a project's row of airflow_instances.
unfoldable pub list_admin_projects :
    (String → Option String) → Db → List Project → List AdminProjectResponse
list_admin_projects airflow_status db [] = []
list_admin_projects airflow_status db (p ∷ ps) =
    record {
      id = p.id;
      name = p.name;
      slug = p.slug;
      member_count = length (keep_rows (λ m. m.project_id == p.id) db.members);
      airflow_status = status_or (airflow_status p.id);
    }
    ∷ list_admin_projects airflow_status db ps

pub data AdminCall : Type 0 where
  updates_user : String → UserUpdateRequest → AdminCall
  deactivates_user : String → AdminCall
  -- with the id of the new row
  creates_role : String → RoleCreateRequest → AdminCall
  updates_role : String → RoleUpdateRequest → AdminCall
  deletes_role : String → AdminCall
  adds_permission : String → String → PermissionCreateRequest → AdminCall
  removes_permission : String → String → AdminCall

unfoldable pub administer : AdminCall → Db → Db
administer (updates_user user_id body) db = (update_user user_id body db).1
administer (deactivates_user user_id) db = (deactivate_user user_id db).1
administer (creates_role id body) db = (create_role id body db).1
administer (updates_role role_id body) db = (update_role role_id body db).1
administer (deletes_role role_id) db = (delete_role role_id db).1
administer (adds_permission id role_id body) db = (add_permission id role_id body db).1
administer (removes_permission role_id perm_id) db = (remove_permission role_id perm_id db).1

unfoldable pub administer_all : List AdminCall → Db → Db
unfolding administer
administer_all [] db = db
administer_all (c ∷ cs) db = administer_all cs (administer c db)
