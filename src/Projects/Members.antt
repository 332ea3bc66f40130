-- ===== src/Projects/Members.antt =====
-- add_member, change_member_role and remove_member.
use conductor_data_platform.Prelude.{
  ℕ, String, Bool, not, ◌&&◌, Option, none, some, [], ◌∷◌, ◌++◌, leb, if◌then◌else◌, ◌==◌,
  keep_rows, count_rows, update_rows,
}
use conductor_data_platform.Models.{
  Db, User, Role, Project, ProjectMember, find_member, find_user, find_user_by_email,
  find_role_by_name, is_membership,
}
use conductor_data_platform.Http.{
  Reply, answer, http, Query, ◌>>=◌, ◌>>◌, pure, or_http, commit, respond,
}
use conductor_data_platform.Projects.Guards.{project_of_admin}

pub record MemberResponse : Type 0 where
  pub user_id : String
  pub email : String
  pub display_name : String
  pub role_name : String
  pub role_id : String
  pub joined_at : ℕ

abbrev pub member_response : User → Role → ℕ → MemberResponse
member_response user role joined_at = record {
  user_id = user.id;
  email = user.email;
  display_name = user.display_name;
  role_name = role.name;
  role_id = role.id;
  joined_at = joined_at;
}

-- Refuse if the row is there.
abbrev pub absent_or_http {ℓ} : {A : Type ℓ} → (Db → Option A) → ℕ → String → Query (Unit {0})
absent_or_http q status detail db = elim (q db) [ none ↦ answer tt | some _ ↦ http status detail ]

abbrev pub Addition : Type 0
Addition = Project × User × Role

unfoldable pub check_addition : String → String → String → User → Query Addition
check_addition slug email role_name user = project_of_admin slug user >>= λ project.
    or_http (find_user_by_email email) 404 "User not found by email" >>= λ target.
    absent_or_http (find_member project.id target.id) 409 "User is already a member"
    >> or_http (find_role_by_name role_name) 400 "Role not found"
    >>= λ role. pure (project, target, role)

abbrev pub added_member : ℕ → Addition → ProjectMember
added_member now (project, target, role) = record {
  project_id = project.id;
  user_id = target.id;
  role_id = role.id;
  created_at = now;
}

unfoldable pub add_member : ℕ → String → String → String → User → Db → Reply MemberResponse × Db
unfolding check_addition
add_member now slug email role_name user db =
    respond (λ (project, target, role). member_response target role now)
      (commit (check_addition slug email role_name user)
        (λ a db. record db { members = db.members ++ added_member now a ∷ [] }) db)

-- The two checks of change_member_role after the guards; the row of the user is fetched after the commit.
unfoldable pub check_change :
    String → String → String → User → Query (Project × Role × ProjectMember)
check_change slug user_id role_name user = project_of_admin slug user >>= λ project.
    or_http (find_role_by_name role_name) 400 "Role not found" >>= λ role.
    or_http (find_member project.id user_id) 404 "Member not found" >>= λ member.
    pure (project, role, member)

abbrev pub with_role : String → String → String → Db → Db
with_role project_id user_id role_id db = record db {
  members =
      update_rows (is_membership project_id user_id) (λ m. record m { role_id = role_id })
        db.members;
}

-- The response needs the row of the user, which the foreign key keeps.
abbrev pub changed_response :
    String → Reply (Project × Role × ProjectMember) × Db → Reply MemberResponse × Db
changed_response user_id (http c d, db) = (http c d, db)
changed_response user_id (answer (project, role, member), db) = elim (find_user user_id db) [
  | none ↦ (http 500 "Internal Server Error", db)
  | some target ↦ (answer (member_response target role member.created_at), db)
]

unfoldable pub change_member_role : String → String → String → User → Db → Reply MemberResponse × Db
unfolding check_change
change_member_role slug user_id role_name user db = changed_response user_id (
    commit (check_change slug user_id role_name user)
      (λ (project, role, member) db. with_role project.id user_id role.id db) db)

abbrev pub is_admin_row : String → ProjectMember → Bool
is_admin_row project_id m = m.project_id == project_id && m.role_id == "project_admin"

-- The last row with the role id "project_admin" stays.
unfoldable pub check_removal : String → String → User → Query Project
check_removal slug user_id user = project_of_admin slug user >>= λ project.
    or_http (find_member project.id user_id) 404 "Member not found" >>= λ member db.
    if member.role_id == "project_admin" && leb (count_rows (is_admin_row project.id) db.members) 1
    then http 400 "Cannot remove the last project admin"
    else answer project

abbrev pub without_member : String → String → Db → Db
without_member project_id user_id db = record db {
  members = keep_rows (λ m. not (is_membership project_id user_id m)) db.members;
}

unfoldable pub remove_member : String → String → User → Db → Reply (Unit {0}) × Db
unfolding check_removal
remove_member slug user_id user db =
    respond (λ _. tt)
      (commit (check_removal slug user_id user) (λ project. without_member project.id user_id) db)
