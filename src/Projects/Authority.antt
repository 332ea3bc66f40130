-- ===== src/Projects/Authority.antt =====
-- Who can change anything through the endpoints that write.
use conductor_data_platform.Prelude.{
  ℕ, String, ◌≡◌, ◌≢◌, refl, ◌⊎◌, inl, inr, true, Option, some, arith, Bool-cases, Option-cases, In,
}
use conductor_data_platform.Models.{Db, User, Project, ProjectMember, Role, find_member, ready}
use conductor_data_platform.Http.{Reply, answer, http}
use conductor_data_platform.Access.{load_ready_project_for_user}
use conductor_data_platform.Access.Sound.{load_ready_project_for_user_sound}
use conductor_data_platform.Projects.Guards.{project_of_admin, ensure_admin_access, find_role_by_id}
use conductor_data_platform.Projects.Members.{
  add_member, change_member_role, remove_member, check_addition, check_change, check_removal,
}
use conductor_data_platform.Projects.Environments.{
  create_environment, update_environment, delete_environment, update_settings, update_project,
  environment_of_admin,
}
use conductor_data_platform.Projects.Git.{update_git_config}
use conductor_data_platform.Projects.Commands.{
  Command, adding, changing, removing, creating_environment, updating_environment,
  deleting_environment, updating_settings, updating_project, updating_git, execute,
}

-- A member of a ready project with this slug who is a super admin or has the role project_admin there.
pub record IsProjectAdmin (slug : String) (user : User) (db : Db) : Type 0 where
  pub project : Project
  pub row : In project db.projects
  pub slug_is : project.slug ≡ slug
  pub is_ready : project.lifecycle_status ≡ ready
  pub member : ProjectMember
  pub membership : find_member project.id user.id db ≡ some member
  pub authority :
      (user.is_admin ≡ true)
      ⊎ ((role : Role) × (find_role_by_id member.role_id db ≡ some role)
          × (role.name ≡ "project_admin"))

admin_passes :
    (slug : String) (user : User) (db : Db) (p q : Project)
    → load_ready_project_for_user slug user db ≡ answer q
    → project_of_admin slug user db ≡ answer p
    → (ensure_admin_access user q.id db ≡ answer tt) × (q ≡ p)
unfolding project_of_admin
admin_passes slug user db p q l h = ground (arith, l)

not_loaded :
    (slug : String) (user : User) (db : Db) (p : Project) (c : ℕ) (d : String)
    → load_ready_project_for_user slug user db ≡ http c d
    → project_of_admin slug user db ≢ answer p
unfolding project_of_admin
not_loaded slug user db p c d l h = ground (arith, l)

has_authority :
    (user : User) (project_id : String) (db : Db) (m : ProjectMember)
    → find_member project_id user.id db ≡ some m
    → ensure_admin_access user project_id db ≡ answer tt
    → (user.is_admin ≡ true)
      ⊎ ((role : Role) × (find_role_by_id m.role_id db ≡ some role) × (role.name ≡ "project_admin"))
unfolding ensure_admin_access
has_authority user project_id db m e h = elim (Bool-cases user.is_admin) [
  | inl a ↦ inl a
  | inr a ↦ elim (Option-cases (find_role_by_id m.role_id db)) [
    | inl f ↦ absurd (ground (arith, e))
    | inr (role, f) ↦ inr (role, f, ground (arith, e))
  ]
]

admitted_admin :
    (slug : String) (user : User) (db : Db) (p : Project)
    → project_of_admin slug user db ≡ answer p
    → IsProjectAdmin slug user db
admitted_admin slug user db p h = go (load_ready_project_for_user slug user db) refl
  where
    go :
        (r : Reply Project)
        → load_ready_project_for_user slug user db ≡ r
        → IsProjectAdmin slug user db
    go (http c d) l = absurd (not_loaded slug user db p c d l h)
    go (answer q) l =
        let (slug_is, is_ready, row, is_member, _) =
          load_ready_project_for_user_sound slug user db q l in
        let (passed, same) = admin_passes slug user db p q l h in
        elim (Option-cases (find_member q.id user.id db)) [
          | inl e ↦ absurd (is_member e)
          | inr (m, e) ↦ record {
            project = q;
            row = row;
            slug_is = slug_is;
            is_ready = is_ready;
            member = m;
            membership = e;
            authority = has_authority user q.id db m e passed;
          }
        ]

module _ (urlsplit : String → String × String) (encrypt : String → Option String) where
  unmoved :
      (slug : String) (user : User) (cmd : Command) (db : Db) (c : ℕ) (d : String)
      → project_of_admin slug user db ≡ http c d
      → execute urlsplit encrypt slug user cmd db ≡ db
  unfolding execute add_member change_member_role remove_member check_addition check_change
      check_removal create_environment update_environment delete_environment environment_of_admin
      update_settings update_project update_git_config
  unmoved slug user (adding now email role_name) db c d h = ground (arith, h)
  unmoved slug user (changing user_id role_name) db c d h = ground (arith, h)
  unmoved slug user (removing user_id) db c d h = ground (arith, h)
  unmoved slug user (creating_environment id body) db c d h = ground (arith, h)
  unmoved slug user (updating_environment env_id body) db c d h = ground (arith, h)
  unmoved slug user (deleting_environment env_id) db c d h = ground (arith, h)
  unmoved slug user (updating_settings enabled) db c d h = ground (arith, h)
  unmoved slug user (updating_project name description) db c d h = ground (arith, h)
  unmoved slug user (updating_git body) db c d h = ground (arith, h)

  -- A command changes the tables only if its user is a member of the ready project that it names, and is a
  -- super admin or has the role project_admin in it. So a super admin who is no member changes nothing.
  pub execute-IsProjectAdmin :
      (slug : String) (user : User) (cmd : Command) (db : Db)
      → execute urlsplit encrypt slug user cmd db ≢ db
      → IsProjectAdmin slug user db
  execute-IsProjectAdmin slug user cmd db changed = go (project_of_admin slug user db) refl
    where
      go : (r : Reply Project) → project_of_admin slug user db ≡ r → IsProjectAdmin slug user db
      go (answer p) e = admitted_admin slug user db p e
      go (http c d) e = absurd (changed (unmoved slug user cmd db c d e))
