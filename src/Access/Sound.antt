-- ===== src/Access/Sound.antt =====
-- What the guards let through, and what an Airflow context shows of the user that asked for it.
use conductor_data_platform.Prelude.{
  String, ◌≡◌, ◌≢◌, ◌↔◌, refl, ◌⊎◌, inl, inr, true, not, ◌&&◌, none, some, arith, Bool-cases,
  Option-cases, ◌==◌, find_row-holds, find_row-In, any_row, String-discrete, ne_of_test, In,
  any_row-In, In-any_row, keep_rows-In, In-keep_rows,
}
use conductor_data_platform.Models.{
  Db, User, Project, ProjectMember, Permission, ready, find_member, is_ready, find_deployment,
  ProjectDeployment, Role,
}
use conductor_data_platform.Http.{Reply, answer, http}
use conductor_data_platform.Access.Patterns.{match_resource, match_action}
use conductor_data_platform.Access.Guards.{
  check_permission, permissions_of, grants, load_ready_project_for_user, find_ready_project,
}
use conductor_data_platform.Access.Context.{
  ProjectAirflowContext, resolve_airflow_account, resolve_project_airflow_context, find_role,
}

-- A row of the permissions table that lets a member act.
pub record IsGranted (user : User) (project_id resource action : String) (db : Db) : Type 0 where
  pub member : ProjectMember
  pub membership : find_member project_id user.id db ≡ some member
  pub permission : Permission
  pub row : In permission db.permissions
  pub of_role : permission.role_id ≡ member.role_id
  pub resource_matches : match_resource permission.resource resource ≡ true
  pub action_matches : match_action permission.action action ≡ true

granted :
    (user : User) (project_id resource action : String) (db : Db) (m : ProjectMember)
    → find_member project_id user.id db ≡ some m
    → any_row (grants resource action) (permissions_of m.role_id db) ≡ true
    → IsGranted user project_id resource action db
granted user project_id resource action db m e h =
    let (p, i, g) = any_row-In (grants resource action) (permissions_of m.role_id db) h in
    let (row, role) = keep_rows-In (λ p. p.role_id == m.role_id) db.permissions p i in
    record {
      member = m;
      membership = e;
      permission = p;
      row = row;
      of_role = ground arith;
      resource_matches = ground arith;
      action_matches = ground arith;
    }

-- `check_permission` is exact: a super admin passes, and anyone else passes exactly if their role in
-- the project has a permission row whose resource pattern and whose action match.
pub check_permission_iff :
    (user : User) (project_id resource action : String) (db : Db)
    → (check_permission user project_id resource action db ≡ true)
      ↔ ((user.is_admin ≡ true) ⊎ IsGranted user project_id resource action db)
unfolding check_permission
check_permission_iff user project_id resource action db = (forth, back)
  where
    forth :
        check_permission user project_id resource action db ≡ true
        → (user.is_admin ≡ true) ⊎ IsGranted user project_id resource action db
    forth h = elim (Bool-cases user.is_admin) [
      | inl a ↦ inl a
      | inr a ↦ elim (Option-cases (find_member project_id user.id db)) [
        | inl e ↦ absurd (ground arith)
        | inr (m, e) ↦ inr (granted user project_id resource action db m e (ground arith))
      ]
    ]

    back :
        (user.is_admin ≡ true) ⊎ IsGranted user project_id resource action db
        → check_permission user project_id resource action db ≡ true
    back (inl a) = ground arith
    back (inr g) =
        let row =
          In-keep_rows (λ p. p.role_id == g.member.role_id) db.permissions g.permission g.row
            (ground (arith, g.of_role)) in
        let found =
          In-any_row (grants resource action) (permissions_of g.member.role_id db) g.permission row
            (ground (arith, g.resource_matches, g.action_matches)) in
        ground (arith, found, g.membership)

-- A project that `load_ready_project_for_user` answers with is a row with this slug, is ready and has
-- the user as a member; the user's being a super admin plays no part.
pub load_ready_project_for_user_sound :
    (slug : String) (user : User) (db : Db) (p : Project)
    → load_ready_project_for_user slug user db ≡ answer p
    → (p.slug ≡ slug)
      × (p.lifecycle_status ≡ ready)
      × In p db.projects
      × (find_member p.id user.id db ≢ none)
      × (load_ready_project_for_user slug (record user { is_admin = not user.is_admin }) db
          ≡ answer p)
unfolding load_ready_project_for_user
load_ready_project_for_user_sound slug user db p h =
    elim (Option-cases (find_ready_project slug db)) [
      | inl e ↦ absurd (ground arith)
      | inr (q, e) ↦
          let row =
            find_row-In (λ p. p.slug == slug && is_ready p.lifecycle_status) db.projects q e in
          let fits =
            find_row-holds (λ p. p.slug == slug && is_ready p.lifecycle_status) db.projects e in
          let same : q ≡ p = ground arith in
          rw (← same) (ground arith, ground arith, row, ground arith, ground arith)
    ]

dev-ne-admin : ◌≢◌ {A = String} "dev" "admin"
unfolding String-discrete
dev-ne-admin = ne_of_test "dev" "admin" refl

viewer-ne-admin : ◌≢◌ {A = String} "viewer" "admin"
unfolding String-discrete
viewer-ne-admin = ne_of_test "viewer" "admin" refl

-- The Airflow account of a role is the administrator's exactly for super admins and project admins;
-- it is always one of the three accounts.
pub resolve_airflow_account_iff :
    (role : String)
    → ((resolve_airflow_account role ≡ "admin")
        ↔ ((role ≡ "super_admin") ⊎ (role ≡ "project_admin")))
      × ((resolve_airflow_account role ≡ "admin")
          ⊎ ((resolve_airflow_account role ≡ "dev") ⊎ (resolve_airflow_account role ≡ "viewer")))
unfolding resolve_airflow_account
resolve_airflow_account_iff role = ((forth, ground arith), ground arith)
  where
    forth :
        resolve_airflow_account role ≡ "admin" → (role ≡ "super_admin") ⊎ (role ≡ "project_admin")
    forth h = ground (arith, dev-ne-admin, viewer-ne-admin)

-- What a context says: its project is ready and the user is a member, the user has the permission,
-- the deployment is the project's current one, and the account is that of the member's role.
pub record ContextIsSound (slug : String) (user : User) (resource action : String) (db : Db)
    (c : ProjectAirflowContext) : Type 0 where
  pub project : Project
  pub loaded : load_ready_project_for_user slug user db ≡ answer project
  pub project_id : c.project_id ≡ project.id
  pub permitted : check_permission user project.id resource action db ≡ true
  pub deployment : ProjectDeployment
  pub deployed : find_deployment project.id db ≡ some deployment
  pub deployment_id : c.deployment_id ≡ deployment.id
  pub generation : c.deployment_generation ≡ deployment.generation
  pub member : ProjectMember
  pub membership : find_member project.id user.id db ≡ some member
  pub role : Role
  pub role_found : find_role member.role_id db ≡ some role
  pub account : c.account_key ≡ resolve_airflow_account role.name

-- Whatever context `resolve_project_airflow_context` answers with is sound in that sense.
pub resolve_project_airflow_context_sound :
    (slug : String) (user : User) (resource action : String) (db : Db) (c : ProjectAirflowContext)
    → resolve_project_airflow_context slug user resource action db ≡ answer c
    → ContextIsSound slug user resource action db c
unfolding resolve_project_airflow_context
resolve_project_airflow_context_sound slug user resource action db c h =
    go (load_ready_project_for_user slug user db) refl
  where
    context :
        (p : Project)
        → load_ready_project_for_user slug user db ≡ answer p
        → ContextIsSound slug user resource action db c
    context p l = elim (Option-cases (find_member p.id user.id db)) [
      | inl e ↦ absurd (ground arith)
      | inr (m, e) ↦ elim (Option-cases (find_deployment p.id db)) [
        | inl f ↦ absurd (ground arith)
        | inr (d, f) ↦ elim (Option-cases (find_role m.role_id db)) [
          | inl g ↦ absurd (ground arith)
          | inr (r, g) ↦ record {
            project = p;
            loaded = l;
            project_id = ground arith;
            permitted = ground arith;
            deployment = d;
            deployed = f;
            deployment_id = ground arith;
            generation = ground arith;
            member = m;
            membership = e;
            role = r;
            role_found = g;
            account = ground arith;
          }
        ]
      ]
    ]

    go :
        (r : Reply Project)
        → load_ready_project_for_user slug user db ≡ r
        → ContextIsSound slug user resource action db c
    go (answer p) l = context p l
    go (http s d) l = absurd (ground arith)
