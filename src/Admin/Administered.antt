-- ===== src/Admin/Administered.antt =====
-- Any sequence of administrators' requests.
use mathlib.Core.Path.{subst}
use conductor_data_platform.Prelude.{
  String, not, Option, none, some, List, [], ◌∷◌, ◌++◌, ◌==◌, ◌≡◌, refl, ◌∙◌, arith, Bool-cases,
  inl, inr, any_row, keep_rows, find_row, find_row-In, find_row-holds, keep_rows-In, In-append,
}
use conductor_data_platform.Models.{find_role}
use conductor_data_platform.Models.{Db, Role, Permission}
use conductor_data_platform.Admin.Requests.{
  AdminCall, updates_user, deactivates_user, creates_role, updates_role, deletes_role,
  adds_permission, removes_permission, administer, administer_all, update_user, deactivate_user,
  add_permission, remove_permission, new_permission, PermissionCreateRequest, is_permission_of,
}
use conductor_data_platform.Admin.Consistent.{
  HasRole, IsConsistent, KeepsSystem, Fine, same-Fine, along, refused-Fine, permissions-Fine,
  create_role-Fine, delete_role-Fine,
}
use conductor_data_platform.Admin.Renaming.{update_role-Fine}

module _ (db : Db) (c : IsConsistent db) where
  add_permission-Fine :
      (id role_id : String) (body : PermissionCreateRequest)
      → Fine db (add_permission id role_id body db).1
  unfolding add_permission
  add_permission-Fine id role_id body = go (find_role role_id db) refl
    where
      new : Permission
      new = new_permission id role_id body

      go :
          (o : Option Role)
          → find_role role_id db ≡ o
          → Fine db (add_permission id role_id body db).1
      go none e = refused-Fine db (add_permission id role_id body db).1 c (ground arith)
      go (some role) e = elim (Bool-cases (any_row (λ p. p.id == id) db.permissions)) [
        | inl taken ↦ refused-Fine db (add_permission id role_id body db).1 c (ground arith)
        | inr free ↦
            let hit = find_row-holds (λ r. r.id == role_id) db.roles e in
            let found : HasRole db.roles role_id =
              (role, find_row-In (λ r. r.id == role_id) db.roles role e, ground arith) in
            along db (record db { permissions = db.permissions ++ new ∷ [] })
              (add_permission id role_id body db).1 (ground arith)
              (permissions-Fine db (record db { permissions = db.permissions ++ new ∷ [] }) c refl
                refl
                (λ p i. elim (In-append db.permissions new p i) [
                  | inl old ↦ c.permission_role p old
                  | inr same ↦ subst (λ q. HasRole db.roles q.role_id) same found
                ]))
      ]

  remove_permission-Fine :
      (role_id perm_id : String) → Fine db (remove_permission role_id perm_id db).1
  unfolding remove_permission
  remove_permission-Fine role_id perm_id =
      go (find_row (is_permission_of role_id perm_id) db.permissions) refl
    where
      go :
          (o : Option Permission)
          → find_row (is_permission_of role_id perm_id) db.permissions ≡ o
          → Fine db (remove_permission role_id perm_id db).1
      go none e = refused-Fine db (remove_permission role_id perm_id db).1 c (ground arith)
      go (some found) e =
          let next = record db {
            permissions = keep_rows (λ p. not (p.id == found.id)) db.permissions;
          } in
          along db next (remove_permission role_id perm_id db).1 (ground arith) (
            permissions-Fine db next c refl refl (λ p i.
              c.permission_role p
                (keep_rows-In (λ p. not (p.id == found.id)) db.permissions p i).0))

  administer-Fine : (call : AdminCall) → Fine db (administer call db)
  unfolding administer update_user deactivate_user
  administer-Fine (updates_user user_id body) =
      permissions-Fine db (update_user user_id body db).1 c (ground arith) (ground arith)
        (ground arith)
  administer-Fine (deactivates_user user_id) =
      permissions-Fine db (deactivate_user user_id db).1 c (ground arith) (ground arith)
        (ground arith)
  administer-Fine (creates_role id body) = create_role-Fine id body db c
  administer-Fine (updates_role role_id body) = update_role-Fine role_id body db c
  administer-Fine (deletes_role role_id) = delete_role-Fine role_id db c
  administer-Fine (adds_permission id role_id body) = add_permission-Fine id role_id body
  administer-Fine (removes_permission role_id perm_id) = remove_permission-Fine role_id perm_id

-- Whatever administrators request, in any order: ids and names of roles stay unique, no permission and no
-- membership lacks its role, and every system role stays, with its id, as a system role.
pub administer_all-IsConsistent :
    (calls : List AdminCall) (db : Db)
    → IsConsistent db
    → IsConsistent (administer_all calls db) × KeepsSystem db (administer_all calls db)
unfolding administer_all
administer_all-IsConsistent [] db c = same-Fine db c
administer_all-IsConsistent (call ∷ calls) db c =
    let (c', keeps) = administer-Fine db c call in
    let (last, keeps') = administer_all-IsConsistent calls (administer call db) c' in
    (
      last,
      λ r i system.
          let (r', j, e, s) = keeps r i system in
          let (r'', k, e', s') = keeps' r' j s in (r'', k, e' ∙ e, s'),
    )
