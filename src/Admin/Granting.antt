-- ===== src/Admin/Granting.antt =====
-- What adding and removing a permission changes for check_permission.
use conductor_data_platform.Prelude.{
  String, Bool, true, false, not, ◌&&◌, ◌||◌, Option, none, some, List, [], ◌∷◌, ◌++◌, ◌==◌, ◌≡◌,
  refl, arith, Bool-cases, inl, inr, find_row, keep_rows, any_row, ==-refl,
}
use conductor_data_platform.Models.{find_role}
use conductor_data_platform.Models.{Db, User, Role, Permission, ProjectMember, find_member}
use conductor_data_platform.Http.{answer}
use conductor_data_platform.Access.{check_permission, grants, match_resource, match_action}
use conductor_data_platform.Admin.Requests.{
  PermissionCreateRequest, add_permission, remove_permission, new_permission, is_permission_of,
}

module _ {A : Type 0} (p g : A → Bool) (new : A) where
  any_row-append :
      (xs : List A)
      → any_row g (keep_rows p (xs ++ new ∷ [])) ≡ (any_row g (keep_rows p xs) || (p new && g new))
  any_row-append [] = ground arith
  any_row-append (x ∷ xs) = ground (arith, any_row-append xs)

keep_rows-all :
    {A : Type 0} (p : A → Bool) (xs : List A)
    → any_row p xs ≡ false
    → keep_rows (λ x. not (p x)) xs ≡ xs
keep_rows-all p [] h = refl
keep_rows-all p (x ∷ xs) h = ground (arith, keep_rows-all p xs)

-- The list without a last row that is the only one to pass
keep_rows-last :
    {A : Type 0} (p : A → Bool) (xs : List A) (new : A)
    → any_row p xs ≡ false
    → p new ≡ true
    → keep_rows (λ x. not (p x)) (xs ++ new ∷ []) ≡ xs
keep_rows-last p [] new h e = ground arith
keep_rows-last p (x ∷ xs) new h e = ground (arith, keep_rows-last p xs new)

-- Whether the membership of the user in the project has the role
unfoldable pub has_role : User → String → String → Db → Bool
has_role user project_id role_id db = elim (find_member project_id user.id db) [
  | none ↦ false
  | some member ↦ role_id == member.role_id
]

module _ (id role_id : String) (body : PermissionCreateRequest) (db : Db) where
  abbrev new : Permission
  new = new_permission id role_id body

  abbrev after : Db
  after = record db { permissions = db.permissions ++ new ∷ [] }

  add_permission-answer :
      (permission : Permission) (db' : Db)
      → add_permission id role_id body db ≡ (answer permission, db')
      → (any_row (λ p. p.id == id) db.permissions ≡ false) × (permission ≡ new) × (after ≡ db')
  unfolding add_permission
  add_permission-answer permission db' h = go (find_role role_id db) refl
    where
      go :
          (o : Option Role)
          → find_role role_id db ≡ o
          → (any_row (λ p. p.id == id) db.permissions ≡ false) × (permission ≡ new) × (after ≡ db')
      go none e = absurd (ground arith)
      go (some role) e = elim (Bool-cases (any_row (λ p. p.id == id) db.permissions)) [
        | inl taken ↦ absurd (ground arith)
        | inr free ↦ (free, ground arith, ground arith)
      ]

  check_permission-after :
      (user : User) (project_id resource action : String)
      → check_permission user project_id resource action after ≡ (
          check_permission user project_id resource action db
          || (has_role user project_id role_id db && grants resource action new))
  unfolding check_permission has_role
  check_permission-after user project_id resource action = elim (Bool-cases user.is_admin) [
    | inl admin ↦ ground arith
    | inr plain ↦ go plain (find_member project_id user.id db) refl
  ]
    where
      go :
          user.is_admin ≡ false
          → (o : Option ProjectMember) → find_member project_id user.id db ≡ o
          → check_permission user project_id resource action after ≡ (
              check_permission user project_id resource action db
              || (has_role user project_id role_id db && grants resource action new))
      go plain none e = ground arith
      go plain (some member) e =
          let appended =
            any_row-append (λ p. p.role_id == member.role_id) (grants resource action) new
              db.permissions in
          ground arith

  find_row-last :
      (xs : List Permission)
      → any_row (λ p. p.id == id) xs ≡ false
      → find_row (is_permission_of role_id id) (xs ++ new ∷ []) ≡ some new
  find_row-last [] h = ground (arith, ==-refl id, ==-refl role_id)
  find_row-last (x ∷ xs) h = ground (arith, find_row-last xs)

  remove_permission-after :
      any_row (λ p. p.id == id) db.permissions ≡ false
      → remove_permission role_id id after ≡ (answer tt, db)
  unfolding remove_permission
  remove_permission-after free =
      let found = find_row-last db.permissions free in
      let rest = keep_rows-last (λ p. p.id == id) db.permissions new free (==-refl id) in
      ground arith

-- A permission that an administrator adds to a role allows exactly what the request says: for every user,
-- project, resource and action, check_permission answers as before, or yes where the user's role in the
-- project is that role and the request's resource and action match. Removing it restores the tables.
pub add_permission-IsExact :
    (id role_id : String) (body : PermissionCreateRequest) (permission : Permission) (db db' : Db)
    → add_permission id role_id body db ≡ (answer permission, db')
    → ((user : User) (project_id resource action : String)
        → check_permission user project_id resource action db' ≡ (
            check_permission user project_id resource action db
            || (has_role user project_id role_id db
                && (match_resource body.resource resource && match_action body.action action))))
      × (remove_permission role_id id db' ≡ (answer tt, db))
add_permission-IsExact id role_id body permission db db' h =
    let (free, same, next) = add_permission-answer id role_id body db permission db' h in
    rw (← next)
      (check_permission-after id role_id body db, remove_permission-after id role_id body db free)
