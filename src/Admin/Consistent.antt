-- ===== src/Admin/Consistent.antt =====
-- What the tables of roles, permissions and memberships keep through the requests of administrators.
use conductor_data_platform.Prelude.{
  String, Bool, true, false, not, ◌||◌, Option, none, some, List, [], ◌∷◌, ◌++◌, ◌==◌, ◌≡◌, ◌≢◌,
  refl, sym, ap, ◌∙◌, arith, Bool-cases, inl, inr, In, any_row, find_row-In, find_row-holds,
  keep_rows-In, In-append, append-In, any_row-none, In-keep_rows,
}
use conductor_data_platform.Models.{find_role}
use conductor_data_platform.Models.{Db, Role, Permission, ProjectMember}
use conductor_data_platform.Admin.Requests.{
  create_role, delete_role, new_role, without_role, RoleCreateRequest,
}

abbrev pub HasRole : List Role → String → Type 0
HasRole roles id = (r : Role) × In r roles × (r.id ≡ id)

-- Ids and names of roles are unique, and permissions and memberships have their roles.
pub record IsConsistent (db : Db) : Type 0 where
  pub unique_ids : (r r' : Role) → In r db.roles → In r' db.roles → r.id ≡ r'.id → r ≡ r'
  pub unique_names : (r r' : Role) → In r db.roles → In r' db.roles → r.name ≡ r'.name → r ≡ r'
  pub permission_role : (p : Permission) → In p db.permissions → HasRole db.roles p.role_id
  pub member_role : (m : ProjectMember) → In m db.members → HasRole db.roles m.role_id

abbrev pub KeepsSystem : Db → Db → Type 0
KeepsSystem db db' =
    (r : Role)
    → In r db.roles
    → r.is_system ≡ true
    → (r' : Role) × In r' db'.roles × (r'.id ≡ r.id) × (r'.is_system ≡ true)

abbrev pub Fine : Db → Db → Type 0
Fine db db' = IsConsistent db' × KeepsSystem db db'

pub same-Fine : (db : Db) → IsConsistent db → Fine db db
same-Fine db c = (c, λ r i s. (r, i, refl, s))

pub along : (db x y : Db) → y ≡ x → Fine db x → Fine db y
along db x y e t = rw e t

pub refused-Fine : (db y : Db) → IsConsistent db → y ≡ db → Fine db y
refused-Fine db y c e = along db db y e (same-Fine db c)

-- Other rows of other tables, and fewer or proper permissions
pub permissions-Fine :
    (db db' : Db)
    → IsConsistent db
    → db'.roles ≡ db.roles
    → db'.members ≡ db.members
    → ((p : Permission) → In p db'.permissions → HasRole db.roles p.role_id)
    → Fine db db'
permissions-Fine db db' c same_roles same_members proper = (
  record {
    unique_ids = rw same_roles c.unique_ids;
    unique_names = rw same_roles c.unique_names;
    permission_role = rw same_roles proper;
    member_role = rw (same_roles, same_members) c.member_role;
  },
  rw same_roles (λ r i s. (r, i, refl, s)),
)

append_unique :
    (key : Role → String) (roles : List Role) (new : Role)
    → ((r r' : Role) → In r roles → In r' roles → key r ≡ key r' → r ≡ r')
    → ((r : Role) → In r roles → key r ≢ key new)
    → (r r' : Role) → In r (roles ++ new ∷ [])
    → In r' (roles ++ new ∷ [])
    → key r ≡ key r'
    → r ≡ r'
append_unique key roles new unique fresh r r' i j e = elim (In-append roles new r i) [
  | inl a ↦ elim (In-append roles new r' j) [
    | inl b ↦ unique r r' a b e
    | inr same ↦ absurd (fresh r a (e ∙ sym (ap key same)))
  ]
  | inr same ↦ elim (In-append roles new r' j) [
    | inl b ↦ absurd (fresh r' b (sym (ap key same ∙ e)))
    | inr same' ↦ sym same ∙ same'
  ]
]

pub create_role-Fine :
    (id : String) (body : RoleCreateRequest) (db : Db)
    → IsConsistent db
    → Fine db (create_role id body db).1
unfolding create_role
create_role-Fine id body db c = go (any_row (λ r. r.id == id || r.name == body.name) db.roles) refl
  where
    new : Role
    new = new_role id body

    db' : Db
    db' = record db { roles = db.roles ++ new ∷ [] }

    kept : (x : String) → HasRole db.roles x → HasRole db'.roles x
    kept x (r, i, e) = (r, append-In db.roles new r (inl i), e)

    go :
        (b : Bool)
        → any_row (λ r. r.id == id || r.name == body.name) db.roles ≡ b
        → Fine db (create_role id body db).1
    go true e = refused-Fine db (create_role id body db).1 c (ground arith)
    go false e =
        let other : (r : Role) → In r db.roles → (r.id ≢ id) × (r.name ≢ body.name) = λ r i.
          let miss = any_row-none (λ r. r.id == id || r.name == body.name) db.roles r e i in
          (λ same. absurd (ground arith), λ same. absurd (ground arith)) in
        along db db' (create_role id body db).1 (ground arith) (
          record {
            unique_ids = append_unique (λ r. r.id) db.roles new c.unique_ids (λ r i. (other r i).0);
            unique_names =
                append_unique (λ r. r.name) db.roles new c.unique_names (λ r i. (other r i).1);
            permission_role = λ p i. kept p.role_id (c.permission_role p i);
            member_role = λ m i. kept m.role_id (c.member_role m i);
          },
          λ r i s. (r, append-In db.roles new r (inl i), refl, s),
        )

-- A role that is no system role and that no membership has
without_role-Fine :
    (role_id : String) (db : Db) (c : IsConsistent db) (role : Role)
    → find_role role_id db ≡ some role
    → role.is_system ≡ false
    → any_row (λ m. m.role_id == role_id) db.members ≡ false
    → Fine db (without_role role_id db)
without_role-Fine role_id db c role found custom free = (
  record {
    unique_ids = λ r r' i j. c.unique_ids r r' (before r i) (before r' j);
    unique_names = λ r r' i j. c.unique_names r r' (before r i) (before r' j);
    permission_role = λ p i.
        let (there, other_role) =
          keep_rows-In (λ p. not (p.role_id == role_id)) db.permissions p i in
        kept p.role_id (λ e. absurd (ground arith)) (c.permission_role p there);
    member_role = λ m i.
        let miss = any_row-none (λ m. m.role_id == role_id) db.members m free i in
        kept m.role_id (λ e. absurd (ground arith)) (c.member_role m i);
  },
  λ r i system.
      let stays : r.id ≢ role_id = λ e.
        let same =
          c.unique_ids r role i (find_row-In (λ r. r.id == role_id) db.roles role found)
            (e ∙ sym is_id) in
        let system' : role.is_system ≡ true = rw (← same) system in absurd (cc) in
      (r, In-keep_rows other db.roles r i (ground arith), refl, system),
)
  where
    other : Role → Bool
    other r = not (r.id == role_id)

    is_id : role.id ≡ role_id
    is_id = let hit = find_row-holds (λ r. r.id == role_id) db.roles found in ground arith

    before : (r : Role) → In r (without_role role_id db).roles → In r db.roles
    before r i = (keep_rows-In other db.roles r i).0

    kept :
        (x : String) → x ≢ role_id → HasRole db.roles x → HasRole (without_role role_id db).roles x
    kept x differ (r, i, e) = (r, In-keep_rows other db.roles r i (ground arith), e)

pub delete_role-Fine :
    (role_id : String) (db : Db) → IsConsistent db → Fine db (delete_role role_id db).1
unfolding delete_role
delete_role-Fine role_id db c = go (find_role role_id db) refl
  where
    go : (o : Option Role) → find_role role_id db ≡ o → Fine db (delete_role role_id db).1
    go none e = refused-Fine db (delete_role role_id db).1 c (ground arith)
    go (some role) e = elim (Bool-cases role.is_system) [
      | inl system ↦ refused-Fine db (delete_role role_id db).1 c (ground arith)
      | inr custom ↦ elim (Bool-cases (any_row (λ m. m.role_id == role_id) db.members)) [
        | inl held ↦ refused-Fine db (delete_role role_id db).1 c (ground arith)
        | inr free ↦
            along db (without_role role_id db) (delete_role role_id db).1 (ground arith)
              (without_role-Fine role_id db c role e custom free)
      ]
    ]
