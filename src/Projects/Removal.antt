-- ===== src/Projects/Removal.antt =====
-- Removing a member leaves an administrator, while memberships are unique.
use conductor_data_platform.Prelude.{
  ℕ, ◌+◌, ◌≤◌, String, ◌≡◌, refl, inl, inr, not, none, some, List, [], ◌∷◌, arith, Bool-cases,
  Option-cases, if◌then◌else◌, find_row, find_row-holds, keep_rows, count_rows,
}
use conductor_data_platform.Models.{Db, User, Project, ProjectMember, find_member, is_membership}
use conductor_data_platform.Http.{Reply, answer, http}
use conductor_data_platform.Projects.Guards.{project_of_admin}
use conductor_data_platform.Projects.Members.{
  remove_member, check_removal, is_admin_row, without_member,
}

abbrev pub Members : Type 0
Members = List ProjectMember

-- The unique constraint on project and user.
abbrev pub UniqueMembers : Members → Type 0
UniqueMembers [] = Unit
UniqueMembers (m ∷ ms) =
    (find_row (is_membership m.project_id m.user_id) ms ≡ none) × UniqueMembers ms

abbrev pub others : String → String → Members → Members
others project user = keep_rows (λ m. not (is_membership project user m))

nobody_leaves :
    (project user : String) (ms : Members)
    → find_row (is_membership project user) ms ≡ none
    → others project user ms ≡ ms
nobody_leaves project user [] h = refl
nobody_leaves project user (m ∷ ms) h = ground (arith, nobody_leaves project user ms)

one_leaves :
    (project user q : String) (ms : Members) (m : ProjectMember)
    → UniqueMembers ms
    → find_row (is_membership project user) ms ≡ some m
    → count_rows (is_admin_row q) (others project user ms) + (if is_admin_row q m then 1 else 0)
      ≡ count_rows (is_admin_row q) ms
one_leaves project user q [] m u h = cc
one_leaves project user q (x ∷ xs) m u h =
    ground (arith, one_leaves project user q xs m u.1, nobody_leaves project user xs)

removable :
    (slug user_id : String) (user : User) (db : Db) (p : Project)
    → check_removal slug user_id user db ≡ answer p
    → (m : ProjectMember) × (find_member p.id user_id db ≡ some m)
      × (m.role_id ≡ "project_admin" → 2 ≤ count_rows (is_admin_row p.id) db.members)
unfolding check_removal
removable slug user_id user db p h = go (project_of_admin slug user db) refl
  where
    go :
        (r : Reply Project)
        → project_of_admin slug user db ≡ r
        → (m : ProjectMember) × (find_member p.id user_id db ≡ some m)
          × (m.role_id ≡ "project_admin" → 2 ≤ count_rows (is_admin_row p.id) db.members)
    go (http c d) e = absurd (ground (arith, e))
    go (answer q) e = elim (Option-cases (find_member q.id user_id db)) [
      | inl f ↦ absurd (ground (arith, e))
      | inr (m, f) ↦
          let same : q ≡ p = ground (arith, e) in
          (m, rw (← same) f, λ a. rw (← same) (ground (arith, e)))
    ]

left_members :
    (project user q : String) (ms : Members) (m : ProjectMember)
    → UniqueMembers ms
    → find_row (is_membership project user) ms ≡ some m
    → (m.role_id ≡ "project_admin" → 2 ≤ count_rows (is_admin_row project) ms)
    → 1 ≤ count_rows (is_admin_row q) ms
    → 1 ≤ count_rows (is_admin_row q) (others project user ms)
left_members project user q ms m u f last some_admin =
    let counted = one_leaves project user q ms m u f in
    let held = find_row-holds (is_membership project user) ms f in
    elim (Bool-cases (is_admin_row q m)) [
      | inr a ↦ ground (arith, counted)
      | inl a ↦
          let here : project ≡ q = ground (arith, held) in
          let two = last (ground arith) in ground (arith, counted, rw here at two)
    ]

pub refused_removal :
    (slug user_id : String) (user : User) (db : Db) (c : ℕ) (d : String)
    → check_removal slug user_id user db ≡ http c d
    → (remove_member slug user_id user db).1 ≡ db
unfolding remove_member
refused_removal slug user_id user db c d e = ground (arith, e)

pub removed :
    (slug user_id : String) (user : User) (db : Db) (p : Project)
    → check_removal slug user_id user db ≡ answer p
    → (remove_member slug user_id user db).1 ≡ without_member p.id user_id db
unfolding remove_member
removed slug user_id user db p e = ground (arith, e)

-- While memberships are unique, removing a member never takes the last row with the role id
-- `project_admin` of any project, whoever calls the endpoint.
pub remove_member_admins :
    (slug user_id q : String) (user : User) (db : Db)
    → UniqueMembers db.members
    → 1 ≤ count_rows (is_admin_row q) db.members
    → 1 ≤ count_rows (is_admin_row q) (remove_member slug user_id user db).1.members
remove_member_admins slug user_id q user db u some_admin =
    go (check_removal slug user_id user db) refl
  where
    go :
        (r : Reply Project)
        → check_removal slug user_id user db ≡ r
        → 1 ≤ count_rows (is_admin_row q) (remove_member slug user_id user db).1.members
    go (http c d) e = rw (refused_removal slug user_id user db c d e) some_admin
    go (answer p) e =
        let (m, f, last) = removable slug user_id user db p e in
        rw (removed slug user_id user db p e)
          (left_members p.id user_id q db.members m u f last some_admin)
