-- ===== src/Projects/Roster.antt =====
-- The memberships under the member endpoints: one row for each user and project, and the last
-- administrator.
use conductor_data_platform.Prelude.{
  ℕ, String, ◌≡◌, refl, ◌⊎◌, inl, inr, false, none, [], ◌∷◌, ◌++◌, arith, Bool-cases, Option-cases,
  find_row, update_rows,
}
use conductor_data_platform.Models.{find_user_by_email}
use conductor_data_platform.Models.{
  Db, User, Role, Project, ProjectMember, find_member, is_membership, find_role_by_name,
}
use conductor_data_platform.Http.{Reply, answer, http}
use conductor_data_platform.Projects.Guards.{project_of_admin}
use conductor_data_platform.Projects.Members.{
  remove_member, check_removal, without_member, add_member, check_addition, added_member,
  change_member_role, check_change, with_role, Addition,
}
use conductor_data_platform.Projects.Removal.{
  Members, UniqueMembers, others, refused_removal, removed,
}

nobody_new :
    (project user : String) (ms : Members) (m : ProjectMember)
    → find_row (is_membership project user) ms ≡ none
    → is_membership project user m ≡ false
    → find_row (is_membership project user) (ms ++ m ∷ []) ≡ none
nobody_new project user [] m h e = ground (arith, e)
nobody_new project user (x ∷ xs) m h e = ground (arith, e, nobody_new project user xs m)

append-UniqueMembers :
    (m : ProjectMember) (ms : Members)
    → find_row (is_membership m.project_id m.user_id) ms ≡ none
    → UniqueMembers ms
    → UniqueMembers (ms ++ m ∷ [])
append-UniqueMembers m [] h u = (refl, tt)
append-UniqueMembers m (x ∷ xs) h u = (
  nobody_new x.project_id x.user_id xs m u.0 (ground arith),
  append-UniqueMembers m xs (ground arith) u.1,
)

abbrev assigned : String → String → String → Members → Members
assigned project user role =
    update_rows (is_membership project user) (λ m. record m { role_id = role })

nobody_assigned :
    (project user p u role : String) (ms : Members)
    → find_row (is_membership project user) ms ≡ none
    → find_row (is_membership project user) (assigned p u role ms) ≡ none
nobody_assigned project user p u role [] h = refl
nobody_assigned project user p u role (x ∷ xs) h =
    ground (arith, nobody_assigned project user p u role xs)

assigned-UniqueMembers :
    (p u role : String) (ms : Members) → UniqueMembers ms → UniqueMembers (assigned p u role ms)
assigned-UniqueMembers p u role [] h = tt
assigned-UniqueMembers p u role (x ∷ xs) h = elim (Bool-cases (is_membership p u x)) [
  | inl e ↦ rw e (
    nobody_assigned x.project_id x.user_id p u role xs h.0,
    assigned-UniqueMembers p u role xs h.1,
  )
  | inr e ↦ rw e (
    nobody_assigned x.project_id x.user_id p u role xs h.0,
    assigned-UniqueMembers p u role xs h.1,
  )
]

nobody_kept :
    (project user p u : String) (ms : Members)
    → find_row (is_membership project user) ms ≡ none
    → find_row (is_membership project user) (others p u ms) ≡ none
nobody_kept project user p u [] h = refl
nobody_kept project user p u (x ∷ xs) h = ground (arith, nobody_kept project user p u xs)

others-UniqueMembers :
    (p u : String) (ms : Members) → UniqueMembers ms → UniqueMembers (others p u ms)
others-UniqueMembers p u [] h = tt
others-UniqueMembers p u (x ∷ xs) h = elim (Bool-cases (is_membership p u x)) [
  | inl e ↦ rw e (others-UniqueMembers p u xs h.1)
  | inr e ↦ rw e (nobody_kept x.project_id x.user_id p u xs h.0, others-UniqueMembers p u xs h.1)
]

added_absent :
    (slug email role_name : String) (user : User) (db : Db) (p : Project) (t : User) (r : Role)
    → check_addition slug email role_name user db ≡ answer (p, t, r)
    → find_member p.id t.id db ≡ none
unfolding check_addition
added_absent slug email role_name user db p t r h = go (project_of_admin slug user db) refl
  where
    go : (o : Reply Project) → project_of_admin slug user db ≡ o → find_member p.id t.id db ≡ none
    go (http c d) e = absurd (ground (arith, e))
    go (answer q) e = elim (Option-cases (find_user_by_email email db)) [
      | inl f ↦ absurd (ground (arith, e))
      | inr (v, f) ↦ elim (Option-cases (find_member q.id v.id db)) [
        | inr (m, g) ↦ absurd (ground (arith, e))
        | inl g ↦ elim (Option-cases (find_role_by_name role_name db)) [
          | inl k ↦ absurd (ground (arith, e))
          | inr (w, k) ↦
              let same : (q ≡ p) × (v ≡ t) = (ground (arith, e), ground (arith, e)) in
              rw (← same.0, ← same.1) g
        ]
      ]
    ]

module _ (now : ℕ) (slug email role_name user_id : String) (user : User) (db : Db) where
  after_addition :
      ((add_member now slug email role_name user db).1 ≡ db)
      ⊎ ((a : Addition) × (check_addition slug email role_name user db ≡ answer a)
          × ((add_member now slug email role_name user db).1.members
              ≡ db.members ++ added_member now a ∷ []))
  unfolding add_member
  after_addition = go (check_addition slug email role_name user db) refl
    where
      go :
          (o : Reply Addition)
          → check_addition slug email role_name user db ≡ o
          → ((add_member now slug email role_name user db).1 ≡ db)
            ⊎ ((a : Addition) × (check_addition slug email role_name user db ≡ answer a)
                × ((add_member now slug email role_name user db).1.members
                    ≡ db.members ++ added_member now a ∷ []))
      go (http c d) e = inl (ground (arith, e))
      go (answer a) e = inr (a, e, ground (arith, e))

  after_change :
      ((change_member_role slug user_id role_name user db).1 ≡ db)
      ⊎ ((project : String) × (role : String) × ((change_member_role slug user_id role_name user
              db).1
            ≡ with_role project user_id role db))
  unfolding change_member_role
  after_change = go (check_change slug user_id role_name user db) refl
    where
      go :
          (o : Reply (Project × Role × ProjectMember))
          → check_change slug user_id role_name user db ≡ o
          → ((change_member_role slug user_id role_name user db).1 ≡ db)
            ⊎ ((project : String) × (role : String) × ((change_member_role slug user_id role_name
                    user db).1
                  ≡ with_role project user_id role db))
      go (http c d) e = inl (ground (arith, e))
      go (answer (p, r, m)) e = inr (p.id, r.id, ground (arith, e))

  after_removal :
      ((remove_member slug user_id user db).1 ≡ db)
      ⊎ ((project : String) × ((remove_member slug user_id user db).1
            ≡ without_member project user_id db))
  after_removal = go (check_removal slug user_id user db) refl
    where
      go :
          (o : Reply Project)
          → check_removal slug user_id user db ≡ o
          → ((remove_member slug user_id user db).1 ≡ db)
            ⊎ ((project : String) × ((remove_member slug user_id user db).1
                  ≡ without_member project user_id db))
      go (http c d) e = inl (refused_removal slug user_id user db c d e)
      go (answer p) e = inr (p.id, removed slug user_id user db p e)

  -- Adding, changing and removing a member keep one membership for each user and project.
  pub memberships-UniqueMembers :
      UniqueMembers db.members
      → UniqueMembers (add_member now slug email role_name user db).1.members
        × UniqueMembers (change_member_role slug user_id role_name user db).1.members
        × UniqueMembers (remove_member slug user_id user db).1.members
  memberships-UniqueMembers u = (
    elim after_addition [
      | inl same ↦ rw same u
      | inr ((p, t, r), e, same) ↦ rw same (
          append-UniqueMembers (added_member now (p, t, r)) db.members
            (added_absent slug email role_name user db p t r e) u)
    ],
    elim after_change [
      | inl same ↦ rw same u
      | inr (p, r, same) ↦ rw same (assigned-UniqueMembers p user_id r db.members u)
    ],
    elim after_removal [
      | inl same ↦ rw same u
      | inr (p, same) ↦ rw same (others-UniqueMembers p user_id db.members u)
    ],
  )
