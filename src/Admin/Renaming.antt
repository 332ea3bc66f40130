-- ===== src/Admin/Renaming.antt =====
-- A PATCH of a role.
use mathlib.Core.Path.{subst}
use conductor_data_platform.Prelude.{
  String, Bool, false, not, ◌&&◌, ◌||◌, Option, none, some, ◌==◌, ◌≡◌, ◌≢◌, refl, sym, ap, ◌∙◌,
  arith, Bool-cases, inl, inr, String-discrete, In, any_row, update_rows, changed_row,
  In-update_rows, update_rows-In, any_row-none,
}
use conductor_data_platform.Models.{find_role}
use conductor_data_platform.Models.{Db, Role}
use conductor_data_platform.Admin.Requests.{
  update_role, with_role_fields, is_taken, is_null, is_set, RoleUpdateRequest, Field,
}
use conductor_data_platform.Admin.Consistent.{HasRole, IsConsistent, Fine, along, refused-Fine}

module _ (role_id : String) (body : RoleUpdateRequest) (db : Db) (c : IsConsistent db) where
  abbrev is_target : Role → Bool
  is_target r = r.id == role_id

  abbrev renamed : Role → Role
  renamed = changed_row is_target (with_role_fields body)

  abbrev after : Db
  after = record db { roles = update_rows is_target (with_role_fields body) db.roles }

  renamed-id : (r : Role) → (renamed r).id ≡ r.id
  renamed-id r = ground arith

  renamed-system : (r : Role) → (renamed r).is_system ≡ r.is_system
  renamed-system r = ground arith

  still : (x : String) → HasRole db.roles x → HasRole after.roles x
  still x (r, i, e) =
      (renamed r, update_rows-In is_target (with_role_fields body) db.roles r i, renamed-id r ∙ e)

  module _ (free : is_taken role_id body.name db.roles ≡ false) where
    -- No other row has the new name.
    target_alone :
        (name : String) (r r' : Role)
        → body.name ≡ some (some name)
        → r'.id ≢ role_id
        → In r' db.roles
        → name ≢ r'.name
    target_alone name r r' set other j same =
        let free' : any_row (λ r. r.name == name && not (r.id == role_id)) db.roles ≡ false =
          subst (λ f. is_taken role_id f db.roles ≡ false) set free in
        let miss =
          any_row-none (λ r. r.name == name && not (r.id == role_id)) db.roles r' free' j in
        absurd (ground arith)

    -- Names stay unique.
    renamed-name :
        (f : Field String)
        → body.name ≡ f
        → (r r' : Role) → In r db.roles
        → In r' db.roles
        → (renamed r).name ≡ (renamed r').name
        → r ≡ r'
    renamed-name none set r r' i j e = c.unique_names r r' i j (ground arith)
    renamed-name (some none) set r r' i j e = c.unique_names r r' i j (ground arith)
    renamed-name (some (some name)) set r r' i j e = elim (String-discrete r.id role_id) [
      | yes p ↦ elim (String-discrete r'.id role_id) [
        | yes q ↦ c.unique_ids r r' i j (p ∙ sym q)
        | no q ↦ absurd (target_alone name r r' set q j (ground arith))
      ]
      | no p ↦ elim (String-discrete r'.id role_id) [
        | yes q ↦ absurd (target_alone name r' r set p i (ground arith))
        | no q ↦ c.unique_names r r' i j (ground arith)
      ]
    ]

  after-Fine : is_taken role_id body.name db.roles ≡ false → Fine db after
  after-Fine free = (
    record {
      unique_ids = λ r r' i j e.
          let (x, k, a) = In-update_rows is_target (with_role_fields body) db.roles r i in
          let (y, l, b) = In-update_rows is_target (with_role_fields body) db.roles r' j in
          let same =
            c.unique_ids x y k l
              (sym (renamed-id x) ∙ ap (λ z. z.id) a ∙ e ∙ sym (ap (λ z. z.id) b) ∙ renamed-id y) in
          sym a ∙ ap renamed same ∙ b;
      unique_names = λ r r' i j e.
          let (x, k, a) = In-update_rows is_target (with_role_fields body) db.roles r i in
          let (y, l, b) = In-update_rows is_target (with_role_fields body) db.roles r' j in
          let same =
            renamed-name free body.name refl x y k l
              (ap (λ z. z.name) a ∙ e ∙ sym (ap (λ z. z.name) b)) in
          sym a ∙ ap renamed same ∙ b;
      permission_role = λ p i. still p.role_id (c.permission_role p i);
      member_role = λ m i. still m.role_id (c.member_role m i);
    },
    λ r i system. (
      renamed r,
      update_rows-In is_target (with_role_fields body) db.roles r i,
      renamed-id r,
      renamed-system r ∙ system,
    ),
  )

  pub update_role-Fine : Fine db (update_role role_id body db).1
  unfolding update_role
  update_role-Fine = go (find_role role_id db) refl
    where
      go : (o : Option Role) → find_role role_id db ≡ o → Fine db (update_role role_id body db).1
      go none e = refused-Fine db (update_role role_id body db).1 c (ground arith)
      go (some role) e = elim (Bool-cases (not (is_set body.name || is_set body.description))) [
        | inl idle ↦ refused-Fine db (update_role role_id body db).1 c (ground arith)
        | inr busy ↦ elim (Bool-cases (is_null body.name || is_taken role_id body.name db.roles)) [
          | inl bad ↦ refused-Fine db (update_role role_id body db).1 c (ground arith)
          | inr fine ↦
              along db after (update_role role_id body db).1 (ground arith)
                (after-Fine (ground arith))
        ]
      ]
