-- ===== src/Provisioner/Converge.antt =====
-- Repeated records of the same resource.
use conductor_data_platform.Prelude.{
  ◌≡◌, ◌≢◌, refl, inl, inr, true, none, some, List, [], ◌∷◌, ◌++◌, arith, Option-cases, ==-refl,
  find_row, update_rows,
}
use conductor_data_platform.Models.{Db, ProjectDeployment, ProjectRuntimeResource}
use conductor_data_platform.Provisioner.Resources.{
  Observation, resource_row, is_resource, find_resource, upsert_resource,
}

abbrev Rows : Type 0
Rows = List ProjectRuntimeResource

module _ (d : ProjectDeployment) where
  own_key : (o : Observation) → is_resource d o.logical_name (resource_row d o) ≡ true
  own_key o = ground (arith, ==-refl d.project_id, ==-refl o.logical_name)

  found_replaced :
      (o : Observation) (rs : Rows)
      → find_row (is_resource d o.logical_name) rs ≢ none
      → find_row
          (is_resource d o.logical_name)
          (update_rows (is_resource d o.logical_name) (λ _. resource_row d o) rs)
        ≡ some (resource_row d o)
  found_replaced o [] h = absurd (h refl)
  found_replaced o (x ∷ xs) h = ground (arith, own_key o, found_replaced o xs)

  found_appended :
      (o : Observation) (rs : Rows)
      → find_row (is_resource d o.logical_name) rs ≡ none
      → find_row (is_resource d o.logical_name) (rs ++ resource_row d o ∷ [])
        ≡ some (resource_row d o)
  found_appended o [] h = ground (arith, own_key o)
  found_appended o (x ∷ xs) h = ground (arith, found_appended o xs)

  replaced_again :
      (o : Observation) (rs : Rows)
      → update_rows
          (is_resource d o.logical_name)
          (λ _. resource_row d o)
          (update_rows (is_resource d o.logical_name) (λ _. resource_row d o) rs)
        ≡ update_rows (is_resource d o.logical_name) (λ _. resource_row d o) rs
  replaced_again o [] = refl
  replaced_again o (x ∷ xs) = ground (arith, own_key o, replaced_again o xs)

  replaced_appended :
      (o : Observation) (rs : Rows)
      → find_row (is_resource d o.logical_name) rs ≡ none
      → update_rows
          (is_resource d o.logical_name)
          (λ _. resource_row d o)
          (rs ++ resource_row d o ∷ [])
        ≡ rs ++ resource_row d o ∷ []
  replaced_appended o [] h = ground (arith, own_key o)
  replaced_appended o (x ∷ xs) h = ground (arith, replaced_appended o xs)

  -- An upsert of an observation is found under its name, and the same upsert again changes nothing.
  pub upsert_resource_idempotent :
      (o : Observation) (db : Db)
      → (find_resource d o.logical_name (upsert_resource d o db) ≡ some (resource_row d o))
        × (upsert_resource d o (upsert_resource d o db) ≡ upsert_resource d o db)
  unfolding upsert_resource
  upsert_resource_idempotent o db = elim (Option-cases (find_resource d o.logical_name db)) [
    | inl e ↦ (
      ground (arith, e, found_appended o db.resources),
      ground (arith, e, found_appended o db.resources, replaced_appended o db.resources),
    )
    | inr (r, e) ↦
        let f = found_replaced o db.resources (λ h. ground (arith, e)) in
        (ground (arith, e, f), ground (arith, e, f, replaced_again o db.resources))
  ]
