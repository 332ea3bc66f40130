-- ===== src/Artifacts/Staged.antt =====
-- The staged files of a generation, and what their rename leaves.
use mathlib.Core.Path.{subst}
use conductor_data_platform.Prelude.{
  ℕ, String, Bool, true, false, Option, none, some, List, [], ◌∷◌, if◌then◌else◌, ◌≡◌, refl, sym,
  ◌∙◌, inl, inr, ◌⊎◌,
}
use conductor_data_platform.Lifecycle.{Raised}
use conductor_data_platform.Outcome.{Outcome, returned, raised}
use conductor_data_platform.Artifacts.Disk.{
  File, regular, Node, folder, link, plain_file, get, remove, put, private_directory, private_file,
  reject_symlink, verify_existing_generation,
}
use conductor_data_platform.Artifacts.Publish.{
  Run, moved, occupied, refused, replaces, fails_compose, fails_env, temporary_name, atomic_write,
  stage, verify_at, finish,
}
use conductor_data_platform.Artifacts.Disk.{
  Fault, no_fault, mkdir_fails, compose_write_fails, env_write_fails, replace_fails, fsync_fails,
  os_error, chmod_fails, compose_fchmod_fails, env_fchmod_fails,
}
use conductor_data_platform.Artifacts.Verified.{
  get-put_self, get-put_other, get-remove_other, compose-ne-env, compose-ne-hidden,
  verify_existing_generation-IsVerified, IsVerified, KeepsFiles, IsComplete, IsPrivate,
}

-- Nothing, or an empty directory
abbrev pub IsVacant : Option Node → Type 0
IsVacant o = (o ≡ none) ⊎ ((mode : ℕ) × (o ≡ some (folder mode [])))

-- What stands under the name when the publication looks at it or renames onto it
abbrev pub seen : Run → String → List (String × Node) → Option Node
seen run name entries = elim (get name entries) [
  | some node ↦ some node
  | none ↦ get name (run.others entries)
]

-- How a publication ends that met `before`
abbrev pub IsSettled :
    String → String → String → Option Node → Outcome (Unit {0}) × List (String × Node) → Type 0
IsSettled name compose env before o =
    ((o.0 ≡ returned tt)
      × IsPrivate compose env (get name o.1)
      × (IsVacant before ⊎ IsComplete compose env before))
    ⊎ ((e : Raised) × (o.0 ≡ raised e) × KeepsFiles before (get name o.1))
    ⊎ ((e : Raised) × (o.0 ≡ raised e) × IsPrivate compose env (get name o.1) × IsVacant before)

module _ (name compose env : String) where
  pub verify_at-IsSettled :
      (fault : Fault) (node : Node) (entries : List (String × Node))
      → IsSettled name compose env
          (some node)
          (verify_at fault name compose env (some node) entries)
  verify_at-IsSettled fault node entries =
      go (verify_existing_generation-IsVerified fault compose env node)
    where
      placed : (node' : Node) → get name (put name node' entries) ≡ some node'
      placed node' = get-put_self name node' entries

      go :
          IsVerified compose env node (verify_existing_generation fault compose env node)
          → IsSettled name compose env
              (some node)
              (verify_at fault name compose env (some node) entries)
      go (inl (e, complete, (files, p, q, r))) = inl (e, (files, placed _ ∙ p, q, r), inr complete)
      go (inr (x, e, kept)) = inr (inl (x, e, subst (KeepsFiles (some node)) (sym (placed _)) kept))

  module _ (run : Run) where
    -- A rename that is done, with or without the failure behind it
    moved_in :
        (files : List (String × File)) (before : Option Node) (entries : List (String × Node))
        → IsPrivate compose env (some (folder private_directory files))
        → IsVacant before
        → IsSettled name compose env before (finish run name compose env files moved entries)
    unfolding finish
    moved_in files before entries (fs, p, q, r) vacant = go run.fault
      where
        entries' : List (String × Node)
        entries' = put name (folder private_directory files) entries

        placed : IsPrivate compose env (get name entries')
        placed = (fs, get-put_self name (folder private_directory files) entries ∙ p, q, r)

        go :
            (f : Fault)
            → IsSettled name compose env before
                (elim f as (λ _. Outcome (Unit {0}) × List (String × Node)) [
                  | fsync_fails ↦ (raised os_error, entries')
                  | _ ↦ (returned tt, entries')
                ])
        go fsync_fails = inr (inr (_, refl, placed, vacant))
        go no_fault = inl (refl, placed, inl vacant)
        go mkdir_fails = inl (refl, placed, inl vacant)
        go compose_write_fails = inl (refl, placed, inl vacant)
        go env_write_fails = inl (refl, placed, inl vacant)
        go replace_fails = inl (refl, placed, inl vacant)
        go chmod_fails = inl (refl, placed, inl vacant)
        go compose_fchmod_fails = inl (refl, placed, inl vacant)
        go env_fchmod_fails = inl (refl, placed, inl vacant)

    -- A staging that succeeds has both files, private.
    pub stage-IsPrivate :
        (files : List (String × File))
        → stage run compose env ≡ returned files
        → IsPrivate compose env (some (folder private_directory files))
    unfolding stage atomic_write
    stage-IsPrivate files h = go (fails_compose run.fault) (fails_env run.fault) h
      where
        compose_file : File
        compose_file = regular private_file compose

        env_file : File
        env_file = regular private_file env

        hidden : String → String
        hidden = temporary_name run.token

        first : List (String × File)
        first =
            put "compose.yaml" compose_file
              (remove (hidden "compose.yaml") (put (hidden "compose.yaml") compose_file []))

        both : List (String × File)
        both = put ".env" env_file (remove (hidden ".env") (put (hidden ".env") env_file first))

        found_compose : get "compose.yaml" both ≡ some compose_file
        found_compose =
            get-put_other "compose.yaml" ".env" env_file _ (λ e. compose-ne-env (sym e))
            ∙ get-remove_other "compose.yaml" (hidden ".env") _ (compose-ne-hidden _)
            ∙ get-put_other "compose.yaml" (hidden ".env") env_file first (compose-ne-hidden _)
            ∙ get-put_self "compose.yaml" compose_file _

        go :
            (b c : Bool)
            → (elim (atomic_write b run.token "compose.yaml" compose []).0
                as (λ _. Outcome (List (String × File))) [
                  | raised e ↦ raised e
                  | returned _ ↦
                      elim (atomic_write c run.token ".env" env
                          (atomic_write b run.token "compose.yaml" compose []).1).0
                        as (λ _. Outcome (List (String × File))) [
                          | raised e ↦ raised e
                          | returned _ ↦
                              returned
                                (atomic_write c run.token ".env" env
                                  (atomic_write b run.token "compose.yaml" compose []).1).1
                        ]
                ])
              ≡ returned files
            → IsPrivate compose env (some (folder private_directory files))
        go true c h = absurd (cc)
        go false true h = absurd (cc)
        go false false h = (both, cc, found_compose, get-put_self ".env" env_file _)

    pub finish-IsSettled :
        (files : List (String × File)) (before : Option Node) (entries : List (String × Node))
        → get name entries ≡ before
        → IsPrivate compose env (some (folder private_directory files))
        → IsSettled name compose env before
            (finish run name compose env files (replaces run.reports_exists before) entries)
    unfolding finish replaces reject_symlink
    finish-IsSettled files none entries same staged = moved_in files none entries staged (inl refl)
    finish-IsSettled files (some (folder m [])) entries same staged =
        moved_in files (some (folder m [])) entries staged (inr (m, refl))
    finish-IsSettled files (some link) entries same staged = inr (inl (_, refl, inl same))
    finish-IsSettled files (some plain_file) entries same staged = inr (inl (_, refl, inl same))
    finish-IsSettled files (some (folder m (f ∷ fs))) entries same staged = go run.reports_exists
      where
        go :
            (b : Bool)
            → IsSettled name compose env
                (some (folder m (f ∷ fs)))
                (finish run name compose env files (if b then occupied else refused) entries)
        go false = inr (inl (_, refl, inl same))
        go true =
            subst
              (λ o.
                IsSettled name compose env (some (folder m (f ∷ fs)))
                  (elim (reject_symlink o) as (λ _. Outcome (Unit {0}) × List (String × Node)) [
                    | some e ↦ (raised e, entries)
                    | none ↦ verify_at run.fault name compose env o entries
                  ]))
              (sym same) (verify_at-IsSettled run.fault (folder m (f ∷ fs)) entries)
