-- ===== src/Artifacts/Verified.antt =====
-- Entries of a directory, and what the verification of an existing generation finds and leaves.
use Prim.Native.Char.{code}
use conductor_data_platform.Prelude.{
  ℕ, String, String-discrete, Bool, true, false, ◌&&◌, Option, none, some, List, [], ◌∷◌,
  if◌then◌else◌, ◌==◌, ◌≡◌, ◌≢◌, refl, sym, ap, ◌∙◌, arith, ne_of_test, ==-refl, inl, inr, ◌⊎◌,
}
use conductor_data_platform.Lifecycle.{Raised, value_error}
use conductor_data_platform.Outcome.{Outcome, returned, raised}
use conductor_data_platform.Artifacts.Disk.{
  File, regular, file_link, special_file, Node, folder, link, plain_file, get, remove, put,
  private_directory, private_file, verify_existing_generation, set_private, set_modes, Fault,
  no_fault, mkdir_fails, compose_write_fails, env_write_fails, replace_fails, fsync_fails,
  chmod_fails, compose_fchmod_fails, env_fchmod_fails, read_existing_regular_file,
}

module _ {A : Type 0} where
  pub get-remove_other :
      (m n : String) (entries : List (String × A))
      → m ≢ n
      → get m (remove n entries) ≡ get m entries
  unfolding get remove
  get-remove_other m n [] ne = refl
  get-remove_other m n ((k, a) ∷ entries) ne = ground (arith, get-remove_other m n entries ne)

  pub get-put_self :
      (n : String) (a : A) (entries : List (String × A)) → get n (put n a entries) ≡ some a
  unfolding get put
  get-put_self n a entries = rw ==-refl refl

  pub get-put_other :
      (m n : String) (a : A) (entries : List (String × A))
      → m ≢ n
      → get m (put n a entries) ≡ get m entries
  unfolding get put
  get-put_other m n a entries ne = ground (arith, get-remove_other m n entries ne)

-- Both files are there as regular files, with these contents.
abbrev pub IsComplete : String → String → Option Node → Type 0
IsComplete compose env o =
    (mode : ℕ) × (entries : List (String × File)) × (compose_mode : ℕ) × (env_mode : ℕ) × (o
      ≡ some (folder mode entries))
    × (get "compose.yaml" entries ≡ some (regular compose_mode compose))
    × (get ".env" entries ≡ some (regular env_mode env))

-- Both files and their directory are private.
abbrev pub IsPrivate : String → String → Option Node → Type 0
IsPrivate compose env o =
    (entries : List (String × File)) × (o ≡ some (folder private_directory entries))
    × (get "compose.yaml" entries ≡ some (regular private_file compose))
    × (get ".env" entries ≡ some (regular private_file env))

pub compose-ne-env : ◌≢◌ {A = String} ".env" "compose.yaml"
unfolding String-discrete
compose-ne-env = ne_of_test ".env" "compose.yaml" refl

first_code : String → ℕ
first_code String.[] = 0
first_code (String.◌∷◌ c s) = code c

pub compose-ne-hidden : (s : String) → "compose.yaml" ≢ String.◌∷◌ "." s
unfolding first_code
compose-ne-hidden s e = let n : ◌≡◌ {A = ℕ} 99 46 = ap first_code e in absurd (omega arith)

-- A file without its mode
abbrev pub modeless : Option File → Option File
modeless none = none
modeless (some (regular m content)) = some (regular 0 content)
modeless (some file_link) = some file_link
modeless (some special_file) = some special_file

-- What stood there stands there still, but perhaps with other modes.
abbrev pub KeepsFiles : Option Node → Option Node → Type 0
KeepsFiles before after =
    (after ≡ before)
    ⊎ ((m : ℕ) × (m' : ℕ) × (entries : List (String × File)) × (entries' : List (String × File))
        × (before ≡ some (folder m entries))
        × (after ≡ some (folder m' entries'))
        × ((name : String) → modeless (get name entries') ≡ modeless (get name entries)))

-- A verification that returns has found both contents and leaves them private; one that raises leaves
-- the files that it found.
abbrev pub IsVerified : String → String → Node → Outcome (Unit {0}) × Node → Type 0
IsVerified compose env node o =
    ((o.0 ≡ returned tt) × IsComplete compose env (some node) × IsPrivate compose env (some o.1))
    ⊎ ((e : Raised) × (o.0 ≡ raised e) × KeepsFiles (some node) (some o.1))

set_private-modeless :
    (name content : String) (m : ℕ) (entries : List (String × File))
    → get name entries ≡ some (regular m content)
    → (other : String)
    → modeless (get other (set_private name content entries)) ≡ modeless (get other entries)
set_private-modeless name content m entries found other = elim (String-discrete other name) [
  | yes same ↦
      ap (λ k. modeless (get k (set_private name content entries))) same
      ∙ ap modeless (get-put_self name (regular private_file content) entries)
      ∙ ap modeless (sym found)
      ∙ ap (λ k. modeless (get k entries)) (sym same)
  | no differ ↦ ap modeless (get-put_other other name _ entries differ)
]

read_existing_regular_file-returned :
    (o : Option File) (content : String)
    → read_existing_regular_file o ≡ returned content
    → (m : ℕ) × (o ≡ some (regular m content))
unfolding read_existing_regular_file
read_existing_regular_file-returned none content h = absurd (cc)
read_existing_regular_file-returned (some file_link) content h = absurd (cc)
read_existing_regular_file-returned (some special_file) content h = absurd (cc)
read_existing_regular_file-returned (some (regular m c)) content h = (m, cc)

module _ (fault : Fault) (compose env : String) where
  set_modes-IsVerified :
      (m m1 m2 : ℕ) (entries : List (String × File))
      → get "compose.yaml" entries ≡ some (regular m1 compose)
      → get ".env" entries ≡ some (regular m2 env)
      → (f : Fault) → IsVerified compose env (folder m entries) (set_modes f compose env m entries)
  unfolding set_modes
  set_modes-IsVerified m m1 m2 entries c e f = go f
    where
      done : IsVerified compose env (folder m entries) (set_modes no_fault compose env m entries)
      done = inl (
        refl,
        (m, entries, m1, m2, refl, c, e),
        (
          _,
          refl,
          get-put_other "compose.yaml" ".env" _ _ (λ q. compose-ne-env (sym q))
              ∙ get-put_self "compose.yaml" _ entries,
          get-put_self ".env" _ _,
        ),
      )

      go :
          (f : Fault)
          → IsVerified compose env (folder m entries) (set_modes f compose env m entries)
      go chmod_fails = inr (_, refl, inl refl)
      go compose_fchmod_fails =
          inr (_, refl, inr (m, private_directory, entries, entries, refl, refl, λ name. refl))
      go env_fchmod_fails = inr (
        _,
        refl,
        inr (
          m,
          private_directory,
          entries,
          _,
          refl,
          refl,
          set_private-modeless "compose.yaml" compose m1 entries c,
        ),
      )
      go no_fault = done
      go mkdir_fails = done
      go compose_write_fails = done
      go env_write_fails = done
      go replace_fails = done
      go fsync_fails = done

  pub verify_existing_generation-IsVerified :
      (node : Node)
      → IsVerified compose env node (verify_existing_generation fault compose env node)
  unfolding verify_existing_generation
  verify_existing_generation-IsVerified link = inr (_, refl, inl refl)
  verify_existing_generation-IsVerified plain_file = inr (_, refl, inl refl)
  verify_existing_generation-IsVerified (folder m entries) =
      go (read_existing_regular_file (get "compose.yaml" entries))
        (read_existing_regular_file (get ".env" entries)) refl refl
    where
      settle :
          (found_compose found_env : String)
          → read_existing_regular_file (get "compose.yaml" entries) ≡ returned found_compose
          → read_existing_regular_file (get ".env" entries) ≡ returned found_env
          → (b : Bool) → (found_compose == compose && found_env == env) ≡ b
          → IsVerified compose env (folder m entries) (
              if b then set_modes fault compose env m entries else (
                raised (value_error "Runtime generation already exists with different artifacts"),
                folder m entries,
              ))
      settle found_compose found_env p q true same =
          let (m1, c) = read_existing_regular_file-returned _ found_compose p in
          let (m2, e) = read_existing_regular_file-returned _ found_env q in
          set_modes-IsVerified m m1 m2 entries (ground arith) (ground arith) fault
      settle found_compose found_env p q false differ = inr (_, refl, inl refl)

      go :
          (r r' : Outcome String)
          → read_existing_regular_file (get "compose.yaml" entries) ≡ r
          → read_existing_regular_file (get ".env" entries) ≡ r'
          → IsVerified compose env (folder m entries) (elim r as (λ _. Outcome (Unit {0}) × Node) [
            | raised e ↦ (raised e, folder m entries)
            | returned found_compose ↦ elim r' as (λ _. Outcome (Unit {0}) × Node) [
              | raised e ↦ (raised e, folder m entries)
              | returned found_env ↦
                  if found_compose == compose && found_env == env
                  then set_modes fault compose env m entries
                  else (
                    raised
                        (value_error "Runtime generation already exists with different artifacts"),
                    folder m entries,
                  )
            ]
          ])
      go (raised e) r' p q = inr (e, refl, inl refl)
      go (returned found_compose) (raised e) p q = inr (e, refl, inl refl)
      go (returned found_compose) (returned found_env) p q =
          settle found_compose found_env p q (found_compose == compose && found_env == env) refl
