-- ===== src/Lifecycle/Identity.antt =====
-- Runtime names of backend/app/services/project_lifecycle.py.
use Prim.Native.Nat.{ℕ, zero, suc, ◌≤◌}
use Prim.Native.Char.{Char, code}
use Prim.Native.String.{String, count, ◌++◌}
use text.Mathlib.TextLemmas.{append_cancel_left, length-append, length-cons}
use conductor_data_platform.Prelude.{
  ◌≡◌, ◌≢◌, refl, Bool, true, false, ◌&&◌, ◌||◌, Option, none, some, arith, leb, if◌then◌else◌, ap,
  ◌∙◌, sym,
}

pub record RuntimeIdentity : Type 0 where
  pub compose_project_name : String
  pub network_name : String
  pub airflow_db_name : String
  pub airflow_db_role : String
  pub airflow_external_url : String

-- [0-9a-f]
abbrev pub is_hex : Char → Bool
is_hex c = (leb b'0' (code c) && leb (code c) b'9') || (leb b'a' (code c) && leb (code c) b'f')

-- the whole text is n characters of [0-9a-f]
unfoldable pub is_hex_text : ℕ → String → Bool
is_hex_text zero String.[] = true
is_hex_text zero (String.◌∷◌ c s) = false
is_hex_text (suc n) String.[] = false
is_hex_text (suc n) (String.◌∷◌ c s) = is_hex c && is_hex_text n s

-- `none` is a ValueError.
unfoldable pub derive_runtime_identity : String → String → String → Option RuntimeIdentity
derive_runtime_identity project_id slug airflow_domain =
    if is_hex_text 32 project_id
    then some (record {
      compose_project_name = "conductor-p-" ++ project_id;
      network_name = ("conductor-p-" ++ project_id) ++ "_default";
      airflow_db_name = "conductor_airflow_" ++ project_id;
      airflow_db_role = "conductor_airflow_" ++ project_id;
      airflow_external_url = "https://" ++ (slug ++ (".airflow." ++ airflow_domain));
    })
    else none

count-is_hex_text : (n : ℕ) (s : String) → is_hex_text n s ≡ true → count s ≡ n
unfolding is_hex_text
count-is_hex_text zero String.[] h = refl
count-is_hex_text zero (String.◌∷◌ c s) h = cc
count-is_hex_text (suc n) String.[] h = cc
count-is_hex_text (suc n) (String.◌∷◌ c s) h =
    length-cons c s ∙ ap suc (count-is_hex_text n s (ground arith))

derived :
    (id slug domain : String) (r : RuntimeIdentity)
    → derive_runtime_identity id slug domain ≡ some r
    → (is_hex_text 32 id ≡ true)
      × (r.compose_project_name ≡ "conductor-p-" ++ id)
      × (r.airflow_db_name ≡ "conductor_airflow_" ++ id)
      × (r.airflow_db_role ≡ "conductor_airflow_" ++ id)
unfolding derive_runtime_identity
derived id slug domain r h = ground arith

-- The names that are derived fit the columns that store them, 63 characters.
pub derive_runtime_identity_bounds :
    (id slug domain : String) (r : RuntimeIdentity)
    → derive_runtime_identity id slug domain ≡ some r
    → (count r.compose_project_name ≤ 63)
      × (count r.airflow_db_name ≤ 63)
      × (count r.airflow_db_role ≤ 63)
derive_runtime_identity_bounds id slug domain r h =
    let (hex, e, f, g) = derived id slug domain r h in
    let n = count-is_hex_text 32 id hex in
    (
      rw (e, length-append) (omega arith),
      rw (f, length-append) (omega arith),
      rw (g, length-append) (omega arith),
    )

-- Two projects with different ids share no Compose project, no database and no database role.
pub derive_runtime_identity_injective :
    (a b slug slug' domain domain' : String) (r s : RuntimeIdentity)
    → derive_runtime_identity a slug domain ≡ some r
    → derive_runtime_identity b slug' domain' ≡ some s
    → a ≢ b
    → (r.compose_project_name ≢ s.compose_project_name)
      × (r.airflow_db_name ≢ s.airflow_db_name)
      × (r.airflow_db_role ≢ s.airflow_db_role)
derive_runtime_identity_injective a b slug slug' domain domain' r s p q ne =
    let (hex, e, f, g) = derived a slug domain r p in
    let (hex', e', f', g') = derived b slug' domain' s q in
    (
      λ same. ne (append_cancel_left "conductor-p-" a b (sym e ∙ same ∙ e')),
      λ same. ne (append_cancel_left "conductor_airflow_" a b (sym f ∙ same ∙ f')),
      λ same. ne (append_cancel_left "conductor_airflow_" a b (sym g ∙ same ∙ g')),
    )
