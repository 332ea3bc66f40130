-- ===== src/Reauth/Tests.antt =====
-- Re-authentication of one super admin, and the theorems there.
use conductor_data_platform.Prelude.{
  String-discrete, ◌==◌, ◌≡◌, ◌↔◌, refl, true, false, none, some, List, [], ◌∷◌,
}
use conductor_data_platform.Models.{Db, User, Project, ready, find_user, find_project}
use conductor_data_platform.Reauth.Defs.{Settings, Counter, Fresh, granted, refused, reauthenticate}
use conductor_data_platform.Reauth.Grants.{
  IsEntitled, reauthenticate_iff, IsRecorded, reauthenticate-IsRecorded,
}

abbrev root : User
root = record {
  id = "u1";
  email = "root@example.org";
  hashed_password = "secret";
  display_name = "Root";
  is_active = true;
  is_admin = true;
}

abbrev sales : Project
sales = record {
  id = "p1";
  name = "Sales";
  slug = "sales";
  description = none;
  self_approve_enabled = false;
  lifecycle_status = ready;
}

abbrev tables : Db
tables = record {
  users = root ∷ [];
  roles = [];
  permissions = [];
  projects = sales ∷ [];
  members = [];
  environments = [];
  git_configs = [];
  deployments = [];
  resources = [];
  jobs = [];
  grants = [];
  audit = [];
}

abbrev limits : Settings
limits = record {
  reauth_grant_ttl_seconds = 300;
  reauth_rate_limit_attempts = 2;
  reauth_rate_limit_window_seconds = 60;
}

abbrev fresh : Fresh
fresh = record { now = 10; token = "t"; correlation_id = "c" }

abbrev one_try : List Counter
one_try = record { key = "reauth:rate:user:u1"; count = 1; expires_at = 40 } ∷ []

-- The fourth attempt of a user in one window is refused, with the right password too.
late :
    (reauthenticate limits
      (λ a b. a == b)
      (λ t. t)
      fresh
      "u1"
      (some (record { key = "reauth:rate:user:u1"; count = 3; expires_at = 40 } ∷ []))
      "secret"
      "project.delete"
      "p1"
      "1.2.3.4"
      tables).0
    ≡ refused 429 "Too many re-authentication attempts"
unfolding reauthenticate String-discrete
late = refl

reauthenticate_iff_example :
    ((reauthenticate limits
        (λ a b. a == b)
        (λ t. t)
        fresh
        "u1"
        (some one_try)
        "secret"
        "project.delete"
        "p1"
        "1.2.3.4"
        tables).0
      ≡ granted "t")
    ↔ (IsEntitled limits
          (λ a b. a == b)
          (λ t. t)
          fresh
          "u1"
          (some one_try)
          "secret"
          "project.delete"
          "p1"
          "1.2.3.4"
          tables
        × ("t" ≡ fresh.token))
reauthenticate_iff_example =
    reauthenticate_iff limits (λ a b. a == b) (λ t. t) fresh "u1" (some one_try) "secret"
      "project.delete" "p1" "1.2.3.4" "t" tables

is_granted :
    (reauthenticate limits
      (λ a b. a == b)
      (λ t. t)
      fresh
      "u1"
      (some one_try)
      "secret"
      "project.delete"
      "p1"
      "1.2.3.4"
      tables).0
    ≡ granted "t"
unfolding reauthenticate String-discrete
is_granted = refl

reauthenticate-IsRecorded_example :
    let (r, _, db') =
      reauthenticate limits
        (λ a b. a == b)
        (λ t. t)
        fresh
        "u1"
        (some one_try)
        "secret"
        "project.delete"
        "p1"
        "1.2.3.4"
        tables in
    IsRecorded limits
      (λ a b. a == b)
      (λ t. t)
      fresh
      r
      (find_user "u1" tables)
      (find_project "p1" tables)
      tables
      db'
reauthenticate-IsRecorded_example =
    reauthenticate-IsRecorded limits (λ a b. a == b) (λ t. t) fresh "u1" (some one_try) "secret"
      "project.delete" "p1" "1.2.3.4" tables
