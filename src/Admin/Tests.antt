-- ===== src/Admin/Tests.antt =====
-- Administration of a small database.
use conductor_data_platform.Prelude.{
  String, String-discrete, true, false, ◌&&◌, ◌||◌, none, some, List, [], ◌∷◌, ◌≡◌, ◌≢◌, refl, sym,
  ap, ◌∙◌, inl, inr, In,
}
use conductor_data_platform.Models.{Db, User, Role, find_user}
use conductor_data_platform.Http.{answer}
use conductor_data_platform.Access.{check_permission, match_resource, match_action}
use conductor_data_platform.Sessions.Tokens.{Jwt, SessionSettings}
use conductor_data_platform.Admin.Requests.{
  AdminCall, creates_role, updates_role, deletes_role, adds_permission, administer_all,
  add_permission, remove_permission, deactivate_user, update_role, delete_role, new_permission,
  PermissionCreateRequest, create_role,
}
use conductor_data_platform.Admin.Consistent.{IsConsistent, KeepsSystem}
use conductor_data_platform.Admin.Administered.{administer_all-IsConsistent}
use conductor_data_platform.Admin.Granting.{has_role, add_permission-IsExact}
use conductor_data_platform.Admin.Lockout.{IsLockedOut, deactivate_user-IsLockedOut}

abbrev ada : User
ada = record {
  id = "a";
  email = "ada@example.org";
  hashed_password = "pw";
  display_name = "Ada";
  is_active = true;
  is_admin = false;
}

abbrev viewer : Role
viewer = record { id = "v"; name = "viewer"; description = none; is_system = true }

abbrev tables : Db
tables = record {
  users = ada ∷ [];
  roles = viewer ∷ [];
  permissions = [];
  projects = [];
  members = record { project_id = "p1"; user_id = "a"; role_id = "v"; created_at = 0 } ∷ [];
  environments = [];
  git_configs = [];
  deployments = [];
  resources = [];
  jobs = [];
  grants = [];
  audit = [];
}

only : {A : Type 0} (x a : A) → In a (x ∷ []) → x ≡ a
only x a (inl e) = e
only x a (inr i) = absurd i

tables-IsConsistent : IsConsistent tables
tables-IsConsistent = record {
  unique_ids = λ r r' i j e. sym (only viewer r i) ∙ only viewer r' j;
  unique_names = λ r r' i j e. sym (only viewer r i) ∙ only viewer r' j;
  permission_role = λ p i. absurd i;
  member_role = λ m i. (
    viewer,
    inl refl,
    ap (λ x. x.role_id)
        (only (record { project_id = "p1"; user_id = "a"; role_id = "v"; created_at = 0 }) m i),
  );
}

abbrev views : PermissionCreateRequest
views = record { resource = "project.dag"; action = "read"; constraint = none }

abbrev calls : List AdminCall
calls =
    creates_role "d" (record { name = "developer"; description = none })
    ∷ adds_permission "g1" "d" views
    ∷ updates_role "d" (record { name = some (some "viewer"); description = none })
    ∷ updates_role "v" (record { name = some (some "reader"); description = some none })
    ∷ deletes_role "v"
    ∷ deletes_role "d"
    ∷ []

-- The second name was taken; the system role is renamed and stays, the other one goes with its permission.
administered :
    administer_all calls tables ≡ record tables { roles = record viewer { name = "reader" } ∷ [] }
unfolding administer_all String-discrete delete_role update_role add_permission create_role
administered = refl

administer_all-IsConsistent_example :
    IsConsistent (administer_all calls tables) × KeepsSystem tables (administer_all calls tables)
administer_all-IsConsistent_example = administer_all-IsConsistent calls tables tables-IsConsistent

abbrev granted : Db
granted = record tables { permissions = new_permission "g1" "v" views ∷ [] }

added : add_permission "g1" "v" views tables ≡ (answer (new_permission "g1" "v" views), granted)
unfolding add_permission String-discrete
added = refl

add_permission-IsExact_example :
    ((user : User) (project_id resource action : String)
      → check_permission user project_id resource action granted ≡ (
          check_permission user project_id resource action tables
          || (has_role user project_id "v" tables
              && (match_resource "project.dag" resource && match_action "read" action))))
    × (remove_permission "v" "g1" granted ≡ (answer tt, tables))
add_permission-IsExact_example =
    add_permission-IsExact "g1" "v" views (new_permission "g1" "v" views) tables granted added

abbrev locked : Db
locked = record tables { users = record ada { is_active = false } ∷ [] }

deactivated : deactivate_user "a" tables ≡ (answer tt, locked)
unfolding deactivate_user String-discrete
deactivated = refl

-- A token is the id of a user and always read as an access token.
abbrev jwt : Jwt
jwt = record {
  encode = λ c. c.sub;
  decode = λ now token. some (record {
    jti = token;
    sub = token;
    email = none;
    is_admin = none;
    exp = now;
    token_type = "access";
  });
}

abbrev settings : SessionSettings
settings = record {
  access_token_expire_minutes = 1;
  refresh_token_expire_days = 1;
  redis_refresh_prefix = "refresh:";
}

deactivate_user-IsLockedOut_example :
    IsLockedOut jwt settings "a" locked
    × ((id : String) → id ≢ "a" → find_user id locked ≡ find_user id tables)
deactivate_user-IsLockedOut_example =
    deactivate_user-IsLockedOut jwt settings "a" tables locked deactivated
