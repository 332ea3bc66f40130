-- ===== src/Projects/Git.antt =====
-- get_git_config and update_git_config.
--
-- `encrypt` is services/crypto.encrypt_token, whose `none` is CredentialsEncryptionNotConfigured, and
-- `urlsplit` gives the scheme and the network location of a URL. The request has passed its schema: the
-- URL and the kind of authentication are not null, and a token and a credential do not come together.
use conductor_data_platform.Prelude.{
  String, Bool, true, false, not, ◌&&◌, ◌||◌, Option, none, some, [], ◌∷◌, ◌++◌, if◌then◌else◌,
  ◌==◌, is_empty, find_row, update_rows,
}
use conductor_data_platform.Models.{Db, User, GitConfig}
use conductor_data_platform.Http.{
  Reply, Query, ◌>>=◌, ◌>>◌, pure, or_http, refuse_if, commit, respond,
}
use conductor_data_platform.Projects.Guards.{
  project_of_member, project_of_admin, Field, apply_field, ◌>>=?◌,
}

pub record GitConfigResponse : Type 0 where
  pub repo_url : String
  pub auth_type : String
  pub default_branch : String
  pub dbt_path : String
  pub dags_path : String
  pub has_credentials : Bool
  pub has_token : Bool

-- `bool(x)` of a text that may be None
abbrev pub is_present : Option String → Bool
is_present none = false
is_present (some s) = not (is_empty s)

abbrev pub git_response : GitConfig → GitConfigResponse
git_response c = record {
  repo_url = c.repo_url;
  auth_type = c.auth_type;
  default_branch = c.default_branch;
  dbt_path = c.dbt_path;
  dags_path = c.dags_path;
  has_credentials = is_present c.credentials_encrypted;
  has_token = c.auth_type == "token" && is_present c.credentials_encrypted;
}

abbrev pub find_git_config : String → Db → Option GitConfig
find_git_config project_id db = find_row (λ c. c.project_id == project_id) db.git_configs

unfoldable pub get_git_config : String → User → Query GitConfigResponse
get_git_config slug user = project_of_member slug user >>= λ project.
    or_http (find_git_config project.id) 404 "Git config not found" >>= λ config.
    pure (git_response config)

pub record GitConfigUpdate : Type 0 where
  pub repo_url : Option String
  pub auth_type : Option String
  pub token : Option String
  pub credentials : Option String
  pub default_branch : Field String
  pub dbt_path : Field String
  pub dags_path : Field String
  pub webhook_secret : Option String

abbrev pub new_git_config : String → GitConfig
new_git_config project_id = record {
  project_id = project_id;
  repo_url = "";
  auth_type = "https";
  credentials_encrypted = none;
  default_branch = "main";
  dbt_path = "dbt/";
  dags_path = "dags/";
  webhook_secret_encrypted = none;
}

abbrev pub or_default : Option String → String → String
or_default none d = d
or_default (some s) d = s

-- `body.auth_type or previous_auth_type`
abbrev pub effective_auth_type : GitConfigUpdate → GitConfig → String
effective_auth_type body config = or_default body.auth_type config.auth_type

abbrev pub first_some : Option String → Option String → Option String
first_some none b = b
first_some (some a) b = some a

abbrev pub credential_of : GitConfigUpdate → Option String
credential_of body = first_some body.token body.credentials

abbrev pub is_given : Option String → Bool
is_given none = false
is_given (some s) = true

-- The three checks of the credential before anything is set.
abbrev pub check_credential : GitConfigUpdate → GitConfig → Query (Unit {0})
check_credential body config =
    let effective = effective_auth_type body config in
    refuse_if (is_given body.token && not (effective == "token")) 422
      "Token requires token authentication"
    >> refuse_if (is_given body.credentials && not (effective == "token" || effective == "ssh")) 422
        "Credentials require token or SSH authentication"
    >> refuse_if
        (effective == "token"
          && not (config.auth_type == "token")
          && not (is_given (credential_of body)))
        422 "A token is required when enabling token authentication"

-- The loop of `setattr`; `none` is a null that the commit refuses later.
abbrev pub with_fields : GitConfigUpdate → GitConfig → Option GitConfig
with_fields body config =
    apply_field body.default_branch config.default_branch >>=? λ default_branch.
    apply_field body.dbt_path config.dbt_path >>=? λ dbt_path.
    apply_field body.dags_path config.dags_path >>=? λ dags_path. some (record config {
      repo_url = or_default body.repo_url config.repo_url;
      auth_type = effective_auth_type body config;
      default_branch = default_branch;
      dbt_path = dbt_path;
      dags_path = dags_path;
    })

module _ (urlsplit : String → String × String) (encrypt : String → Option String) where
  abbrev pub is_https : String → Bool
  is_https url = (urlsplit url).0 == "https" && not (is_empty (urlsplit url).1)

  abbrev pub encrypted : String → Query String
  encrypted s = or_http (λ _. encrypt s) 503 "Credential encryption is not configured"

  -- A new credential replaces the old one, and a change of the kind without one drops it.
  abbrev pub next_credential : GitConfigUpdate → GitConfig → Query (Option String)
  next_credential body config = elim (credential_of body) [
    | some s ↦ (encrypted s >>= λ e. pure (some e))
    | none ↦ pure (elim body.auth_type [
      | none ↦ config.credentials_encrypted
      | some kind ↦ if kind == config.auth_type then config.credentials_encrypted else none
    ])
  ]

  abbrev pub next_webhook_secret : GitConfigUpdate → GitConfig → Query (Option String)
  next_webhook_secret body config = elim body.webhook_secret [
    | some s ↦ (encrypted s >>= λ e. pure (some e))
    | none ↦ pure config.webhook_secret_encrypted
  ]

  -- The row that the request leaves of the one that it found, or of the new one.
  unfoldable pub updated_config : GitConfigUpdate → GitConfig → Query GitConfig
  updated_config body config =
      let kind = effective_auth_type body config in
      let url = or_default body.repo_url config.repo_url in
      check_credential body config
      >> refuse_if (kind == "token" && not (is_https url)) 422
          "Token authentication requires an HTTPS repository URL"
      >> next_credential body config
      >>= λ credential. next_webhook_secret body config >>= λ secret.
          refuse_if (kind == "token" && not (is_present credential)) 422
            "Token authentication requires a token"
          >> or_http (λ _. with_fields body config) 500 "Internal Server Error"
          >>= λ config'. pure (record config' {
            credentials_encrypted = credential;
            webhook_secret_encrypted = secret;
          })

  abbrev pub config_of : String → Db → GitConfig
  config_of project_id db = elim (find_git_config project_id db) [
    | none ↦ new_git_config project_id
    | some config ↦ config
  ]

  abbrev pub save_config : GitConfig → Db → Db
  save_config config db = record db {
    git_configs = elim (find_git_config config.project_id db) [
      | none ↦ db.git_configs ++ config ∷ []
      | some _ ↦ update_rows (λ c. c.project_id == config.project_id) (λ _. config) db.git_configs
    ];
  }

  unfoldable pub update_git_config :
      String → GitConfigUpdate → User → Db → Reply GitConfigResponse × Db
  unfolding updated_config
  update_git_config slug body user db = respond git_response (
      commit
        (project_of_admin slug user >>= λ project db.
          updated_config body (config_of project.id db) db)
        save_config db)
