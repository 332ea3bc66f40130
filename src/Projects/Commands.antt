-- ===== src/Projects/Commands.antt =====
-- The endpoints that write, as the commands of a user on one project.
use conductor_data_platform.Prelude.{ℕ, String, Bool, Option}
use conductor_data_platform.Models.{Db, User}
use conductor_data_platform.Projects.Guards.{Field}
use conductor_data_platform.Projects.Members.{add_member, change_member_role, remove_member}
use conductor_data_platform.Projects.Environments.{
  EnvironmentCreate, EnvironmentUpdate, create_environment, update_environment, delete_environment,
  update_settings, update_project,
}
use conductor_data_platform.Projects.Git.{GitConfigUpdate, update_git_config}

pub data Command : Type 0 where
  adding : (now : ℕ) (email role_name : String) → Command
  changing : (user_id role_name : String) → Command
  removing : (user_id : String) → Command
  creating_environment : (id : String) (body : EnvironmentCreate) → Command
  updating_environment : (env_id : String) (body : EnvironmentUpdate) → Command
  deleting_environment : (env_id : String) → Command
  updating_settings : (self_approve_enabled : Field Bool) → Command
  updating_project : (name description : Field String) → Command
  updating_git : (body : GitConfigUpdate) → Command

module _ (urlsplit : String → String × String) (encrypt : String → Option String) where
  -- The tables after a command.
  unfoldable pub execute : String → User → Command → Db → Db
  execute slug user (adding now email role_name) db =
      (add_member now slug email role_name user db).1
  execute slug user (changing user_id role_name) db =
      (change_member_role slug user_id role_name user db).1
  execute slug user (removing user_id) db = (remove_member slug user_id user db).1
  execute slug user (creating_environment id body) db = (create_environment id slug body user db).1
  execute slug user (updating_environment env_id body) db =
      (update_environment slug env_id body user db).1
  execute slug user (deleting_environment env_id) db = (delete_environment slug env_id user db).1
  execute slug user (updating_settings enabled) db = (update_settings slug enabled user db).1
  execute slug user (updating_project name description) db =
      (update_project slug name description user db).1
  execute slug user (updating_git body) db =
      (update_git_config urlsplit encrypt slug body user db).1
