-- ===== src/Projects/Credentials.antt =====
-- What an update of the Git configuration stores of its credentials.
use conductor_data_platform.Prelude.{
  String, ◌≡◌, ◌≢◌, refl, sym, ap, ◌∙◌, inl, inr, true, Option, none, some, List, [], ◌∷◌, ◌++◌,
  arith, Option-cases, ◌==◌, ==-refl, find_row, find_row-holds, update_rows,
}
use conductor_data_platform.Models.{Db, User, Project, GitConfig}
use conductor_data_platform.Http.{Reply, answer, http}
use conductor_data_platform.Projects.Guards.{project_of_admin}
use conductor_data_platform.Projects.Git.{
  GitConfigUpdate, GitConfigResponse, git_response, is_https, is_present, updated_config, config_of,
  find_git_config, update_git_config, save_config, credential_of, effective_auth_type, with_fields,
  next_credential, next_webhook_secret, or_default,
}

module _ (urlsplit : String → String × String) (encrypt : String → Option String) where
  -- What is stored of the credential that a request brings, or of its absence.
  abbrev pub CredentialIs : GitConfigUpdate → GitConfig → Option String → Type 0
  CredentialIs body old stored =
      ((s : String)
        → credential_of body ≡ some s
        → (e : String) × (encrypt s ≡ some e) × (stored ≡ some e))
      × (credential_of body ≡ none
          → effective_auth_type body old ≡ old.auth_type
          → stored ≡ old.credentials_encrypted)
      × (credential_of body ≡ none → effective_auth_type body old ≢ old.auth_type → stored ≡ none)

  fields :
      (body : GitConfigUpdate) (old c : GitConfig)
      → with_fields body old ≡ some c
      → (c.auth_type ≡ effective_auth_type body old)
        × (c.repo_url ≡ or_default body.repo_url old.repo_url)
        × (c.project_id ≡ old.project_id)
  fields body old c h = ground arith

  stored_credential :
      (body : GitConfigUpdate) (old : GitConfig) (db : Db) (stored : Option String)
      → next_credential urlsplit encrypt body old db ≡ answer stored
      → CredentialIs body old stored
  stored_credential body old db stored h = elim (Option-cases (credential_of body)) [
    | inl e ↦ (
      λ s g. absurd (ground (arith, e)),
      λ g same. ground (arith, e),
      λ g differ. ground (arith, e),
    )
    | inr (s, e) ↦ elim (Option-cases (encrypt s)) [
      | inl f ↦ absurd (ground (arith, e))
      | inr (v, f) ↦ (
        λ t g. (v, ground (arith, e), ground (arith, e)),
        λ g. absurd (ground (arith, e)),
        λ g. absurd (ground (arith, e)),
      )
    ]
  ]

  -- The facts of a configuration that an update stores.
  pub record IsConfigured (body : GitConfigUpdate) (old new : GitConfig) : Type 0 where
    pub same_project : new.project_id ≡ old.project_id
    pub kind : new.auth_type ≡ effective_auth_type body old
    pub over_https : new.auth_type ≡ "token" → is_https urlsplit encrypt new.repo_url ≡ true
    pub has_token : new.auth_type ≡ "token" → is_present new.credentials_encrypted ≡ true
    pub credential : CredentialIs body old new.credentials_encrypted

  module _ (body : GitConfigUpdate) (old : GitConfig) (db : Db) where
    -- The parts of an update that went through.
    record Parts (new : GitConfig) : Type 0 where
      pub stored : Option String
      pub next : next_credential urlsplit encrypt body old db ≡ answer stored
      pub base : GitConfig
      pub fields_set : with_fields body old ≡ some base
      pub secret : Option String
      pub result :
          new ≡ record base { credentials_encrypted = stored; webhook_secret_encrypted = secret }
      pub https :
          effective_auth_type body old ≡ "token"
          → is_https urlsplit encrypt (or_default body.repo_url old.repo_url) ≡ true
      pub present : effective_auth_type body old ≡ "token" → is_present stored ≡ true

    parts : (new : GitConfig) → updated_config urlsplit encrypt body old db ≡ answer new → Parts new
    unfolding updated_config
    parts new h = go (next_credential urlsplit encrypt body old db) refl
      where
        finish :
            (stored secret : Option String)
            → next_credential urlsplit encrypt body old db ≡ answer stored
            → next_webhook_secret urlsplit encrypt body old db ≡ answer secret
            → Parts new
        finish stored secret e f = elim (Option-cases (with_fields body old)) [
          | inl g ↦ absurd (ground (arith, e, f))
          | inr (base, g) ↦ record {
            stored = stored;
            next = e;
            base = base;
            fields_set = g;
            secret = secret;
            result = ground (arith, e, f);
            https = λ k. ground (arith, e, f);
            present = λ k. ground (arith, e, f);
          }
        ]

        after :
            (stored : Option String)
            → next_credential urlsplit encrypt body old db ≡ answer stored
            → (o : Reply (Option String)) → next_webhook_secret urlsplit encrypt body old db ≡ o
            → Parts new
        after stored e (http c d) f = absurd (ground (arith, e, f))
        after stored e (answer secret) f = finish stored secret e f

        go :
            (o : Reply (Option String))
            → next_credential urlsplit encrypt body old db ≡ o
            → Parts new
        go (http c d) e = absurd (ground (arith, e))
        go (answer stored) e =
            after stored e (next_webhook_secret urlsplit encrypt body old db) refl

  configured :
      (body : GitConfigUpdate) (old new : GitConfig) (db : Db)
      → updated_config urlsplit encrypt body old db ≡ answer new
      → IsConfigured body old new
  configured body old new db h =
      let p = parts body old db new h in
      let (kind, url, project) = fields body old p.base p.fields_set in
      let same : new.auth_type ≡ effective_auth_type body old = ground (arith, p.result, kind) in
      record {
        same_project = ground (arith, p.result, project);
        kind = same;
        over_https = λ k. rw (p.result, url) (p.https (sym same ∙ k));
        has_token = λ k. rw p.result (p.present (sym same ∙ k));
        credential = rw p.result (stored_credential body old db p.stored p.next);
      }

  found_replaced :
      (c : GitConfig) (cs : List GitConfig)
      → find_row (λ r. r.project_id == c.project_id) cs ≢ none
      → find_row
          (λ r. r.project_id == c.project_id)
          (update_rows (λ r. r.project_id == c.project_id) (λ _. c) cs)
        ≡ some c
  found_replaced c [] h = absurd (h refl)
  found_replaced c (x ∷ xs) h = ground (arith, ==-refl c.project_id, found_replaced c xs)

  found_appended :
      (c : GitConfig) (cs : List GitConfig)
      → find_row (λ r. r.project_id == c.project_id) cs ≡ none
      → find_row (λ r. r.project_id == c.project_id) (cs ++ c ∷ []) ≡ some c
  found_appended c [] h = ground (arith, ==-refl c.project_id)
  found_appended c (x ∷ xs) h = ground (arith, found_appended c xs)

  saved :
      (c : GitConfig) (db : Db)
      → find_git_config c.project_id (save_config urlsplit encrypt c db) ≡ some c
  saved c db = elim (Option-cases (find_git_config c.project_id db)) [
    | inl e ↦ ground (arith, e, found_appended c db.git_configs e)
    | inr (old, e) ↦ ground (arith, e, found_replaced c db.git_configs (λ h. ground (arith, e)))
  ]

  own_project :
      (project_id : String) (db : Db)
      → (config_of urlsplit encrypt project_id db).project_id ≡ project_id
  own_project project_id db = elim (Option-cases (find_git_config project_id db)) [
    | inl e ↦ ground (arith, e)
    | inr (c, e) ↦
        ground (arith, e, find_row-holds (λ r. r.project_id == project_id) db.git_configs e)
  ]

  went_through :
      (slug : String) (body : GitConfigUpdate) (user : User) (db db' : Db)
      (response : GitConfigResponse)
      → update_git_config urlsplit encrypt slug body user db ≡ (answer response, db')
      → (p : Project) × (new : GitConfig) × (project_of_admin slug user db ≡ answer p)
        × (updated_config urlsplit encrypt body (config_of urlsplit encrypt p.id db) db
            ≡ answer new)
        × (db' ≡ save_config urlsplit encrypt new db)
        × (response ≡ git_response new)
  unfolding update_git_config
  went_through slug body user db db' response h = go (project_of_admin slug user db) refl
    where
      after :
          (p : Project)
          → project_of_admin slug user db ≡ answer p
          → (o : Reply GitConfig)
          → updated_config urlsplit encrypt body (config_of urlsplit encrypt p.id db) db ≡ o
          → (p : Project) × (new : GitConfig) × (project_of_admin slug user db ≡ answer p)
            × (updated_config urlsplit encrypt body (config_of urlsplit encrypt p.id db) db
                ≡ answer new)
            × (db' ≡ save_config urlsplit encrypt new db)
            × (response ≡ git_response new)
      after p e (http c d) f = absurd (ground (arith, e, f))
      after p e (answer new) f = (p, new, e, f, ground (arith, e, f), ground (arith, e, f))

      go :
          (o : Reply Project)
          → project_of_admin slug user db ≡ o
          → (p : Project) × (new : GitConfig) × (project_of_admin slug user db ≡ answer p)
            × (updated_config urlsplit encrypt body (config_of urlsplit encrypt p.id db) db
                ≡ answer new)
            × (db' ≡ save_config urlsplit encrypt new db)
            × (response ≡ git_response new)
      go (http c d) e = absurd (ground (arith, e))
      go (answer p) e =
          after p e (updated_config urlsplit encrypt body (config_of urlsplit encrypt p.id db) db)
            refl

  -- An update of the Git configuration that is answered was asked for by an administrator of the project,
  -- and the row that is found afterwards is the one the response describes. If its authentication is by
  -- token, its URL is an HTTPS one and a credential is stored. A new credential is stored encrypted in place
  -- of the old one; without one the old credential stays for the same kind of authentication and is dropped
  -- for another.
  pub update_git_config-IsConfigured :
      (slug : String) (body : GitConfigUpdate) (user : User) (db db' : Db)
      (response : GitConfigResponse)
      → update_git_config urlsplit encrypt slug body user db ≡ (answer response, db')
      → (p : Project) × (new : GitConfig) × (project_of_admin slug user db ≡ answer p)
        × (find_git_config p.id db' ≡ some new)
        × (response ≡ git_response new)
        × IsConfigured body (config_of urlsplit encrypt p.id db) new
  update_git_config-IsConfigured slug body user db db' response h =
      let (p, new, e, f, same_db, same_response) = went_through slug body user db db' response h in
      let facts = configured body (config_of urlsplit encrypt p.id db) new db f in
      let here : new.project_id ≡ p.id = facts.same_project ∙ own_project p.id db in
      (
        p,
        new,
        e,
        ap (λ i. find_git_config i db') (sym here)
            ∙ ap (find_git_config new.project_id) same_db
            ∙ saved new db,
        same_response,
        facts,
      )
