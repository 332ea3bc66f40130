-- ===== src/Sessions/Current.antt =====
-- What the tokens of a login are good for.
use conductor_data_platform.Prelude.{
  ℕ, ◌*◌, ◌+◌, ◌≤◌, ◌<◌, String, Bool, true, none, some, if◌then◌else◌, ◌≡◌, ◌≢◌, refl, ◌∙◌, arith,
  String-discrete, ne_of_test,
}
use conductor_data_platform.Models.{Db, User, find_user}
use conductor_data_platform.Models.{find_user_by_email}
use conductor_data_platform.Http.{Reply, answer, http}
use conductor_data_platform.Sessions.Tokens.{
  Claims, Jwt, IsJwt, SessionSettings, create_access_token, create_refresh_token, access_claims,
  refresh_claims,
}
use conductor_data_platform.Sessions.Endpoints.{
  TokenResponse, Store, Moment, issue, authenticated, login, presented,
  get_current_user_from_access_token,
}

-- The tokens of a response: the access token stands for the user's row as it is when it is presented, up
-- to its expiry and not behind it, and neither token passes for the other.
abbrev pub StandsFor : Jwt → SessionSettings → ℕ → User → TokenResponse → Type 0
StandsFor jwt s issued user r =
    ((now : ℕ) (db : Db) (row : User)
      → now ≤ issued + s.access_token_expire_minutes * 60
      → find_user user.id db ≡ some row
      → get_current_user_from_access_token jwt now r.access_token db
        ≡ (if row.is_active then answer row else http 401 "User not found or inactive"))
    × ((now : ℕ) (db : Db)
        → issued + s.access_token_expire_minutes * 60 < now
        → get_current_user_from_access_token jwt now r.access_token db
          ≡ http 401 "Invalid or expired token")
    × ((now : ℕ) (db : Db)
        → get_current_user_from_access_token jwt now r.refresh_token db
          ≡ http 401 "Invalid or expired token")
    × ((now : ℕ) (store : Store)
        → presented jwt s now r.access_token store.redis ≡ http 401 "Invalid refresh token")

access-ne-refresh : ◌≢◌ {A = String} "access" "refresh"
unfolding String-discrete
access-ne-refresh = ne_of_test "access" "refresh" refl

refresh-ne-access : ◌≢◌ {A = String} "refresh" "access"
unfolding String-discrete
refresh-ne-access = ne_of_test "refresh" "access" refl

authenticated-answer :
    (jwt : Jwt) (s : SessionSettings) (verify : String → String → Bool) (email password : String)
    (db : Db) (user : User)
    → authenticated jwt s verify email password db ≡ answer user
    → (find_user_by_email email db ≡ some user)
      × (verify password user.hashed_password ≡ true)
      × (user.is_active ≡ true)
unfolding authenticated
authenticated-answer jwt s verify email password db user h =
    (ground arith, ground arith, ground arith)

module _ (jwt : Jwt) (s : SessionSettings) (law : IsJwt jwt) where
  decode_live : (now : ℕ) (c : Claims) → now ≤ c.exp → jwt.decode now (jwt.encode c) ≡ some c
  decode_live now c h = law.reads now c ∙ ground arith

  decode_expired : (now : ℕ) (c : Claims) → c.exp < now → jwt.decode now (jwt.encode c) ≡ none
  decode_expired now c h = law.reads now c ∙ ground arith

  current_live :
      (now : ℕ) (c : Claims) (db : Db) (row : User)
      → now ≤ c.exp
      → c.token_type ≡ "access"
      → find_user c.sub db ≡ some row
      → get_current_user_from_access_token jwt now (jwt.encode c) db
        ≡ (if row.is_active then answer row else http 401 "User not found or inactive")
  unfolding get_current_user_from_access_token
  current_live now c db row h t f = ground (arith, decode_live now c h)

  current_expired :
      (now : ℕ) (c : Claims) (db : Db)
      → c.exp < now
      → get_current_user_from_access_token jwt now (jwt.encode c) db
        ≡ http 401 "Invalid or expired token"
  unfolding get_current_user_from_access_token
  current_expired now c db h = ground (arith, decode_expired now c h)

  current_other :
      (now : ℕ) (c : Claims) (db : Db)
      → c.token_type ≡ "refresh"
      → get_current_user_from_access_token jwt now (jwt.encode c) db
        ≡ http 401 "Invalid or expired token"
  unfolding get_current_user_from_access_token
  current_other now c db t = ground (arith, law.reads now c, refresh-ne-access)

  presented_other :
      (now : ℕ) (c : Claims) (store : Store)
      → c.token_type ≡ "access"
      → presented jwt s now (jwt.encode c) store.redis ≡ http 401 "Invalid refresh token"
  unfolding presented
  presented_other now c store t = ground (arith, law.reads now c, access-ne-refresh)

  issue-StandsFor :
      (m : Moment) (user : User) (store : Store) (r : TokenResponse)
      → (issue jwt s m user store).0 ≡ answer r
      → StandsFor jwt s m.now user r
  unfolding issue create_access_token create_refresh_token
  issue-StandsFor m user store r h =
      let access = access_claims s m.now m.access_jti user in
      let renewal = refresh_claims s m.now m.refresh_jti user in
      let first : jwt.encode access ≡ r.access_token = cc in
      let second : jwt.encode renewal ≡ r.refresh_token = cc in
      (
        λ now db row le found. rw (← first) (current_live now access db row le refl found),
        λ now db lt. rw (← first) (current_expired now access db lt),
        λ now db. rw (← second) (current_other now renewal db refl),
        λ now store. rw (← first) (presented_other now access store refl),
      )

  -- A login is answered only for an active user whose password is right; until the access token
  -- expires it is accepted for that user, as the user's row is then, and afterwards refused; the refresh
  -- token is no access token and the access token no refresh token.
  pub login-StandsFor :
      (verify : String → String → Bool) (m : Moment) (email password : String) (store : Store)
      (r : TokenResponse)
      → (login jwt s verify m email password store).0 ≡ answer r
      → (user : User) × (find_user_by_email email store.db ≡ some user)
        × (verify password user.hashed_password ≡ true)
        × (user.is_active ≡ true)
        × StandsFor jwt s m.now user r
  unfolding login
  login-StandsFor verify m email password store r h =
      go (authenticated jwt s verify email password store.db) refl h
    where
      go :
          (o : Reply User)
          → authenticated jwt s verify email password store.db ≡ o
          → (elim o as (λ _. Reply TokenResponse × Store) [
            | http c d ↦ (http c d, store)
            | answer user ↦ issue jwt s m user store
          ]).0
            ≡ answer r
          → (user : User) × (find_user_by_email email store.db ≡ some user)
            × (verify password user.hashed_password ≡ true)
            × (user.is_active ≡ true)
            × StandsFor jwt s m.now user r
      go (http c d) p q = absurd (cc)
      go (answer user) p q =
          let (found, right, active) =
            authenticated-answer jwt s verify email password store.db user p in
          (user, found, right, active, issue-StandsFor m user store r q)
