-- ===== src/Admin/Lockout.antt =====
-- What a deactivated user can still do with the sessions API.
use conductor_data_platform.Prelude.{
  ℕ, String, Bool, true, false, Option, none, some, List, [], ◌∷◌, ◌==◌, ◌≡◌, ◌≢◌, refl, ◌∙◌, arith,
  In, find_row, find_row-In, find_row-holds, update_rows, In-update_rows,
}
use conductor_data_platform.Models.{Db, User, find_user, find_user_by_email}
use conductor_data_platform.Http.{Reply, answer, http}
use conductor_data_platform.Admin.Requests.{deactivate_user, save_user}
use conductor_data_platform.Sessions.Tokens.{
  Claims, Jwt, SessionSettings, Stored, redis_delete, refresh_key,
}
use conductor_data_platform.Sessions.Endpoints.{
  TokenResponse, Store, Moment, authenticated, login, presented, renew, refresh,
  get_current_user_from_access_token,
}

abbrev inactive : User → User
inactive u = record u { is_active = false }

module _ (user_id : String) (db : Db) where
  abbrev after : Db
  after = save_user user_id inactive db

  -- No row of the user is active.
  none_active : (u : User) → In u after.users → u.id ≡ user_id → u.is_active ≡ false
  none_active u i e =
      let (x, j, same) = In-update_rows (λ r. r.id == user_id) inactive db.users u i in
      let is_id : x.id ≡ user_id = ground arith in ground arith

  found_inactive :
      (id : String) (u : User) → find_user id after ≡ some u → u.id ≡ user_id → u.is_active ≡ false
  found_inactive id u found = none_active u (find_row-In (λ r. r.id == id) after.users u found)

  found-id : (id : String) (u : User) → find_user id after ≡ some u → u.id ≡ id
  found-id id u found = let hit = find_row-holds (λ r. r.id == id) after.users found in ground arith

  email_inactive :
      (email : String) (u : User)
      → find_user_by_email email after ≡ some u
      → u.id ≡ user_id
      → u.is_active ≡ false
  email_inactive email u found =
      none_active u (find_row-In (λ r. r.email == email) after.users u found)

other_rows :
    (user_id id : String) (users : List User)
    → id ≢ user_id
    → find_row (λ u. u.id == id) (update_rows (λ r. r.id == user_id) inactive users)
      ≡ find_row (λ u. u.id == id) users
other_rows user_id id [] differ = refl
other_rows user_id id (u ∷ users) differ = ground (arith, other_rows user_id id users differ)

module _ (jwt : Jwt) (s : SessionSettings) where
  current-answer :
      (now : ℕ) (token : String) (db : Db) (user : User)
      → get_current_user_from_access_token jwt now token db ≡ answer user
      → (id : String) × (find_user id db ≡ some user) × (user.is_active ≡ true)
  unfolding get_current_user_from_access_token
  current-answer now token db user h = go (jwt.decode now token) refl
    where
      go :
          (o : Option Claims)
          → jwt.decode now token ≡ o
          → (id : String) × (find_user id db ≡ some user) × (user.is_active ≡ true)
      go none e = absurd (ground arith)
      go (some c) e = (c.sub, ground arith, ground arith)

  login-answer :
      (verify : String → String → Bool) (m : Moment) (email password : String) (store : Store)
      (r : TokenResponse)
      → (login jwt s verify m email password store).0 ≡ answer r
      → (user : User) × (find_user_by_email email store.db ≡ some user) × (user.is_active ≡ true)
  unfolding login authenticated
  login-answer verify m email password store r h = go (find_user_by_email email store.db) refl
    where
      go :
          (o : Option User)
          → find_user_by_email email store.db ≡ o
          → (user : User) × (find_user_by_email email store.db ≡ some user)
            × (user.is_active ≡ true)
      go none e = absurd (ground arith)
      go (some user) e = (user, e, ground arith)

  renew-answer :
      (m : Moment) (user_id : String) (store : Store) (r : TokenResponse)
      → (renew jwt s m user_id store).0 ≡ answer r
      → (user : User) × (find_user user_id store.db ≡ some user) × (user.is_active ≡ true)
  unfolding renew
  renew-answer m user_id store r h = go (find_user user_id store.db) refl
    where
      go :
          (o : Option User)
          → find_user user_id store.db ≡ o
          → (user : User) × (find_user user_id store.db ≡ some user) × (user.is_active ≡ true)
      go none e = absurd (ground arith)
      go (some user) e = (user, e, ground arith)

  presented-decode :
      (m : Moment) (token : String) (store : Store) (c : Claims)
      → presented jwt s m.now token store.redis ≡ answer c
      → jwt.decode m.now token ≡ some c
  unfolding presented
  presented-decode m token store c h = go (jwt.decode m.now token) refl
    where
      go : (o : Option Claims) → jwt.decode m.now token ≡ o → jwt.decode m.now token ≡ some c
      go none e = absurd (ground arith)
      go (some d) e = ground arith

  refresh-answer :
      (m : Moment) (token : String) (store : Store) (r : TokenResponse)
      → (refresh jwt s m token store).0 ≡ answer r
      → (c : Claims) × (user : User) × (jwt.decode m.now token ≡ some c)
        × (find_user c.sub store.db ≡ some user)
        × (user.is_active ≡ true)
  unfolding refresh
  refresh-answer m token store r h = go (presented jwt s m.now token store.redis) refl
    where
      go :
          (o : Reply Claims)
          → presented jwt s m.now token store.redis ≡ o
          → (c : Claims) × (user : User) × (jwt.decode m.now token ≡ some c)
            × (find_user c.sub store.db ≡ some user)
            × (user.is_active ≡ true)
      go (http code detail) e = absurd (ground arith)
      go (answer c) e =
          let spent = record store { redis = redis_delete (refresh_key s c.jti) store.redis } in
          let (user, found, active) = renew-answer m c.sub spent r (ground arith) in
          (c, user, presented-decode m token store c e, found, active)

-- Nothing is answered for the user: no request with an access token of theirs, no refresh of a token of
-- theirs and no login with their address.
pub record IsLockedOut (jwt : Jwt) (s : SessionSettings) (user_id : String) (db : Db) : Type 0 where
  pub requests :
      (now : ℕ) (token : String) (user : User)
      → get_current_user_from_access_token jwt now token db ≡ answer user
      → user.id ≢ user_id
  pub refreshes :
      (m : Moment) (token : String) (redis : List Stored) (r : TokenResponse)
      → (refresh jwt s m token (record { db = db; redis = redis })).0 ≡ answer r
      → (c : Claims) × (jwt.decode m.now token ≡ some c) × (c.sub ≢ user_id)
  pub logins :
      (verify : String → String → Bool) (m : Moment) (email password : String) (redis : List Stored)
      (r : TokenResponse)
      → (login jwt s verify m email password (record { db = db; redis = redis })).0 ≡ answer r
      → (user : User) × (find_user_by_email email db ≡ some user) × (user.id ≢ user_id)

-- Once an administrator has deactivated a user, the user is locked out at once, whatever tokens they hold:
-- no access token loads them, no refresh token of theirs renews a session, no login with their address is
-- answered; the rows of all other users are found as before.
pub deactivate_user-IsLockedOut :
    (jwt : Jwt) (s : SessionSettings) (user_id : String) (db db' : Db)
    → deactivate_user user_id db ≡ (answer tt, db')
    → IsLockedOut jwt s user_id db'
      × ((id : String) → id ≢ user_id → find_user id db' ≡ find_user id db)
unfolding deactivate_user
deactivate_user-IsLockedOut jwt s user_id db db' h =
    let done : after user_id db ≡ db' = ground arith in
    rw (← done) (
      record {
        requests = λ now token user loaded same.
            let (id, found, active) =
              current-answer jwt s now token (after user_id db) user loaded in
            let off = found_inactive user_id db id user found same in absurd (cc);
        refreshes = λ m token redis r answered.
            let (c, user, read, found, active) =
              refresh-answer jwt s m token (record { db = after user_id db; redis = redis }) r
                answered in
            let same = found-id user_id db c.sub user found in
            (
              c,
              read,
              λ e. let off = found_inactive user_id db c.sub user found (same ∙ e) in absurd (cc),
            );
        logins = λ verify m email password redis r answered.
            let (user, found, active) =
              login-answer jwt s verify m email password
                (record { db = after user_id db; redis = redis }) r answered in
            (
              user,
              found,
              λ e. let off = email_inactive user_id db email user found e in absurd (cc),
            );
      },
      λ id differ. other_rows user_id id db.users differ,
    )
