-- ===== src/Sessions/Spent.antt =====
-- Requests in any order, and a refresh token whose key is stored no more.
use text.Mathlib.TextLemmas.{append_cancel_left}
use conductor_data_platform.Prelude.{
  ℕ, ◌*◌, String, Bool, false, Option, none, some, List, [], ◌∷◌, if◌then◌else◌, ◌==◌, ◌≡◌, ◌≢◌,
  refl, arith, any_row, All, ◌++◌, Bool-cases, inl, inr,
}
use conductor_data_platform.Models.{User, find_user}
use conductor_data_platform.Models.{find_user_by_email}
use conductor_data_platform.Http.{Reply, answer, http}
use conductor_data_platform.Sessions.Tokens.{
  Claims, Jwt, SessionSettings, create_refresh_token, Stored, refresh_key, redis_get, redis_delete,
  redis_setex,
}
use conductor_data_platform.Sessions.Endpoints.{
  TokenResponse, Store, Moment, RegisterRequest, issue, register, authenticated, login, presented,
  renew, refresh, new_user,
}

-- The key is not stored.
abbrev pub has_key : String → List Stored → Bool
has_key key redis = any_row (λ (r : Stored). r.key == key) redis

pub redis_get_missing :
    (key : String) (redis : List Stored) (now : ℕ)
    → has_key key redis ≡ false
    → redis_get now key redis ≡ none
unfolding redis_get
redis_get_missing key [] now h = refl
redis_get_missing key (r ∷ redis) now h = ground (arith, redis_get_missing key redis now)

pub redis_delete_self :
    (key : String) (redis : List Stored) → has_key key (redis_delete key redis) ≡ false
unfolding redis_delete
redis_delete_self key [] = refl
redis_delete_self key (r ∷ redis) = ground (arith, redis_delete_self key redis)

redis_delete_missing :
    (key k : String) (redis : List Stored)
    → has_key key redis ≡ false
    → has_key key (redis_delete k redis) ≡ false
unfolding redis_delete
redis_delete_missing key k [] h = refl
redis_delete_missing key k (r ∷ redis) h = ground (arith, redis_delete_missing key k redis)

redis_setex_missing :
    (key k : String) (now ttl : ℕ) (value : String) (redis : List Stored)
    → k ≢ key
    → has_key key redis ≡ false
    → has_key key (redis_setex now k ttl value redis) ≡ false
unfolding redis_setex
redis_setex_missing key k now ttl value redis ne h =
    ground (arith, redis_delete_missing key k redis h)

-- Calls of the endpoints that make or renew sessions
pub data Call : Type 0 where
  registers : RegisterRequest → Call
  logs_in : String → String → Call
  refreshes : String → Call

module _ (jwt : Jwt) (s : SessionSettings) (hash : String → String)
    (verify : String → String → Bool) where
  pub perform : Moment → Call → Store → Store
  perform m (registers body) store = (register jwt s hash m body store).1
  perform m (logs_in email password) store = (login jwt s verify m email password store).1
  perform m (refreshes token) store = (refresh jwt s m token store).1

  pub perform_all : List (Moment × Call) → Store → Store
  unfolding perform
  perform_all [] store = store
  perform_all ((m, call) ∷ calls) store = perform_all calls (perform m call store)

  -- The calls draw no refresh token with this id.
  abbrev pub DrawOthers : String → List (Moment × Call) → Type 0
  DrawOthers jti = All (λ (c : Moment × Call). c.0.refresh_jti ≢ jti)

  module _ (jti : String) where
    abbrev Spent : Store → Type 0
    Spent store = has_key (refresh_key s jti) store.redis ≡ false

    issue-Spent :
        (m : Moment) (user : User) (store : Store)
        → m.refresh_jti ≢ jti
        → Spent store
        → Spent (issue jwt s m user store).1
    unfolding issue create_refresh_token
    issue-Spent m user store ne h =
        redis_setex_missing (refresh_key s jti) (refresh_key s m.refresh_jti) m.now
          (s.refresh_token_expire_days * 86400) user.id store.redis
          (λ e. ne (append_cancel_left s.redis_refresh_prefix m.refresh_jti jti e)) h

    pub renew-Spent :
        (m : Moment) (id : String) (store : Store)
        → m.refresh_jti ≢ jti
        → Spent store
        → Spent (renew jwt s m id store).1
    unfolding renew
    renew-Spent m id store ne h = go (find_user id store.db)
      where
        go :
            (o : Option User)
            → Spent
                (elim o as (λ _. Reply TokenResponse × Store) [
                  | none ↦ (http 401 "User not found or inactive", store)
                  | some user ↦
                      if user.is_active
                      then issue jwt s m user store
                      else (http 401 "User not found or inactive", store)
                ]).1
        go none = h
        go (some user) = elim (Bool-cases user.is_active) [
          | inl active ↦ rw active (issue-Spent m user store ne h)
          | inr inactive ↦ rw inactive h
        ]

    refresh-Spent :
        (m : Moment) (token : String) (store : Store)
        → m.refresh_jti ≢ jti
        → Spent store
        → Spent (refresh jwt s m token store).1
    unfolding refresh
    refresh-Spent m token store ne h = go (presented jwt s m.now token store.redis)
      where
        go :
            (o : Reply Claims)
            → Spent
                (elim o as (λ _. Reply TokenResponse × Store) [
                  | http c d ↦ (http c d, store)
                  | answer c ↦
                      renew jwt s m c.sub
                        (record store { redis = redis_delete (refresh_key s c.jti) store.redis })
                ]).1
        go (http c d) = h
        go (answer c) =
            renew-Spent m c.sub
              (record store { redis = redis_delete (refresh_key s c.jti) store.redis }) ne
              (redis_delete_missing (refresh_key s jti) (refresh_key s c.jti) store.redis h)

    login-Spent :
        (m : Moment) (email password : String) (store : Store)
        → m.refresh_jti ≢ jti
        → Spent store
        → Spent (login jwt s verify m email password store).1
    unfolding login
    login-Spent m email password store ne h =
        go (authenticated jwt s verify email password store.db)
      where
        go :
            (o : Reply User)
            → Spent
                (elim o as (λ _. Reply TokenResponse × Store) [
                  | http c d ↦ (http c d, store)
                  | answer user ↦ issue jwt s m user store
                ]).1
        go (http c d) = h
        go (answer user) = issue-Spent m user store ne h

    register-Spent :
        (m : Moment) (body : RegisterRequest) (store : Store)
        → m.refresh_jti ≢ jti
        → Spent store
        → Spent (register jwt s hash m body store).1
    unfolding register
    register-Spent m body store ne h = go (find_user_by_email body.email store.db)
      where
        added : Store
        added = record store {
          db = record store.db { users = store.db.users ++ new_user jwt s hash m body ∷ [] };
        }

        go :
            (o : Option User)
            → Spent
                (elim o as (λ _. Reply TokenResponse × Store) [
                  | some _ ↦ (http 409 "Email already registered", store)
                  | none ↦ issue jwt s m (new_user jwt s hash m body) added
                ]).1
        go none = issue-Spent m (new_user jwt s hash m body) added ne h
        go (some u) = h

    perform-Spent :
        (m : Moment) (call : Call) (store : Store)
        → m.refresh_jti ≢ jti
        → Spent store
        → Spent (perform m call store)
    unfolding perform
    perform-Spent m (registers body) = register-Spent m body
    perform-Spent m (logs_in email password) = login-Spent m email password
    perform-Spent m (refreshes token) = refresh-Spent m token

    pub perform_all-Spent :
        (calls : List (Moment × Call)) (store : Store)
        → DrawOthers jti calls
        → Spent store
        → Spent (perform_all calls store)
    unfolding perform_all
    perform_all-Spent [] store ne h = h
    perform_all-Spent ((m, call) ∷ calls) store ne h =
        perform_all-Spent calls (perform m call store) ne.1 (perform-Spent m call store ne.0 h)
