-- ===== src/Sessions/Tokens.antt =====
-- Tokens of backend/app/auth/jwt.py, and the refresh tokens that Redis keeps. The JWT library is a
-- parameter; times are seconds.
use Prim.Native.String
use conductor_data_platform.Prelude.{
  ℕ, ◌+◌, ◌*◌, ◌≡◌, String, Bool, not, ◌&&◌, Option, none, some, List, ◌∷◌, ltb, if◌then◌else◌,
  ◌==◌, find_row, keep_rows,
}
use conductor_data_platform.Models.{User}

pub record Claims : Type 0 where
  pub jti : String
  pub sub : String
  pub email : Option String
  pub is_admin : Option Bool
  pub exp : ℕ
  pub token_type : String

-- `decode` at a time; `none` is a JWTError.
pub record Jwt : Type 0 where
  pub encode : Claims → String
  pub decode : ℕ → String → Option Claims

-- What the code relies on of the library: a signed token is read back until it has expired, and the
-- claims of a token are the same whenever it is read.
pub record IsJwt (jwt : Jwt) : Type 0 where
  pub reads :
      (now : ℕ) (c : Claims)
      → jwt.decode now (jwt.encode c) ≡ (if ltb c.exp now then none else some c)
  pub constant :
      (now later : ℕ) (token : String) (c c' : Claims)
      → jwt.decode now token ≡ some c
      → jwt.decode later token ≡ some c'
      → c ≡ c'

pub record SessionSettings : Type 0 where
  pub access_token_expire_minutes : ℕ
  pub refresh_token_expire_days : ℕ
  pub redis_refresh_prefix : String

abbrev pub access_claims : SessionSettings → ℕ → String → User → Claims
access_claims s now jti user = record {
  jti = jti;
  sub = user.id;
  email = some user.email;
  is_admin = some user.is_admin;
  exp = now + s.access_token_expire_minutes * 60;
  token_type = "access";
}

abbrev pub refresh_claims : SessionSettings → ℕ → String → User → Claims
refresh_claims s now jti user = record {
  jti = jti;
  sub = user.id;
  email = none;
  is_admin = none;
  exp = now + s.refresh_token_expire_days * 86400;
  token_type = "refresh";
}

unfoldable pub create_access_token : Jwt → SessionSettings → ℕ → String → User → String
create_access_token jwt s now jti user = jwt.encode (access_claims s now jti user)

unfoldable pub create_refresh_token : Jwt → SessionSettings → ℕ → String → User → String × String
create_refresh_token jwt s now jti user = (jwt.encode (refresh_claims s now jti user), jti)

-- A key of Redis with its value and the time at which it is dropped
pub record Stored : Type 0 where
  pub key : String
  pub value : String
  pub expires_at : ℕ

abbrev pub refresh_key : SessionSettings → String → String
refresh_key s jti = String.◌++◌ s.redis_refresh_prefix jti

abbrev value_of : Option Stored → Option String
value_of none = none
value_of (some r) = some r.value

unfoldable pub redis_get : ℕ → String → List Stored → Option String
redis_get now key rows = value_of (find_row (λ r. r.key == key && ltb now r.expires_at) rows)

unfoldable pub redis_delete : String → List Stored → List Stored
redis_delete key rows = keep_rows (λ r. not (r.key == key)) rows

unfoldable pub redis_setex : ℕ → String → ℕ → String → List Stored → List Stored
unfolding redis_delete
redis_setex now key ttl value rows =
    record { key = key; value = value; expires_at = now + ttl } ∷ redis_delete key rows
