-- ===== src/Sessions/Tests.antt =====
-- Sessions with tokens that spell out their claims.
use conductor_data_platform.Prelude.{
  ℕ, String, String-discrete, Bool, true, false, none, some, List, [], ◌∷◌, ◌≡◌, refl, ap,
  if◌then◌else◌, not, ◌==◌, ne_of_test,
}
use conductor_data_platform.Models.{Db, User}
use conductor_data_platform.Models.{find_user_by_email}
use conductor_data_platform.Http.{Reply, answer, http}
use conductor_data_platform.Sessions.Tokens.{
  Claims, SessionSettings, refresh_claims, access_claims, refresh_key, redis_get, redis_delete,
}
use conductor_data_platform.Sessions.Endpoints.{
  presented, TokenResponse, Store, Moment, login, refresh, renew,
}
use conductor_data_platform.Sessions.Spent.{Call, logs_in, perform_all}
use conductor_data_platform.Sessions.Once.{refresh_once}
use conductor_data_platform.Sessions.Current.{StandsFor, login-StandsFor}
use conductor_data_platform.Sessions.Source.{
  IpAddress, IsSource, trusted_proxy_networks, is_trusted, source_ip, source_ip-IsSource,
}
use conductor_data_platform.Sessions.Spelled.{
  spell, read_claims-spell, alive, plain_decode, plain, plain-IsJwt,
}

abbrev settings : SessionSettings
settings = record {
  access_token_expire_minutes = 1;
  refresh_token_expire_days = 1;
  redis_refresh_prefix = "refresh:";
}

abbrev ada : User
ada = record {
  id = "a";
  email = "ada@example.org";
  hashed_password = "pw";
  display_name = "Ada";
  is_active = true;
  is_admin = false;
}

abbrev tables : Db
tables = record {
  users = ada ∷ [];
  roles = [];
  permissions = [];
  projects = [];
  members = [];
  environments = [];
  git_configs = [];
  deployments = [];
  resources = [];
  jobs = [];
  grants = [];
  audit = [];
}

abbrev empty : Store
empty = record { db = tables; redis = [] }

abbrev at : ℕ → String → Moment
at now jti = record { now = now; access_jti = "x"; refresh_jti = jti; user_id = "u" }

abbrev same_text : String → String → Bool
same_text a b = a == b

abbrev first_claims : Claims
first_claims = refresh_claims settings 10 "one" ada

abbrev first_access : Claims
first_access = access_claims settings 10 "x" ada

abbrev response : TokenResponse
response = record {
  access_token = spell first_access;
  refresh_token = spell first_claims;
  expires_in = 60;
}

logged_in :
    (login plain settings same_text (at 10 "one") "ada@example.org" "pw" empty).0 ≡ answer response
unfolding login String-discrete
logged_in = refl

login-StandsFor_example :
    (user : User) × (find_user_by_email "ada@example.org" tables ≡ some user)
    × (same_text "pw" user.hashed_password ≡ true)
    × (user.is_active ≡ true)
    × StandsFor plain settings 10 user response
login-StandsFor_example =
    login-StandsFor plain settings plain-IsJwt same_text (at 10 "one") "ada@example.org" "pw" empty
      response logged_in

-- After the login
abbrev session : Store
session = record {
  db = tables;
  redis = record { key = "refresh:one"; value = "a"; expires_at = 86410 } ∷ [];
}

abbrev renewed : TokenResponse
renewed = record {
  access_token = spell (access_claims settings 20 "x" ada);
  refresh_token = spell (refresh_claims settings 20 "two" ada);
  expires_in = 60;
}

first_reads : plain.decode 20 (spell first_claims) ≡ some first_claims
unfolding plain_decode
first_reads = ap (alive 20) (read_claims-spell first_claims)

abbrev later_calls : List (Moment × Call)
later_calls = (at 30 "three", logs_in "ada@example.org" "pw") ∷ []

refreshed : (refresh plain settings (at 20 "two") (spell first_claims) session).0 ≡ answer renewed
unfolding refresh presented String-discrete
refreshed =
    ap
      (λ o.
        let checked = elim o as (λ _. Reply Claims) [
          | none ↦ http 401 "Invalid refresh token"
          | some c ↦
              if not (c.token_type == "refresh")
              then http 401 "Invalid refresh token"
              else elim (redis_get 20 (refresh_key settings c.jti) session.redis)
                  as (λ _. Reply Claims) [
                    | none ↦ http 401 "Refresh token expired or revoked"
                    | some stored ↦
                        if stored == c.sub
                        then answer c
                        else http 401 "Refresh token expired or revoked"
                  ]
        ] in
        (elim checked as (λ _. Reply TokenResponse × Store) [
          | http c d ↦ (http c d, session)
          | answer c ↦
              renew plain settings (at 20 "two") c.sub
                (record session { redis = redis_delete (refresh_key settings c.jti) session.redis })
        ]).0)
      first_reads

refresh_once_example :
    let later =
      perform_all plain settings
        (λ p. p)
        same_text
        later_calls
        (refresh plain settings (at 20 "two") (spell first_claims) session).1 in
    (detail : String) × ((refresh plain settings (at 40 "four") (spell first_claims) later).0
      ≡ http 401 detail)
    × ((refresh plain settings (at 40 "four") (spell first_claims) later).1 ≡ later)
unfolding String-discrete
refresh_once_example =
    refresh_once plain settings (λ p. p) same_text plain-IsJwt (at 20 "two") (at 40 "four")
      (spell first_claims) session renewed first_claims later_calls refreshed first_reads
      (ne_of_test "two" "one" refl, (ne_of_test "three" "one" refl, tt))

-- Addresses are texts, and a network is one address.
abbrev addresses : IpAddress String String
addresses = record {
  ip_address = λ t. some t;
  ip_network = λ t. some t;
  contains = λ n ip. n == ip;
  show = λ ip. ip;
}

source_behind_proxy :
    source_ip addresses "10.0.0.1" (some "10.0.0.1") (some "1.2.3.4, 5.6.7.8, 10.0.0.1") ≡ "5.6.7.8"
unfolding source_ip String-discrete
source_behind_proxy = refl

source_forged : source_ip addresses "10.0.0.1" (some "9.9.9.9") (some "1.2.3.4") ≡ "9.9.9.9"
unfolding source_ip String-discrete
source_forged = refl

source_ip-IsSource_example :
    IsSource addresses
      (trusted_proxy_networks addresses "10.0.0.1")
      "10.0.0.1"
      (some "1.2.3.4, 10.0.0.1")
      (source_ip addresses "10.0.0.1" (some "10.0.0.1") (some "1.2.3.4, 10.0.0.1"))
    × (is_trusted addresses (trusted_proxy_networks addresses "10.0.0.1") "10.0.0.1" ≡ false
        → source_ip addresses "10.0.0.1" (some "10.0.0.1") (some "1.2.3.4, 10.0.0.1") ≡ "10.0.0.1")
source_ip-IsSource_example =
    source_ip-IsSource addresses "10.0.0.1" "10.0.0.1" (some "1.2.3.4, 10.0.0.1") "10.0.0.1" refl
