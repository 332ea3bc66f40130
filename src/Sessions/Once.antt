-- ===== src/Sessions/Once.antt =====
-- A refresh token renews one session only.
use conductor_data_platform.Prelude.{
  ℕ, String, Bool, false, Option, none, some, List, ◌∷◌, ◌==◌, ◌≡◌, ◌≢◌, refl, ap, ◌∙◌, arith,
  Bool-cases, inl, inr,
}
use conductor_data_platform.Http.{Reply, answer, http}
use conductor_data_platform.Sessions.Tokens.{
  Claims, Jwt, IsJwt, SessionSettings, Stored, refresh_key, redis_get, redis_delete,
}
use conductor_data_platform.Sessions.Endpoints.{
  TokenResponse, Store, Moment, presented, renew, refresh,
}
use conductor_data_platform.Sessions.Spent.{
  has_key, redis_get_missing, redis_delete_self, perform_all, DrawOthers, renew-Spent,
  perform_all-Spent, Call, refreshes,
}

module _ (jwt : Jwt) (s : SessionSettings) (hash : String → String)
    (verify : String → String → Bool) where
  presented-answer :
      (now : ℕ) (token : String) (redis : List Stored) (c d : Claims)
      → presented jwt s now token redis ≡ answer d
      → jwt.decode now token ≡ some c
      → d ≡ c
  unfolding presented
  presented-answer now token redis c d h e = ground arith

  -- A refresh that is answered has deleted the token that was presented.
  refresh_spends :
      (m : Moment) (token : String) (store : Store) (r : TokenResponse) (c : Claims)
      → (refresh jwt s m token store).0 ≡ answer r
      → jwt.decode m.now token ≡ some c
      → m.refresh_jti ≢ c.jti
      → has_key (refresh_key s c.jti) (refresh jwt s m token store).1.redis ≡ false
  unfolding refresh
  refresh_spends m token store r c h e ne = go (presented jwt s m.now token store.redis) refl h
    where
      go :
          (o : Reply Claims)
          → presented jwt s m.now token store.redis ≡ o
          → (elim o as (λ _. Reply TokenResponse × Store) [
            | http c d ↦ (http c d, store)
            | answer c ↦
                renew jwt s m c.sub
                  (record store { redis = redis_delete (refresh_key s c.jti) store.redis })
          ]).0
            ≡ answer r
          → has_key
              (refresh_key s c.jti)
              (elim o as (λ _. Reply TokenResponse × Store) [
                | http c d ↦ (http c d, store)
                | answer c ↦
                    renew jwt s m c.sub
                      (record store { redis = redis_delete (refresh_key s c.jti) store.redis })
              ]).1.redis
            ≡ false
      go (http code d) p q = absurd (cc)
      go (answer d) p q =
          let same : d.jti ≡ c.jti =
            ap (λ (x : Claims). x.jti) (presented-answer m.now token store.redis c d p e) in
          rw (← same) (
            (renew-Spent jwt s hash verify) d.jti m d.sub
              (record store { redis = redis_delete (refresh_key s d.jti) store.redis })
              (λ eq. ne (eq ∙ same)) (redis_delete_self (refresh_key s d.jti) store.redis))

  -- A token whose id is not stored renews nothing.
  refresh_refused :
      (law : IsJwt jwt) (m m' : Moment) (token : String) (store : Store) (c : Claims)
      → jwt.decode m.now token ≡ some c
      → has_key (refresh_key s c.jti) store.redis ≡ false
      → (detail : String) × ((refresh jwt s m' token store).0 ≡ http 401 detail)
        × ((refresh jwt s m' token store).1 ≡ store)
  unfolding refresh presented
  refresh_refused law m m' token store c e absent = go (jwt.decode m'.now token) refl
    where
      go :
          (o : Option Claims)
          → jwt.decode m'.now token ≡ o
          → (detail : String) × ((refresh jwt s m' token store).0 ≡ http 401 detail)
            × ((refresh jwt s m' token store).1 ≡ store)
      go none p = ("Invalid refresh token", ground arith, ground arith)
      go (some d) p =
          let same : c ≡ d = law.constant m.now m'.now token c d e p in
          let gone : redis_get m'.now (refresh_key s d.jti) store.redis ≡ none =
            redis_get_missing (refresh_key s d.jti) store.redis m'.now (rw (← same) absent) in
          elim (Bool-cases (d.token_type == "refresh")) [
            | inl typed ↦ ("Refresh token expired or revoked", ground arith, ground arith)
            | inr differ ↦ ("Invalid refresh token", ground arith, ground arith)
          ]

  -- Once a refresh token has been answered with new tokens it renews nothing more: after any registrations,
  -- logins and refreshes whose new refresh tokens have other ids, presenting it again is refused with
  -- status 401 and changes nothing.
  pub refresh_once :
      (law : IsJwt jwt) (m m' : Moment) (token : String) (store : Store) (r : TokenResponse)
      (c : Claims) (calls : List (Moment × Call))
      → (refresh jwt s m token store).0 ≡ answer r
      → jwt.decode m.now token ≡ some c
      → (DrawOthers jwt s hash verify) c.jti ((m, refreshes token) ∷ calls)
      → let later = (perform_all jwt s hash verify) calls (refresh jwt s m token store).1 in
        (detail : String) × ((refresh jwt s m' token later).0 ≡ http 401 detail)
        × ((refresh jwt s m' token later).1 ≡ later)
  refresh_once law m m' token store r c calls h e fresh =
      refresh_refused law m m' token
        ((perform_all jwt s hash verify) calls (refresh jwt s m token store).1) c e
        ((perform_all-Spent jwt s hash verify) c.jti calls (refresh jwt s m token store).1 fresh.1
          (refresh_spends m token store r c h e fresh.0))
