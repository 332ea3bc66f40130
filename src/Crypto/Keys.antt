-- ===== src/Crypto/Keys.antt =====
-- `encrypt_token` and `decrypt_token` of backend/app/services/crypto.py.
use Prim.Native.String.{count}
use conductor_data_platform.Prelude.{
  String, not, ◌||◌, Option, none, some, List, [], ◌∷◌, ltb, if◌then◌else◌, ◌==◌, is_empty,
  keep_rows,
}
use conductor_data_platform.Lifecycle.{runtime_error, other}
use conductor_data_platform.Outcome.{Outcome, returned, raised}

pub record Fernet : Type 0 where
  pub derive : String → String
  -- with the random part of a token
  pub seal : String → String → String → String
  -- `none` is InvalidToken.
  pub unseal : String → String → Option String

-- A key that is not configured is the empty text.
pub record KeySettings : Type 0 where
  pub credentials_encryption_key : String
  pub secret_key : String

module _ (fernet : Fernet) where
  unfoldable pub encrypt_token : KeySettings → String → String → Outcome String
  encrypt_token settings random plaintext =
      let source_key = settings.credentials_encryption_key in
      if is_empty source_key || ltb (count source_key) 32
      then raised
          (runtime_error "CONDUCTOR_CREDENTIALS_ENCRYPTION_KEY must contain at least 32 characters")
      else returned (fernet.seal (fernet.derive source_key) random plaintext)

  unfoldable pub try_keys : List String → String → Outcome String
  try_keys [] encrypted = raised (other "Credential cannot be decrypted with the configured keys")
  try_keys (source_key ∷ source_keys) encrypted =
      let next = try_keys source_keys encrypted in
      elim (fernet.unseal (fernet.derive source_key) encrypted) [
        | some plaintext ↦ returned plaintext
        | none ↦ next
      ]

-- `dict.fromkeys`: each key once, where it comes first
unfoldable pub fromkeys : List String → List String
fromkeys [] = []
fromkeys (k ∷ ks) = k ∷ keep_rows (λ j. not (j == k)) (fromkeys ks)

unfoldable pub source_keys : KeySettings → List String
unfolding fromkeys
source_keys settings = fromkeys (
    keep_rows (λ k. not (is_empty k))
      (settings.credentials_encryption_key ∷ settings.secret_key ∷ []))

unfoldable pub decrypt_token : Fernet → KeySettings → String → Outcome String
unfolding try_keys source_keys
decrypt_token fernet settings encrypted = try_keys fernet (source_keys settings) encrypted
