-- ===== src/Crypto/Tests.antt =====
-- A toy cipher that puts the quoted key before the text, and rotations of the keys.
use Prim.Native.String
use conductor_data_platform.Prelude.{
  String, String-discrete, Option, none, some, ◌≡◌, refl, ap, arith, if◌then◌else◌, ◌==◌, ◌∙◌,
  ==-refl,
}
use conductor_data_platform.Lifecycle.{other, runtime_error}
use conductor_data_platform.Outcome.{returned, raised}
use conductor_data_platform.Database.Identifiers.{
  quote_identifier, read_identifier, read_identifier-quote_identifier,
}
use conductor_data_platform.Crypto.Keys.{Fernet, KeySettings, encrypt_token, decrypt_token}
use conductor_data_platform.Crypto.Rotation.{IsAuthentic, IsConfigured, decrypt_token-encrypt_token}

abbrev behind : String → Option String
behind String.[] = none
behind (String.◌∷◌ c s) = some s

abbrev opened : String → Option (String × String) → Option String
opened key none = none
opened key (some (k, rest)) = if k == key then behind rest else none

toy_seal : String → String → String → String
toy_seal key random plaintext = String.◌++◌ (quote_identifier key) (String.◌∷◌ "." plaintext)

toy_unseal : String → String → Option String
toy_unseal key token = opened key (read_identifier token)

abbrev toy : Fernet
toy = record { derive = λ key. key; seal = toy_seal; unseal = toy_unseal }

toy_unseal-toy_seal :
    (key wrong random plaintext : String)
    → toy_unseal wrong (toy_seal key random plaintext)
      ≡ (if key == wrong then some plaintext else none)
unfolding toy_unseal toy_seal
toy_unseal-toy_seal key wrong random plaintext =
    ap (opened wrong) (read_identifier-quote_identifier key (String.◌∷◌ "." plaintext) refl)

toy-IsAuthentic : IsAuthentic toy
toy-IsAuthentic = record {
  opens = λ key random plaintext. toy_unseal-toy_seal key key random plaintext ∙ rw ==-refl refl;
  rejects = λ key wrong random plaintext differ.
      toy_unseal-toy_seal key wrong random plaintext ∙ ground arith;
  derives = λ k k' e. e;
}

abbrev earlier : KeySettings
earlier = record {
  credentials_encryption_key = "0123456789abcdef0123456789abcdef";
  secret_key = "secret";
}

-- A new credentials key, with the old one kept as the secret key
abbrev rotated : KeySettings
rotated = record {
  credentials_encryption_key = "fedcba9876543210fedcba9876543210";
  secret_key = "0123456789abcdef0123456789abcdef";
}

abbrev sealed : String
sealed = "\"0123456789abcdef0123456789abcdef\".pw"

sealed_lem : encrypt_token toy earlier "r" "pw" ≡ returned sealed
unfolding encrypt_token toy_seal quote_identifier
sealed_lem = refl

short_key :
    encrypt_token toy (record earlier { credentials_encryption_key = "short" }) "r" "pw"
    ≡ raised
        (runtime_error "CONDUCTOR_CREDENTIALS_ENCRYPTION_KEY must contain at least 32 characters")
unfolding encrypt_token
short_key = refl

read_back : decrypt_token toy rotated sealed ≡ returned "pw"
unfolding decrypt_token toy_unseal read_identifier String-discrete
read_back = refl

decrypt_token-encrypt_token_example :
    (IsConfigured rotated earlier.credentials_encryption_key
      → decrypt_token toy rotated sealed ≡ returned "pw")
    × (¬ IsConfigured rotated earlier.credentials_encryption_key
        → decrypt_token toy rotated sealed
          ≡ raised (other "Credential cannot be decrypted with the configured keys"))
decrypt_token-encrypt_token_example =
    decrypt_token-encrypt_token toy toy-IsAuthentic earlier rotated "r" "pw" sealed sealed_lem
