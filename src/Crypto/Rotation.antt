-- ===== src/Crypto/Rotation.antt =====
-- Credentials through a change of the configured keys.
use conductor_data_platform.Prelude.{
  String, false, not, none, some, List, [], ◌∷◌, ◌≡◌, ◌≢◌, ◌∙◌, sym, String-discrete, refl, arith,
  In, inl, inr, is_empty, ◌⊎◌, keep_rows, In-keep_rows, keep_rows-In, ◌==◌,
}
use conductor_data_platform.Lifecycle.{other}
use conductor_data_platform.Outcome.{returned, raised}
use conductor_data_platform.Crypto.Keys.{
  Fernet, KeySettings, encrypt_token, try_keys, fromkeys, source_keys, decrypt_token,
}

-- What the code relies on: a token opens with the key that sealed it and with no other, and different
-- configured keys give different Fernet keys.
pub record IsAuthentic (fernet : Fernet) : Type 0 where
  pub opens :
      (key random plaintext : String)
      → fernet.unseal key (fernet.seal key random plaintext) ≡ some plaintext
  pub rejects :
      (key wrong random plaintext : String)
      → key ≢ wrong
      → fernet.unseal wrong (fernet.seal key random plaintext) ≡ none
  pub derives : (k k' : String) → fernet.derive k ≡ fernet.derive k' → k ≡ k'

-- A configured key
abbrev pub IsConfigured : KeySettings → String → Type 0
IsConfigured settings key =
    (settings.credentials_encryption_key ≡ key) ⊎ (settings.secret_key ≡ key)

module _ (fernet : Fernet) (law : IsAuthentic fernet) (key random plaintext : String) where
  abbrev token : String
  token = fernet.seal (fernet.derive key) random plaintext

  try_keys-hit :
      (k : String) (keys : List String)
      → k ≡ key
      → try_keys fernet (k ∷ keys) token ≡ returned plaintext
  unfolding try_keys
  try_keys-hit k keys same =
      let opened : fernet.unseal (fernet.derive k) token ≡ some plaintext =
        rw same (law.opens (fernet.derive key) random plaintext) in
      ground arith

  try_keys-miss :
      (k : String) (keys : List String)
      → k ≢ key
      → try_keys fernet (k ∷ keys) token ≡ try_keys fernet keys token
  unfolding try_keys
  try_keys-miss k keys differ =
      let closed : fernet.unseal (fernet.derive k) token ≡ none =
        law.rejects (fernet.derive key) (fernet.derive k) random plaintext
          (λ e. differ (sym (law.derives key k e))) in
      ground arith

  try_keys-In : (keys : List String) → In key keys → try_keys fernet keys token ≡ returned plaintext
  try_keys-In [] i = absurd i
  try_keys-In (k ∷ keys) i = elim (String-discrete k key) [
    | yes same ↦ try_keys-hit k keys same
    | no differ ↦
        try_keys-miss k keys differ
        ∙ try_keys-In keys (elim i [ inl same ↦ absurd (differ same) | inr later ↦ later ])
  ]

  try_keys_missing :
      (keys : List String)
      → ¬ In key keys
      → try_keys fernet keys token
        ≡ raised (other "Credential cannot be decrypted with the configured keys")
  unfolding try_keys
  try_keys_missing [] absent = refl
  try_keys_missing (k ∷ keys) absent =
      try_keys-miss k keys (λ same. absent (inl same)) ∙ try_keys_missing keys (λ i. absent (inr i))

fromkeys-In : (keys : List String) (k : String) → In k keys → In k (fromkeys keys)
unfolding fromkeys
fromkeys-In [] k i = absurd i
fromkeys-In (j ∷ keys) k i = elim (String-discrete j k) [
  | yes same ↦ inl same
  | no differ ↦
      let later =
        fromkeys-In keys k (elim i [ inl same ↦ absurd (differ same) | inr later ↦ later ]) in
      inr (In-keep_rows (λ i. not (i == j)) (fromkeys keys) k later (ground arith))
]

In-fromkeys : (keys : List String) (k : String) → In k (fromkeys keys) → In k keys
unfolding fromkeys
In-fromkeys [] k i = absurd i
In-fromkeys (j ∷ keys) k (inl same) = inl same
In-fromkeys (j ∷ keys) k (inr later) =
    inr (In-fromkeys keys k (keep_rows-In (λ i. not (i == j)) (fromkeys keys) k later).0)

module _ (settings : KeySettings) (key : String) where
  abbrev both : List String
  both = settings.credentials_encryption_key ∷ settings.secret_key ∷ []

  source_keys-In : IsConfigured settings key → is_empty key ≡ false → In key (source_keys settings)
  unfolding source_keys
  source_keys-In configured full =
      let given : In key both = elim configured [ inl e ↦ inl e | inr e ↦ inr (inl e) ] in
      fromkeys-In (keep_rows (λ k. not (is_empty k)) both) key
        (In-keep_rows (λ k. not (is_empty k)) both key given (rw full refl))

  In-source_keys : In key (source_keys settings) → IsConfigured settings key
  unfolding source_keys
  In-source_keys i =
      let given = In-fromkeys (keep_rows (λ k. not (is_empty k)) both) key i in
      elim (keep_rows-In (λ k. not (is_empty k)) both key given).0 [
        | inl e ↦ inl e
        | inr rest ↦ elim rest [ inl e ↦ inr e | inr none_left ↦ absurd none_left ]
      ]

-- A credential that was encrypted under earlier settings is read back under later ones exactly as it was
-- if its key is still configured, as the credentials key or as the secret key, whatever the other key is;
-- if its key is configured no more, the later settings raise InvalidToken.
pub decrypt_token-encrypt_token :
    (fernet : Fernet) (law : IsAuthentic fernet) (earlier later : KeySettings)
    (random plaintext token : String)
    → encrypt_token fernet earlier random plaintext ≡ returned token
    → (IsConfigured later earlier.credentials_encryption_key
        → decrypt_token fernet later token ≡ returned plaintext)
      × (¬ IsConfigured later earlier.credentials_encryption_key
          → decrypt_token fernet later token
            ≡ raised (other "Credential cannot be decrypted with the configured keys"))
unfolding encrypt_token decrypt_token
decrypt_token-encrypt_token fernet law earlier later random plaintext token h =
    let key = earlier.credentials_encryption_key in
    let full : is_empty key ≡ false = ground arith in
    let sealed : fernet.seal (fernet.derive key) random plaintext ≡ token = ground arith in
    (
      λ configured. rw (← sealed) (
          try_keys-In fernet law key random plaintext (source_keys later)
            (source_keys-In later key configured full)),
      λ gone. rw (← sealed) (
          try_keys_missing fernet law key random plaintext (source_keys later)
            (λ i. gone (In-source_keys later key i))),
    )
