-- ===== src/Sessions/Spelled.antt =====
-- Tokens that spell out their claims, which meet what the code relies on.
use Prim.Native.Char.{code}
use Prim.Native.String
use conductor_data_platform.Prelude.{
  ℕ, zero, suc, String, Bool, true, false, Option, none, some, ◌≡◌, refl, ap, arith, eqb, ltb,
  if◌then◌else◌,
}
use conductor_data_platform.Database.Identifiers.{
  quote_identifier, read_identifier, read_identifier-quote_identifier,
}
use conductor_data_platform.Sessions.Tokens.{Claims, Jwt, IsJwt}

field : String → String → String
field s rest = String.◌++◌ (quote_identifier s) (String.◌∷◌ "." rest)

abbrev behind_dot : Option (String × String) → Option (String × String)
behind_dot none = none
behind_dot (some (s, String.[])) = none
behind_dot (some (s, String.◌∷◌ c rest)) = some (s, rest)

take_field : String → Option (String × String)
take_field text = behind_dot (read_identifier text)

take_field-field : (s rest : String) → take_field (field s rest) ≡ some (s, rest)
unfolding take_field field
take_field-field s rest =
    ap behind_dot (read_identifier-quote_identifier s (String.◌∷◌ "." rest) refl)

stars : ℕ → String
stars zero = String.[]
stars (suc n) = String.◌∷◌ "*" (stars n)

count_stars : String → ℕ
count_stars String.[] = 0
count_stars (String.◌∷◌ c s) = suc (count_stars s)

count_stars-stars : (n : ℕ) → count_stars (stars n) ≡ n
unfolding count_stars stars
count_stars-stars zero = refl
count_stars-stars (suc n) = ap suc (count_stars-stars n)

abbrev spell_email : Option String → String → String
spell_email none rest = String.◌∷◌ "n" rest
spell_email (some e) rest = String.◌∷◌ "s" (field e rest)

read_email : String → Option (Option String × String)
read_email String.[] = none
read_email (String.◌∷◌ c rest) =
    if eqb (code c) b'n'
    then some (none, rest)
    else (elim (take_field rest) [ none ↦ none | some r ↦ some (some r.0, r.1) ])

read_email-spell_email :
    (o : Option String) (rest : String) → read_email (spell_email o rest) ≡ some (o, rest)
unfolding read_email
read_email-spell_email none rest = refl
read_email-spell_email (some e) rest = ground (arith, take_field-field e rest)

abbrev spell_admin : Option Bool → String → String
spell_admin none rest = String.◌∷◌ "n" rest
spell_admin (some true) rest = String.◌∷◌ "t" rest
spell_admin (some false) rest = String.◌∷◌ "f" rest

read_admin : String → Option (Option Bool × String)
read_admin String.[] = none
read_admin (String.◌∷◌ c rest) =
    if eqb (code c) b'n' then some (none, rest) else some (some (eqb (code c) b't'), rest)

read_admin-spell_admin :
    (o : Option Bool) (rest : String) → read_admin (spell_admin o rest) ≡ some (o, rest)
unfolding read_admin
read_admin-spell_admin none rest = refl
read_admin-spell_admin (some true) rest = refl
read_admin-spell_admin (some false) rest = refl

pub spell : Claims → String
spell c =
    field c.jti (
      field c.sub (field c.token_type (spell_email c.email (spell_admin c.is_admin (stars c.exp)))))

infixl 5 ◌>>=◌
abbrev ◌>>=◌ : {A B : Type 0} → Option A → (A → Option B) → Option B
none >>= f = none
some a >>= f = f a

pub read_claims : String → Option Claims
read_claims text = do
  (jti, a) ← take_field text
  (sub, b) ← take_field a
  (token_type, c) ← take_field b
  (email, d) ← read_email c
  (is_admin, e) ← read_admin d
  some (record {
    jti = jti;
    sub = sub;
    email = email;
    is_admin = is_admin;
    exp = count_stars e;
    token_type = token_type;
  })

pub read_claims-spell : (c : Claims) → read_claims (spell c) ≡ some c
unfolding read_claims spell
read_claims-spell c = ground (
  arith,
  take_field-field c.jti (
      field c.sub
        (field c.token_type (spell_email c.email (spell_admin c.is_admin (stars c.exp))))),
  take_field-field c.sub
      (field c.token_type (spell_email c.email (spell_admin c.is_admin (stars c.exp)))),
  take_field-field c.token_type (spell_email c.email (spell_admin c.is_admin (stars c.exp))),
  read_email-spell_email c.email (spell_admin c.is_admin (stars c.exp)),
  read_admin-spell_admin c.is_admin (stars c.exp),
  count_stars-stars c.exp,
)

abbrev pub alive : ℕ → Option Claims → Option Claims
alive now none = none
alive now (some c) = if ltb c.exp now then none else some c

unfoldable pub plain_decode : ℕ → String → Option Claims
plain_decode now token = alive now (read_claims token)

abbrev pub plain : Jwt
plain = record { encode = spell; decode = plain_decode }

alive-same : (now : ℕ) (o : Option Claims) (c : Claims) → alive now o ≡ some c → o ≡ some c
alive-same now none c h = absurd (cc)
alive-same now (some d) c h = ground arith

pub plain-IsJwt : IsJwt plain
unfolding plain_decode
plain-IsJwt = record {
  reads = λ now c. ap (alive now) (read_claims-spell c);
  constant = λ now later token c c' h k.
      let first = alive-same now (read_claims token) c h in
      let second = alive-same later (read_claims token) c' k in cc;
}
