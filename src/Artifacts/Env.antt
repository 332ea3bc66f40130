-- ===== src/Artifacts/Env.antt =====
-- The environment file of a generation determines the variables that it was written from.
use Prim.Native.Char.{Char}
use Prim.Native.String
use text.Mathlib.TextLemmas.{cons-append, nil-append, append_assoc}
use text.Mathlib.TextEquality.{Char-path}
use conductor_data_platform.Prelude.{
  ◌≢◌, ◌∙◌, ◌+◌, ℕ, zero, suc, ◌≤◌, ◌≡◌, refl, ap, String, Bool, true, false, not, ◌&&◌, some, List,
  [], ◌∷◌, arith, Bool-cases, inl, inr, length, All, sym,
}
use conductor_data_platform.Artifacts.EnvFile.{
  is_char, replace, backslash, apostrophe, escape_compose_env_literal, env_line, serialize_env,
  put_first, read_name, read_literal, read_line, read_env,
}

is_char-eq : (c d : Char) → is_char c d ≡ true → d ≡ c
is_char-eq c d h = Char-path d c (ground arith)

replace-hit :
    (c d : Char) (text s : String)
    → is_char c d ≡ true
    → replace c text (String.◌∷◌ d s) ≡ String.◌++◌ text (replace c text s)
unfolding replace
replace-hit c d text s h = rw h refl

replace-miss :
    (c d : Char) (text s : String)
    → is_char c d ≡ false
    → replace c text (String.◌∷◌ d s) ≡ String.◌∷◌ d (replace c text s)
unfolding replace
replace-miss c d text s h = rw h refl

escape-backslash :
    (c : Char) (s : String)
    → is_char backslash c ≡ true
    → escape_compose_env_literal (String.◌∷◌ c s)
      ≡ String.◌∷◌ backslash (String.◌∷◌ backslash (escape_compose_env_literal s))
unfolding escape_compose_env_literal
escape-backslash c s h =
    rw
      (
        replace-hit backslash c "\\\\" s h,
        cons-append,
        cons-append,
        nil-append,
        replace-miss apostrophe backslash "\\'" _ refl,
        replace-miss apostrophe backslash "\\'" _ refl,
      )
      refl

escape-apostrophe :
    (c : Char) (s : String)
    → is_char apostrophe c ≡ true
    → escape_compose_env_literal (String.◌∷◌ c s)
      ≡ String.◌∷◌ backslash (String.◌∷◌ apostrophe (escape_compose_env_literal s))
unfolding escape_compose_env_literal
escape-apostrophe c s h =
    rw
      (
        replace-miss backslash c "\\\\" s (ground arith),
        replace-hit apostrophe c "\\'" _ h,
        cons-append,
        cons-append,
        nil-append,
      )
      refl

escape-plain :
    (c : Char) (s : String)
    → is_char backslash c ≡ false
    → is_char apostrophe c ≡ false
    → escape_compose_env_literal (String.◌∷◌ c s) ≡ String.◌∷◌ c (escape_compose_env_literal s)
unfolding escape_compose_env_literal
escape-plain c s h k =
    rw (replace-miss backslash c "\\\\" s h, replace-miss apostrophe c "\\'" _ k) refl

read_literal-backslash :
    (c : Char) (s : String)
    → read_literal false (String.◌∷◌ backslash (String.◌∷◌ c s))
      ≡ put_first c (read_literal false s)
unfolding read_literal
read_literal-backslash c s = refl

read_literal-plain :
    (c : Char) (s : String)
    → is_char backslash c ≡ false
    → is_char apostrophe c ≡ false
    → read_literal false (String.◌∷◌ c s) ≡ put_first c (read_literal false s)
unfolding read_literal
read_literal-plain c s h k = rw (h, k) refl

escape-nil : escape_compose_env_literal String.[] ≡ String.[]
unfolding escape_compose_env_literal
escape-nil = refl

read_literal-end :
    (rest : String) → read_literal false (String.◌∷◌ apostrophe rest) ≡ some (String.[], rest)
unfolding read_literal
read_literal-end rest = refl

read_literal-escape :
    (s rest : String)
    → read_literal false (String.◌++◌ (escape_compose_env_literal s) (String.◌∷◌ apostrophe rest))
      ≡ some (s, rest)
read_literal-escape String.[] rest = rw (escape-nil, nil-append) (read_literal-end rest)
read_literal-escape (String.◌∷◌ c s) rest = elim (Bool-cases (is_char backslash c)) [
  | inl slash ↦
      rw
        (
          escape-backslash c s slash,
          cons-append,
          cons-append,
          read_literal-backslash,
          read_literal-escape s rest,
        )
        (ap (λ d. some (String.◌∷◌ d s, rest)) (sym (is_char-eq backslash c slash)))
  | inr other ↦ elim (Bool-cases (is_char apostrophe c)) [
    | inl mark ↦
        rw
          (
            escape-apostrophe c s mark,
            cons-append,
            cons-append,
            read_literal-backslash,
            read_literal-escape s rest,
          )
          (ap (λ d. some (String.◌∷◌ d s, rest)) (sym (is_char-eq apostrophe c mark)))
    | inr plain ↦
        rw
          (
            escape-plain c s other plain,
            cons-append,
            read_literal-plain c _ other plain,
            read_literal-escape s rest,
          )
          refl
  ]
]

-- Up to the sign of equality, a name has none.
abbrev pub lacks_equals : String → Bool
lacks_equals String.[] = true
lacks_equals (String.◌∷◌ c s) = not (is_char "=" c) && lacks_equals s

read_name-step :
    (c : Char) (s : String)
    → is_char "=" c ≡ false
    → read_name (String.◌∷◌ c s) ≡ put_first c (read_name s)
unfolding read_name
read_name-step c s h = rw h refl

read_name-append :
    (name rest : String)
    → lacks_equals name ≡ true
    → read_name (String.◌++◌ name (String.◌∷◌ "=" rest)) ≡ some (name, rest)
unfolding read_name
read_name-append String.[] rest h = rw nil-append refl
read_name-append (String.◌∷◌ c s) rest h =
    rw (cons-append, read_name-step c _ (ground arith), read_name-append s rest (ground arith)) refl

env_line-append :
    (name value rest : String)
    → String.◌++◌ (env_line name value) rest
      ≡ String.◌++◌ name (
          String.◌∷◌ "=" (
            String.◌∷◌ apostrophe (
              String.◌++◌
                (escape_compose_env_literal value)
                (String.◌∷◌ apostrophe (String.◌∷◌ "\n" rest)))))
unfolding env_line
env_line-append name value rest =
    rw
      (
        append_assoc name,
        append_assoc "='" (String.◌++◌ (escape_compose_env_literal value) "'\n") rest,
        append_assoc (escape_compose_env_literal value) "'\n" rest,
        cons-append "=" "'",
        cons-append "'" "",
        nil-append,
        cons-append "'" "\n" rest,
        cons-append "\n" "" rest,
        nil-append,
      )
      refl

read_line_lem :
    (text name opened value rest : String)
    → read_name text ≡ some (name, String.◌∷◌ apostrophe opened)
    → read_literal false opened ≡ some (value, String.◌∷◌ "\n" rest)
    → read_line text ≡ some ((name, value), rest)
unfolding read_line
read_line_lem text name opened value rest h k = ground arith

read_line-env_line :
    (name value rest : String)
    → lacks_equals name ≡ true
    → read_line (String.◌++◌ (env_line name value) rest) ≡ some ((name, value), rest)
read_line-env_line name value rest h = rw (env_line-append name value rest) (
    read_line_lem _ name _ value rest (read_name-append name _ h)
      (read_literal-escape value (String.◌∷◌ "\n" rest)))

read_env-step :
    (fuel : ℕ) (text rest : String) (entry : String × String) (entries : List (String × String))
    → read_line text ≡ some (entry, rest)
    → read_env fuel rest ≡ some entries
    → read_env (suc fuel) text ≡ some (entry ∷ entries)
unfolding read_env read_line read_name
read_env-step fuel String.[] rest entry entries h k = absurd (cc)
read_env-step fuel (String.◌∷◌ c s) rest entry entries h k = rw h (rw k refl)

abbrev pub NamesLackEquals : List (String × String) → Type 0
NamesLackEquals = All (λ (entry : String × String). lacks_equals entry.0 ≡ true)

some_injective : {A : Type 0} {a b : A} → some a ≡ some b → a ≡ b
some_injective e = cc

-- The decoder undoes the serialization; one round of fuel for each line is enough.
read_env-serialize_env :
    (values : List (String × String)) (fuel : ℕ)
    → length values ≤ fuel
    → NamesLackEquals values
    → read_env fuel (serialize_env values) ≡ some values
unfolding serialize_env read_env
read_env-serialize_env [] zero le h = refl
read_env-serialize_env [] (suc fuel) le h = refl
read_env-serialize_env (entry ∷ values) zero le h = absurd (omega arith)
read_env-serialize_env ((name, value) ∷ values) (suc fuel) le h =
    read_env-step fuel (String.◌++◌ (env_line name value) (serialize_env values))
      (serialize_env values) (name, value) values
      (read_line-env_line name value (serialize_env values) h.0)
      (read_env-serialize_env values fuel (omega arith) h.1)

-- Different environments have different files, whatever characters the values have, apostrophes, backslashes
-- and line breaks included, if no name has a sign of equality: so no choice of values makes the file that
-- of other values or of further variables.
pub serialize_env_injective :
    (values others : List (String × String))
    → NamesLackEquals values
    → NamesLackEquals others
    → values ≢ others
    → serialize_env values ≢ serialize_env others
serialize_env_injective values others h k differ same =
    let fuel = length values + length others in
    let first = read_env-serialize_env values fuel (omega arith) h in
    let second = read_env-serialize_env others fuel (omega arith) k in
    differ (some_injective (sym first ∙ ap (read_env fuel) same ∙ second))
