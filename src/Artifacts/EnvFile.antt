-- ===== src/Artifacts/EnvFile.antt =====
-- `_serialize_env` and `_escape_compose_env_literal` of backend/app/services/runtime_artifacts.py, and a
-- decoder of such files, which serves the proofs. It stands for no code: how Docker Compose reads the file
-- is not said here.
use Prim.Native.Char.{Char, code}
use Prim.Native.String
use conductor_data_platform.Prelude.{
  ℕ, zero, suc, String, Bool, true, false, Option, none, some, List, [], ◌∷◌, eqb, if◌then◌else◌,
}

abbrev pub is_char : Char → Char → Bool
is_char c d = eqb (code d) (code c)

-- `value.replace(c, text)` for one character
unfoldable pub replace : Char → String → String → String
replace c text String.[] = String.[]
replace c text (String.◌∷◌ d s) =
    let rest = replace c text s in if is_char c d then String.◌++◌ text rest else String.◌∷◌ d rest

abbrev pub backslash : Char
backslash = "\\"

abbrev pub apostrophe : Char
apostrophe = "'"

unfoldable pub escape_compose_env_literal : String → String
unfolding replace
escape_compose_env_literal value = replace apostrophe "\\'" (replace backslash "\\\\" value)

unfoldable pub env_line : String → String → String
unfolding escape_compose_env_literal
env_line name value =
    String.◌++◌ name (String.◌++◌ "='" (String.◌++◌ (escape_compose_env_literal value) "'\n"))

unfoldable pub serialize_env : List (String × String) → String
unfolding env_line
serialize_env [] = String.[]
serialize_env ((name, value) ∷ values) = String.◌++◌ (env_line name value) (serialize_env values)

abbrev pub put_first : Char → Option (String × String) → Option (String × String)
put_first c none = none
put_first c (some (s, rest)) = some (String.◌∷◌ c s, rest)

-- A name, up to the sign of equality.
unfoldable pub read_name : String → Option (String × String)
read_name String.[] = none
read_name (String.◌∷◌ c s) =
    let longer = put_first c (read_name s) in if is_char "=" c then some (String.[], s) else longer

-- A literal behind its opening apostrophe: a backslash takes the next character as it is, an apostrophe
-- ends the literal. The flag is set behind a backslash.
unfoldable pub read_literal : Bool → String → Option (String × String)
read_literal escaped String.[] = none
read_literal true (String.◌∷◌ c s) = put_first c (read_literal false s)
read_literal false (String.◌∷◌ c s) =
    let plain = put_first c (read_literal false s) in
    let behind = read_literal true s in
    if is_char backslash c
    then behind
    else if is_char apostrophe c
    then some (String.[], s)
    else plain

abbrev expect : Char → String → Option String
expect c String.[] = none
expect c (String.◌∷◌ d s) = if is_char c d then some s else none

infixl 5 ◌>>=◌
abbrev ◌>>=◌ : {A B : Type 0} → Option A → (A → Option B) → Option B
none >>= f = none
some a >>= f = f a

-- One line `NAME='literal'`, and what stands behind it.
unfoldable pub read_line : String → Option ((String × String) × String)
unfolding read_name read_literal
read_line text = do
  (name, after_name) ← read_name text
  opened ← expect apostrophe after_name
  (value, after_value) ← read_literal false opened
  rest ← expect "\n" after_value
  some ((name, value), rest)

unfoldable pub read_env : ℕ → String → Option (List (String × String))
unfolding read_line
read_env fuel String.[] = some []
read_env zero (String.◌∷◌ c s) = none
read_env (suc fuel) (String.◌∷◌ c s) = do
  (entry, rest) ← read_line (String.◌∷◌ c s)
  entries ← read_env fuel rest
  some (entry ∷ entries)
