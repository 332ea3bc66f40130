-- ===== src/Operations/Fingerprint.antt =====
-- The canonical request texts of project_create_fingerprint, _provision_retry_fingerprint and
-- _delete_fingerprint: `json.dumps` of an object of texts, its keys sorted, its separators tight.
use Prim.Native.Nat.{◌/◌, ◌%◌}
use Prim.Native.Char.{Char, code}
use Prim.Native.String.{◌++◌}
use conductor_data_platform.Prelude.{
  ℕ, zero, suc, ◌+◌, ◌-◌, String, Bool, true, false, ◌&&◌, ◌||◌, Option, none, some, List, [], ◌∷◌,
  ltb, eqb, if◌then◌else◌,
}

abbrev hex_digits : List String
hex_digits =
    "0" ∷ "1" ∷ "2" ∷ "3" ∷ "4" ∷ "5" ∷ "6" ∷ "7" ∷ "8" ∷ "9" ∷ "a" ∷ "b" ∷ "c" ∷ "d" ∷ "e" ∷ "f"
    ∷ []

abbrev nth : ℕ → List String → String
nth n [] = ""
nth zero (x ∷ xs) = x
nth (suc n) (x ∷ xs) = nth n xs

abbrev hex_digit : ℕ → String
hex_digit n = nth n hex_digits

-- `\uXXXX`
abbrev unicode_escape : ℕ → String
unicode_escape n =
    "\\u"
    ++ (hex_digit (n / 4096 % 16)
        ++ (hex_digit (n / 256 % 16) ++ (hex_digit (n / 16 % 16) ++ hex_digit (n % 16))))

-- A code point above the basic plane is written as its two surrogates.
abbrev escape_code : ℕ → String
escape_code n =
    if ltb n 65536
    then unicode_escape n
    else unicode_escape (55296 + (n - 65536) / 1024) ++ unicode_escape (56320 + (n - 65536) % 1024)

-- The escapes of the json module, with `ensure_ascii` or without.
unfoldable pub escape_char : Bool → Char → String
escape_char ensure_ascii c =
    let n = code c in
    if eqb n 34
    then "\\\""
    else if eqb n 92
    then "\\\\"
    else if eqb n 10
    then "\\n"
    else if eqb n 13
    then "\\r"
    else if eqb n 9
    then "\\t"
    else if eqb n 12
    then "\\f"
    else if eqb n 8
    then "\\b"
    else if ltb n 32 || (ensure_ascii && ltb 126 n)
    then escape_code n
    else String.◌∷◌ c ""

unfoldable pub escape : Bool → String → String
unfolding escape_char
escape ensure_ascii String.[] = ""
escape ensure_ascii (String.◌∷◌ c s) = escape_char ensure_ascii c ++ escape ensure_ascii s

abbrev dump_text : Bool → Option String → String
dump_text ensure_ascii none = "null"
dump_text ensure_ascii (some s) = "\"" ++ (escape ensure_ascii s ++ "\"")

abbrev dump_field : Bool → String × Option String → String
dump_field ensure_ascii (key, value) = "\"" ++ (key ++ ("\":" ++ dump_text ensure_ascii value))

abbrev dump_fields : Bool → List (String × Option String) → String
dump_fields ensure_ascii [] = ""
dump_fields ensure_ascii (f ∷ []) = dump_field ensure_ascii f
dump_fields ensure_ascii (f ∷ fs) =
    dump_field ensure_ascii f ++ ("," ++ dump_fields ensure_ascii fs)

-- The fields come in the order of their keys.
unfoldable pub dumps : Bool → List (String × Option String) → String
dumps ensure_ascii fields = "{" ++ (dump_fields ensure_ascii fields ++ "}")

module _ (sha256 : String → String) where
  unfoldable pub project_create_fingerprint : String → String → Option String → String → String
  project_create_fingerprint name slug description requested_by_id = sha256 (
      dumps false (
        ("description", description)
        ∷ ("name", some name)
        ∷ ("requested_by_id", some requested_by_id)
        ∷ ("slug", some slug)
        ∷ []))

  unfoldable pub provision_retry_fingerprint : String → String → String → String
  provision_retry_fingerprint actor_id project_id failed_operation_id = sha256 (
      dumps true (
        ("actor_id", some actor_id)
        ∷ ("failed_operation_id", some failed_operation_id)
        ∷ ("operation", some "provision_retry")
        ∷ ("project_id", some project_id)
        ∷ []))

  unfoldable pub delete_fingerprint : String → String → String → String → String
  delete_fingerprint actor_id project_id slug confirmation_slug = sha256 (
      dumps true (
        ("actor_id", some actor_id)
        ∷ ("confirmation_slug", some confirmation_slug)
        ∷ ("operation", some "delete")
        ∷ ("project_id", some project_id)
        ∷ ("slug", some slug)
        ∷ []))
