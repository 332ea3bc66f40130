-- ===== src/Database/Identifiers.antt =====
-- `_quote_identifier`, `_validate` and the names of backend/app/services/project_database.py.
use Prim.Native.Char.{Char, code}
use Prim.Native.String
use text.Mathlib.TextLemmas.{cons-append, nil-append, append_assoc}
use text.Mathlib.TextEquality.{Char-path}
use conductor_data_platform.Prelude.{
  ◌≡◌, refl, ap, String, Bool, true, false, not, Option, none, some, arith, eqb, if◌then◌else◌,
  ◌==◌, Bool-cases, inl, inr,
}
use conductor_data_platform.Models.{ProjectDeployment}
use conductor_data_platform.Lifecycle.{Raised, value_error}
use conductor_data_platform.Lifecycle.Identity.{is_hex_text}

-- The deterministic name of a project's role and database.
abbrev pub database_identity : String → String
database_identity project_id = String.◌++◌ "conductor_airflow_" project_id

-- `none`: the deployment passes.
unfoldable pub validate : ProjectDeployment → Option Raised
validate d =
    if not (is_hex_text 32 d.project_id)
    then some (value_error "project_id must be exactly 32 lowercase hexadecimal characters")
    else if not (d.airflow_db_name == database_identity d.project_id)
    then some (value_error "airflow_db_name must equal the deterministic project database identity")
    else if not (d.airflow_db_role == database_identity d.project_id)
    then some (value_error "airflow_db_role must equal the deterministic project database identity")
    else none

abbrev pub ownership_comment : String → String
ownership_comment project_id = String.◌++◌ "conductor.project_id=" project_id

abbrev pub quote_mark : Char
quote_mark = "\""

abbrev pub is_mark : Char → Bool
is_mark c = eqb (code c) (code quote_mark)

-- `identifier.replace('"', '""')`
unfoldable pub double_quotes : String → String
double_quotes String.[] = String.[]
double_quotes (String.◌∷◌ c s) =
    let rest = double_quotes s in
    if is_mark c then String.◌∷◌ quote_mark (String.◌∷◌ quote_mark rest) else String.◌∷◌ c rest

unfoldable pub quote_identifier : String → String
unfolding double_quotes
quote_identifier s = String.◌∷◌ quote_mark (String.◌++◌ (double_quotes s) "\"")

abbrev cons_read : Char → Option (String × String) → Option (String × String)
cons_read c none = none
cons_read c (some (s, rest)) = some (String.◌∷◌ c s, rest)

-- What PostgreSQL reads after the opening mark of a quoted identifier: a doubled mark stands for one,
-- a single mark ends it. The flag is set behind a first mark. The result has the identifier and the
-- rest of the text.
unfoldable pub read_quoted : Bool → String → Option (String × String)
read_quoted false String.[] = none
read_quoted true String.[] = some (String.[], String.[])
read_quoted false (String.◌∷◌ c s) =
    let marked = read_quoted true s in
    let plain = cons_read c (read_quoted false s) in if is_mark c then marked else plain
read_quoted true (String.◌∷◌ c s) =
    let doubled = cons_read quote_mark (read_quoted false s) in
    if is_mark c then doubled else some (String.[], String.◌∷◌ c s)

unfoldable pub read_identifier : String → Option (String × String)
unfolding read_quoted
read_identifier String.[] = none
read_identifier (String.◌∷◌ c s) = if is_mark c then read_quoted false s else none

-- The rest of a statement does not go on with a quotation mark.
abbrev pub starts_apart : String → Bool
starts_apart String.[] = true
starts_apart (String.◌∷◌ c s) = not (is_mark c)

closing_mark :
    (rest : String)
    → starts_apart rest ≡ true
    → read_quoted false (String.◌∷◌ quote_mark rest) ≡ some (String.[], rest)
unfolding read_quoted
closing_mark String.[] h = refl
closing_mark (String.◌∷◌ c rest) h = ground arith

is_mark-eq : (c : Char) → is_mark c ≡ true → quote_mark ≡ c
is_mark-eq c h = Char-path quote_mark c (ground arith)

read_doubled :
    (s : String)
    → read_quoted false (String.◌∷◌ quote_mark (String.◌∷◌ quote_mark s))
      ≡ cons_read quote_mark (read_quoted false s)
unfolding read_quoted
read_doubled s = refl

read_plain :
    (c : Char) (s : String)
    → is_mark c ≡ false
    → read_quoted false (String.◌∷◌ c s) ≡ cons_read c (read_quoted false s)
unfolding read_quoted
read_plain c s h = ground arith

read_quoted-double_quotes :
    (s rest : String)
    → starts_apart rest ≡ true
    → read_quoted false (String.◌++◌ (double_quotes s) (String.◌∷◌ quote_mark rest))
      ≡ some (s, rest)
unfolding double_quotes
read_quoted-double_quotes String.[] rest h = rw nil-append (closing_mark rest h)
read_quoted-double_quotes (String.◌∷◌ c s) rest h = elim (Bool-cases (is_mark c)) [
  | inl mark ↦
      rw (mark, cons-append, cons-append, read_doubled, read_quoted-double_quotes s rest h)
        (ap (λ d. some (String.◌∷◌ d s, rest)) (is_mark-eq c mark))
  | inr plain ↦
      rw (plain, cons-append, read_plain c _ plain, read_quoted-double_quotes s rest h) refl
]

-- PostgreSQL reads a quoted name back as that name whatever characters it has, and goes on with what
-- stands behind it, if that does not begin with a quotation mark.
pub read_identifier-quote_identifier :
    (name rest : String)
    → starts_apart rest ≡ true
    → read_identifier (String.◌++◌ (quote_identifier name) rest) ≡ some (name, rest)
unfolding read_identifier quote_identifier
read_identifier-quote_identifier name rest h =
    rw (cons-append, append_assoc, cons-append, nil-append) (read_quoted-double_quotes name rest h)
