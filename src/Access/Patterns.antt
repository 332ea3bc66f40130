-- ===== src/Access/Patterns.antt =====
-- Resource patterns and actions of backend/app/auth/permissions.py.
--
-- The regular expression that `_match_resource` builds has three parts only: escaped literal
-- characters, `[^.]+` for each `*` of the pattern, and the end, `$`, which also matches before one
-- line feed at the end of the text. They are matched here directly, with the backtracking of `+`.
use Prim.Native.String.{String}
use conductor_data_platform.Prelude.{
  ℕ, Bool, true, false, not, ◌&&◌, ◌||◌, List, [], ◌∷◌, eqb, if◌then◌else◌, ◌==◌, codes,
}

abbrev pub star : ℕ
star = b'*'

abbrev pub dot : ℕ
dot = b'.'

-- `$` with re.match
abbrev pub at_end : List ℕ → Bool
at_end [] = true
at_end (c ∷ []) = eqb c 10
at_end (c ∷ d ∷ s) = false

-- `[^.]+` and then `rest`
unfoldable pub some_then : (List ℕ → Bool) → List ℕ → Bool
some_then rest [] = false
some_then rest (c ∷ s) = not (eqb c dot) && (rest s || some_then rest s)

-- one literal character and then `rest`
abbrev pub literal_then : ℕ → (List ℕ → Bool) → List ℕ → Bool
literal_then c rest [] = false
literal_then c rest (d ∷ s) = eqb c d && rest s

unfoldable pub match_pattern : List ℕ → List ℕ → Bool
unfolding some_then
match_pattern [] s = at_end s
match_pattern (c ∷ p) s =
    if eqb c star then some_then (match_pattern p) s else literal_then c (match_pattern p) s

unfoldable pub match_resource : String → String → Bool
match_resource pattern resource =
    if pattern == "*" then true else match_pattern (codes pattern) (codes resource)

unfoldable pub match_action : String → String → Bool
match_action perm_action required_action =
    if perm_action == "admin" then true else perm_action == required_action
