-- ===== src/Artifacts/Quote.antt =====
-- `quote(value, safe="")` of urllib.parse and `str(n)` of a number, as
-- backend/app/services/runtime_artifacts.py uses them.
use Prim.Native.Char.{Char, code}
use Prim.Native.Nat.{◌/◌, ◌%◌}
use conductor_data_platform.Prelude.{
  ℕ, zero, suc, ◌+◌, String, Bool, true, ◌||◌, List, [], ◌∷◌, ltb, eqb, if◌then◌else◌, any_row, ◌≡◌,
  refl, arith, Bool-cases, inl, inr, All,
}
use conductor_data_platform.Artifacts.Spec.{is_alnum, all_chars}

abbrev digits : List Char
digits =
    "0" ∷ "1" ∷ "2" ∷ "3" ∷ "4" ∷ "5" ∷ "6" ∷ "7" ∷ "8" ∷ "9" ∷ "A" ∷ "B" ∷ "C" ∷ "D" ∷ "E" ∷ "F"
    ∷ []

abbrev nth_char : List Char → ℕ → Char
nth_char [] n = "0"
nth_char (c ∷ cs) zero = c
nth_char (c ∷ cs) (suc n) = nth_char cs n

unfoldable pub digit : ℕ → Char
digit n = nth_char digits n

-- The UTF-8 bytes of a code point
unfoldable pub utf8 : ℕ → List ℕ
utf8 n =
    if ltb n 128
    then n ∷ []
    else if ltb n 2048
    then (192 + n / 64) ∷ (128 + n % 64) ∷ []
    else if ltb n 65536
    then (224 + n / 4096) ∷ (128 + n / 64 % 64) ∷ (128 + n % 64) ∷ []
    else (240 + n / 262144) ∷ (128 + n / 4096 % 64) ∷ (128 + n / 64 % 64) ∷ (128 + n % 64) ∷ []

unfoldable pub percent : List ℕ → String → String
unfolding digit
percent [] rest = rest
percent (b ∷ bs) rest =
    String.◌∷◌ "%" (String.◌∷◌ (digit (b / 16)) (String.◌∷◌ (digit (b % 16)) (percent bs rest)))

abbrev pub is_unreserved : Char → Bool
is_unreserved c = is_alnum c || any_row (λ n. eqb n (code c)) (b'_' ∷ b'.' ∷ b'-' ∷ b'~' ∷ [])

unfoldable pub quote : String → String
unfolding percent utf8
quote String.[] = String.[]
quote (String.◌∷◌ c s) =
    let rest = quote s in
    if is_unreserved c then String.◌∷◌ c rest else percent (utf8 (code c)) rest

-- The decimal digits of a number before a text, without leading zeros, on fuel
unfoldable pub show : ℕ → ℕ → String → String
unfolding digit
show zero n rest = rest
show (suc fuel) n rest =
    let more = show fuel (n / 10) (String.◌∷◌ (digit (n % 10)) rest) in
    if ltb n 10 then String.◌∷◌ (digit n) rest else more

-- `str(n)`: each round divides by ten, so one round more than `n` is enough.
unfoldable pub decimal : ℕ → String
unfolding show
decimal n = show (suc n) n String.[]

abbrev pub is_url_safe : Char → Bool
is_url_safe c = is_unreserved c || eqb (code c) b'%'

digit-is_url_safe : (n : ℕ) → is_url_safe (digit n) ≡ true
unfolding digit
digit-is_url_safe n = go digits n (ground arith)
  where
    go :
        (cs : List Char) (n : ℕ)
        → All (λ c. is_url_safe c ≡ true) cs
        → is_url_safe (nth_char cs n) ≡ true
    go [] n h = refl
    go (c ∷ cs) zero h = h.0
    go (c ∷ cs) (suc n) h = go cs n h.1

percent-is_url_safe :
    (bs : List ℕ) (rest : String)
    → all_chars is_url_safe rest ≡ true
    → all_chars is_url_safe (percent bs rest) ≡ true
unfolding all_chars percent
percent-is_url_safe [] rest h = h
percent-is_url_safe (b ∷ bs) rest h =
    rw (digit-is_url_safe (b / 16))
      (rw (digit-is_url_safe (b % 16)) (percent-is_url_safe bs rest h))

-- A quoted text can stand anywhere in a URL: it has letters, digits, `_.-~` and percent signs only.
pub quote-is_url_safe : (s : String) → all_chars is_url_safe (quote s) ≡ true
unfolding all_chars quote
quote-is_url_safe String.[] = refl
quote-is_url_safe (String.◌∷◌ c s) = elim (Bool-cases (is_unreserved c)) [
  | inl plain ↦ rw plain (rw plain (quote-is_url_safe s))
  | inr other ↦ rw other (percent-is_url_safe (utf8 (code c)) (quote s) (quote-is_url_safe s))
]
