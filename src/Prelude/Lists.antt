-- ===== src/Prelude/Lists.antt =====
-- Lists of rows: length, the first row that passes a test, filters, counts and predicates.
use Prim.Native.Nat.{ℕ, suc, ◌+◌}
use mathlib.Core.Path.{◌≡◌, refl, ap}
use mathlib.Core.Logic.{◌⊎◌, inl, inr}
use mathlib.Core.Bool.{Bool, true, false}
use mathlib.Core.Option.{Option, none, some}
use mathlib.Core.List.{List, [], ◌∷◌, ◌++◌}
use native.Mathlib.Omega.{arith}
use conductor_data_platform.Prelude.Tests.{if◌then◌else◌, Bool-cases}

module _ {ℓ} {A : Type ℓ} where
  abbrev pub length : List A → ℕ
  length [] = 0
  length (x ∷ xs) = suc (length xs)

  -- the first row that a query's WHERE clause lets through
  abbrev pub find_row : (A → Bool) → List A → Option A
  find_row p [] = none
  find_row p (x ∷ xs) = if p x then some x else find_row p xs

  abbrev pub keep_rows : (A → Bool) → List A → List A
  keep_rows p [] = []
  keep_rows p (x ∷ xs) = let rest = keep_rows p xs in if p x then x ∷ rest else rest

  abbrev pub count_rows : (A → Bool) → List A → ℕ
  count_rows p [] = 0
  count_rows p (x ∷ xs) = (if p x then 1 else 0) + count_rows p xs

  -- an UPDATE of the rows that pass the test
  abbrev pub update_rows : (A → Bool) → (A → A) → List A → List A
  update_rows p f [] = []
  update_rows p f (x ∷ xs) = (if p x then f x else x) ∷ update_rows p f xs

  abbrev pub any_row : (A → Bool) → List A → Bool
  any_row p [] = false
  any_row p (x ∷ xs) = if p x then true else any_row p xs

  pub find_row-holds : (p : A → Bool) (xs : List A) {x : A} → find_row p xs ≡ some x → p x ≡ true
  find_row-holds p [] h = cc
  find_row-holds p (y ∷ ys) {x} h = ground (arith, find_row-holds p ys {x = x})

-- Every row of the list satisfies the predicate.
abbrev pub All {ℓ κ} : {A : Type ℓ} → (A → Type κ) → List A → Type κ
All P [] = Unit
All P (x ∷ xs) = P x × All P xs

-- A row of a table.
abbrev pub In : {A : Type 0} → A → List A → Type 0
In a [] = ⊥
In a (x ∷ xs) = (x ≡ a) ⊎ In a xs

module _ {A : Type 0} (p : A → Bool) where
  pub find_row-In : (xs : List A) (a : A) → find_row p xs ≡ some a → In a xs
  find_row-In [] a h = cc
  find_row-In (x ∷ xs) a h = ground (arith, find_row-In xs a)

  pub any_row-In : (xs : List A) → any_row p xs ≡ true → (a : A) × In a xs × (p a ≡ true)
  any_row-In [] h = cc
  any_row-In (x ∷ xs) h = go (any_row-In xs) (p x) refl h
    where
      go :
          (any_row p xs ≡ true → (a : A) × In a xs × (p a ≡ true))
          → (b : Bool) → p x ≡ b
          → (if b then true else any_row p xs) ≡ true
          → (a : A) × ((x ≡ a) ⊎ In a xs) × (p a ≡ true)
      go ih true e h' = (x, inl refl, e)
      go ih false e h' = let (a, i, t) = ih h' in (a, inr i, t)

  pub In-any_row : (xs : List A) (a : A) → In a xs → p a ≡ true → any_row p xs ≡ true
  In-any_row [] a h e = absurd h
  In-any_row (x ∷ xs) a (inl same) e = ground arith
  In-any_row (x ∷ xs) a (inr h) e = ground (arith, In-any_row xs a h e)

  pub keep_rows-In : (xs : List A) (a : A) → In a (keep_rows p xs) → In a xs × (p a ≡ true)
  keep_rows-In [] a h = absurd h
  keep_rows-In (x ∷ xs) a h = go (keep_rows-In xs a) (p x) refl h
    where
      go :
          (In a (keep_rows p xs) → In a xs × (p a ≡ true))
          → (b : Bool) → p x ≡ b
          → In a (if b then x ∷ keep_rows p xs else keep_rows p xs)
          → ((x ≡ a) ⊎ In a xs) × (p a ≡ true)
      go ih true e (inl same) = (inl same, rw (← same) e)
      go ih true e (inr r) = let (m, h) = ih r in (inr m, h)
      go ih false e r = let (m, h) = ih r in (inr m, h)

  pub In-keep_rows : (xs : List A) (a : A) → In a xs → p a ≡ true → In a (keep_rows p xs)
  In-keep_rows [] a h e = absurd h
  In-keep_rows (x ∷ xs) a (inl same) e = ground arith
  In-keep_rows (x ∷ xs) a (inr h) e = ground (arith, In-keep_rows xs a h e)

module _ {A : Type 0} where
  pub In-append : (xs : List A) (new a : A) → In a (xs ++ new ∷ []) → In a xs ⊎ (new ≡ a)
  In-append [] new a (inl e) = inr e
  In-append [] new a (inr i) = absurd i
  In-append (x ∷ xs) new a (inl e) = inl (inl e)
  In-append (x ∷ xs) new a (inr i) = elim (In-append xs new a i) [
    | inl j ↦ inl (inr j)
    | inr e ↦ inr e
  ]

  pub append-In : (xs : List A) (new a : A) → In a xs ⊎ (new ≡ a) → In a (xs ++ new ∷ [])
  append-In [] new a (inl i) = absurd i
  append-In [] new a (inr e) = inl e
  append-In (x ∷ xs) new a (inl (inl e)) = inl e
  append-In (x ∷ xs) new a (inl (inr i)) = inr (append-In xs new a (inl i))
  append-In (x ∷ xs) new a (inr e) = inr (append-In xs new a (inr e))

  -- A row after the update
  abbrev pub changed_row : (A → Bool) → (A → A) → A → A
  changed_row p f x = if p x then f x else x

  pub In-update_rows :
      (p : A → Bool) (f : A → A) (xs : List A) (a : A)
      → In a (update_rows p f xs)
      → (x : A) × In x xs × (changed_row p f x ≡ a)
  In-update_rows p f [] a i = absurd i
  In-update_rows p f (x ∷ xs) a (inl e) = (x, inl refl, e)
  In-update_rows p f (x ∷ xs) a (inr i) = let (y, j, e) = In-update_rows p f xs a i in (y, inr j, e)

  pub update_rows-In :
      (p : A → Bool) (f : A → A) (xs : List A) (x : A)
      → In x xs
      → In (changed_row p f x) (update_rows p f xs)
  update_rows-In p f [] x i = absurd i
  update_rows-In p f (y ∷ ys) x (inl e) = inl (ap (changed_row p f) e)
  update_rows-In p f (y ∷ ys) x (inr i) = inr (update_rows-In p f ys x i)

  pub any_row-none :
      (p : A → Bool) (xs : List A) (a : A) → any_row p xs ≡ false → In a xs → p a ≡ false
  any_row-none p xs a h i = elim (Bool-cases (p a)) [
    | inl hit ↦ let e = In-any_row p xs a i hit in absurd (cc)
    | inr miss ↦ miss
  ]
