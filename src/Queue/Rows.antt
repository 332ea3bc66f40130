-- ===== src/Queue/Rows.antt =====
-- How a saved job row changes what the queries by id find, and predicates on all rows.
use conductor_data_platform.Prelude.{
  String, ◌≡◌, ◌≢◌, refl, ◌⊎◌, inl, inr, Bool, true, false, Option, none, some, List, [], ◌∷◌,
  arith, if◌then◌else◌, ◌==◌, find_row, update_rows, keep_rows, All,
}
use conductor_data_platform.Models.{ProjectLifecycleJob}

abbrev pub Jobs : Type 0
Jobs = List ProjectLifecycleJob

abbrev pub by_id : String → Jobs → Option ProjectLifecycleJob
by_id id = find_row (λ j. j.id == id)

abbrev pub write : ProjectLifecycleJob → Jobs → Jobs
write j = update_rows (λ r. r.id == j.id) (λ _. j)

abbrev pub replaced : ProjectLifecycleJob → Option ProjectLifecycleJob → Option ProjectLifecycleJob
replaced j none = none
replaced j (some _) = some j

pub by_id-write :
    (id : String) (j : ProjectLifecycleJob) (js : Jobs)
    → by_id id (write j js) ≡ (if j.id == id then replaced j (by_id id js) else by_id id js)
by_id-write id j [] = ground arith
by_id-write id j (x ∷ xs) = ground (arith, by_id-write id j xs)

-- A row of the table.
abbrev pub Row : ProjectLifecycleJob → Jobs → Type 0
Row j [] = ⊥
Row j (x ∷ xs) = (x ≡ j) ⊎ Row j xs

-- Ids are the primary key.
abbrev pub UniqueIds : Jobs → Type 0
UniqueIds [] = Unit
UniqueIds (x ∷ xs) = (by_id x.id xs ≡ none) × UniqueIds xs

pub by_id-Row :
    (id : String) (js : Jobs) (j : ProjectLifecycleJob) → by_id id js ≡ some j → Row j js
by_id-Row id [] j h = cc
by_id-Row id (x ∷ xs) j h = ground (arith, by_id-Row id xs j)

Row-found : (js : Jobs) (j : ProjectLifecycleJob) → Row j js → by_id j.id js ≢ none
Row-found [] j h = absurd h
Row-found (x ∷ xs) j (inl e) = ground (arith)
Row-found (x ∷ xs) j (inr r) = ground (arith, Row-found xs j r)

pub Row-by_id :
    (js : Jobs) (j : ProjectLifecycleJob) → UniqueIds js → Row j js → by_id j.id js ≡ some j
Row-by_id [] j u h = absurd h
Row-by_id (x ∷ xs) j u (inl e) = ground arith
Row-by_id (x ∷ xs) j u (inr r) = ground (arith, Row-by_id xs j u.1 r, Row-found xs j r)

pub write-UniqueIds : (j : ProjectLifecycleJob) (js : Jobs) → UniqueIds js → UniqueIds (write j js)
write-UniqueIds j [] u = tt
write-UniqueIds j (x ∷ xs) u =
    ground (arith, write-UniqueIds j xs u.1, by_id-write x.id j xs, by_id-write j.id j xs)

pub write-All {ℓ} :
    (P : ProjectLifecycleJob → Type ℓ) (j : ProjectLifecycleJob) (js : Jobs)
    → P j
    → All P js
    → All P (write j js)
write-All P j [] h a = tt
write-All P j (x ∷ xs) h (px, pxs) = (choose (x.id == j.id), write-All P j xs h pxs)
  where
    choose : (b : Bool) → P (if b then j else x)
    choose true = h
    choose false = px

pub All-Row {ℓ} :
    (P : ProjectLifecycleJob → Type ℓ) (js : Jobs) (j : ProjectLifecycleJob)
    → All P js
    → Row j js
    → P j
All-Row P [] j a r = absurd r
All-Row P (x ∷ xs) j (px, pxs) (inl e) = rw (← e) px
All-Row P (x ∷ xs) j (px, pxs) (inr r) = All-Row P xs j pxs r

pub keep-Row :
    (p : ProjectLifecycleJob → Bool) (js : Jobs) (j : ProjectLifecycleJob)
    → Row j (keep_rows p js)
    → Row j js × (p j ≡ true)
keep-Row p [] j r = absurd r
keep-Row p (x ∷ xs) j r = go (keep-Row p xs j) (p x) refl r
  where
    go :
        (Row j (keep_rows p xs) → Row j xs × (p j ≡ true))
        → (b : Bool) → p x ≡ b
        → Row j (if b then x ∷ keep_rows p xs else keep_rows p xs)
        → ((x ≡ j) ⊎ Row j xs) × (p j ≡ true)
    go ih true e (inl same) = (inl same, rw (← same) e)
    go ih true e (inr r) = let (a, b) = ih r in (inr a, b)
    go ih false e r = let (a, b) = ih r in (inr a, b)

pub Row-keep :
    (p : ProjectLifecycleJob → Bool) (js : Jobs) (j : ProjectLifecycleJob)
    → Row j js
    → p j ≡ true
    → Row j (keep_rows p js)
Row-keep p [] j r h = absurd r
Row-keep p (x ∷ xs) j (inl e) h = ground arith
Row-keep p (x ∷ xs) j (inr r) h = ground (arith, Row-keep p xs j r h)

pub Row-write : (j k : ProjectLifecycleJob) (js : Jobs) → Row k (write j js) → (j ≡ k) ⊎ Row k js
Row-write j k [] r = absurd r
Row-write j k (x ∷ xs) (inl e) = ground arith
Row-write j k (x ∷ xs) (inr r) = elim (Row-write j k xs r) [ inl e ↦ inl e | inr r' ↦ inr (inr r') ]

pub Row-write_ne :
    (j k : ProjectLifecycleJob) (js : Jobs) → k.id ≢ j.id → Row k js → Row k (write j js)
Row-write_ne j k [] h r = absurd r
Row-write_ne j k (x ∷ xs) h (inl e) = ground arith
Row-write_ne j k (x ∷ xs) h (inr r) = inr (Row-write_ne j k xs h r)

pub Row-unique :
    (j k : ProjectLifecycleJob) (js : Jobs)
    → UniqueIds js
    → Row j js
    → Row k js
    → j.id ≡ k.id
    → j ≡ k
Row-unique j k js u r s e = ground (arith, Row-by_id js j u r, Row-by_id js k u s)

pub by_id-write_self :
    (j k : ProjectLifecycleJob) (js : Jobs)
    → UniqueIds js
    → Row j js
    → k.id ≡ j.id
    → by_id k.id (write k js) ≡ some k
by_id-write_self j k js u r e = ground (arith, by_id-write k.id k js, Row-by_id js j u r)
