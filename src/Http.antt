-- ===== src/Http.antt =====
-- Handlers and dependencies of the HTTP API: an answer, or the HTTPException that is raised.
use conductor_data_platform.Prelude.{ℕ, String, Bool, true, false, Option, none, some}
use conductor_data_platform.Models.{Db}

pub data Reply {ℓ} (A : Type ℓ) : Type ℓ where
  answer : A → Reply A
  http : ℕ → String → Reply A

-- A query or a guard reads the tables only.
abbrev pub Query {ℓ} : Type ℓ → Type ℓ
Query A = Db → Reply A

infixl 5 ◌>>=◌ ◌>>◌
abbrev pub ◌>>=◌ {ℓ κ} : {A : Type ℓ} {B : Type κ} → Query A → (A → Query B) → Query B
◌>>=◌ m f db = elim (m db) [ answer a ↦ f a db | http c d ↦ http c d ]

abbrev pub ◌>>◌ {ℓ} : {B : Type ℓ} → Query (Unit {0}) → Query B → Query B
m >> k = m >>= λ _. k

abbrev pub pure {ℓ} : {A : Type ℓ} → A → Query A
pure a db = answer a

-- `if test: raise HTTPException(status, detail)`
abbrev pub refuse_if : Bool → ℕ → String → Query (Unit {0})
refuse_if true status detail db = http status detail
refuse_if false status detail db = answer tt

-- A row that the code goes on with, or an HTTPException where the query finds none.
abbrev pub or_http {ℓ} : {A : Type ℓ} → (Db → Option A) → ℕ → String → Query A
or_http q status detail db = elim (q db) [ none ↦ http status detail | some a ↦ answer a ]

-- What a handler writes after its guards have passed; an HTTPException leaves the tables, since the
-- session is closed without a commit.
abbrev pub commit {ℓ} : {A : Type ℓ} → Query A → (A → Db → Db) → Db → Reply A × Db
commit m write db = elim (m db) [ answer a ↦ (answer a, write a db) | http c d ↦ (http c d, db) ]

-- The response that a handler makes of what it has done.
abbrev pub respond {ℓ κ} : {A : Type ℓ} {B : Type κ} → (A → B) → Reply A × Db → Reply B × Db
respond f (answer a, db) = (answer (f a), db)
respond f (http c d, db) = (http c d, db)
