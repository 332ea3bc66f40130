-- ===== src/Outcome.antt =====
-- What a coroutine that works on the tables ends in: a value or a raised exception, beside the
-- tables as they are committed then.
use conductor_data_platform.Models.{Db}
use conductor_data_platform.Lifecycle.{Raised}

pub data Outcome {ℓ} (A : Type ℓ) : Type ℓ where
  returned : A → Outcome A
  raised : Raised → Outcome A

abbrev pub Transaction {ℓ} : Type ℓ → Type ℓ
Transaction A = Db → Outcome A × Db

-- `try: ...; await session.commit() except Exception: await session.rollback(); raise`: what the body
-- wrote stays only if it does not raise.
abbrev pub atomically {ℓ} : {A : Type ℓ} → Transaction A → Transaction A
atomically body db =
    let (r, db') = body db in elim r [ returned a ↦ (returned a, db') | raised e ↦ (raised e, db) ]

infixl 5 ◌>>=◌
abbrev pub ◌>>=◌ {ℓ κ} :
    {A : Type ℓ} {B : Type κ} → Transaction A → (A → Transaction B) → Transaction B
◌>>=◌ m f db = let (r, db') = m db in elim r [ returned a ↦ f a db' | raised e ↦ (raised e, db') ]
