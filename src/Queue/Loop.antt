-- ===== src/Queue/Loop.antt =====
-- The rounds of the claim loop, as a rule of induction on them.
use mathlib.Core.Path.{subst}
use conductor_data_platform.Prelude.{
  sym, ℕ, zero, suc, String, ◌≡◌, refl, inl, inr, Bool, true, false, not, ◌&&◌, Option, none, some,
  [], ◌∷◌, arith, Option-cases,
}
use conductor_data_platform.Models.{Db, ProjectLifecycleJob}
use conductor_data_platform.Lifecycle.{Raised}
use conductor_data_platform.Outcome.{Outcome, returned, raised}
use conductor_data_platform.Queue.Defs.{failed_row, fail_job, record_terminal_failure}
use conductor_data_platform.Queue.Claim.{
  is_due, is_spent, first_row, select_due, claim_row, claim_loop, expired_code, expired_message,
  ClaimResult,
}
use conductor_data_platform.Queue.Rows.{Jobs, write, Row, keep-Row}

first_row-Row :
    (id_le : String → String → Bool) (js : Jobs) (j : ProjectLifecycleJob)
    → first_row id_le js ≡ some j
    → Row j js
unfolding first_row
first_row-Row id_le [] j h = cc
first_row-Row id_le (x ∷ xs) j h = elim (Option-cases (first_row id_le xs)) [
  | inl e ↦ ground arith
  | inr (k, e) ↦ ground (arith, first_row-Row id_le xs k e)
]

-- The row that is claimed is due, and no other transaction has it locked.
pub select_due-Row :
    (id_le : String → String → Bool) (locked : String → Bool) (now : ℕ) (js : Jobs)
    (j : ProjectLifecycleJob)
    → select_due id_le locked now js ≡ some j
    → Row j js × (is_due now j ≡ true) × (locked j.id ≡ false)
unfolding select_due
select_due-Row id_le locked now js j h =
    let (r, p) =
      keep-Row (λ j. is_due now j && not (locked j.id)) js j (first_row-Row id_le _ j h) in
    (r, ground arith, ground arith)

-- Whatever becomes of the project, the job row that is written is the failed one.
pub jobs-fail_job :
    (now : ℕ) (code message : String) (j : ProjectLifecycleJob) (db : Db)
    → (fail_job now code message j db).1.jobs ≡ write (failed_row now code message j) db.jobs
unfolding fail_job record_terminal_failure
jobs-fail_job now code message j db = ground arith

-- A row that a round takes up.
pub record Candidate (id_le : String → String → Bool) (locked : String → Bool) (now : ℕ)
    (is_last : Bool) (js : Jobs) (j : ProjectLifecycleJob) : Type 0 where
  pub chosen : select_due id_le locked now js ≡ some j
  pub row : Row j js
  pub due : is_due now j ≡ true
  pub free : locked j.id ≡ false
  pub spent : is_spent j ≡ is_last

module _ (id_le : String → String → Bool) (locked : String → Bool) (worker : String)
    (now lease : ℕ) where
  abbrev expire_job : ProjectLifecycleJob → Db → Outcome (Unit {0}) × Db
  expire_job = fail_job now expired_code expired_message

  candidate :
      (b : Bool) (js : Jobs) (j : ProjectLifecycleJob)
      → select_due id_le locked now js ≡ some j
      → is_spent j ≡ b
      → Candidate id_le locked now b js j
  candidate b js j e s =
      let (r, d, f) = select_due-Row id_le locked now js j e in
      record { chosen = e; row = r; due = d; free = f; spent = s }

  loop_idle :
      (f : ℕ) (db : Db)
      → select_due id_le locked now db.jobs ≡ none
      → claim_loop id_le locked worker now lease (suc f) db ≡ (some (returned none), db)
  unfolding claim_loop
  loop_idle f db e = ground arith

  loop_claim :
      (f : ℕ) (db : Db) (j : ProjectLifecycleJob)
      → select_due id_le locked now db.jobs ≡ some j
      → is_spent j ≡ false
      → claim_loop id_le locked worker now lease (suc f) db
        ≡ claim_row id_le locked worker now lease j db
  unfolding claim_loop
  loop_claim f db j e s = ground arith

  loop_raise :
      (f : ℕ) (db : Db) (j : ProjectLifecycleJob) (x : Raised)
      → select_due id_le locked now db.jobs ≡ some j
      → is_spent j ≡ true
      → (expire_job j db).0 ≡ raised x
      → claim_loop id_le locked worker now lease (suc f) db ≡ (some (raised x), db)
  unfolding claim_loop
  loop_raise f db j x e s r = ground arith

  loop_again :
      (f : ℕ) (db : Db) (j : ProjectLifecycleJob)
      → select_due id_le locked now db.jobs ≡ some j
      → is_spent j ≡ true
      → (expire_job j db).0 ≡ returned tt
      → claim_loop id_le locked worker now lease (suc f) db
        ≡ claim_loop id_le locked worker now lease f (expire_job j db).1
  unfolding claim_loop
  loop_again f db j e s r = ground arith

  -- An invariant of the loop: what holds of each way to end, and is kept by a round that fails a
  -- spent job, holds of the whole loop.
  pub record IsLoopInvariant {ℓ} (P : ℕ → Db → ClaimResult × Db → Type ℓ) : Type ℓ where
    pub out : (db : Db) → P zero db (none, db)
    pub idle :
        (f : ℕ) (db : Db)
        → select_due id_le locked now db.jobs ≡ none
        → P (suc f) db (some (returned none), db)
    pub got :
        (f : ℕ) (db : Db) (j : ProjectLifecycleJob)
        → Candidate id_le locked now false db.jobs j
        → P (suc f) db (claim_row id_le locked worker now lease j db)
    pub stuck :
        (f : ℕ) (db : Db) (j : ProjectLifecycleJob) (x : Raised)
        → Candidate id_le locked now true db.jobs j
        → (expire_job j db).0 ≡ raised x
        → P (suc f) db (some (raised x), db)
    pub again :
        (f : ℕ) (db : Db) (j : ProjectLifecycleJob) (r : ClaimResult × Db)
        → Candidate id_le locked now true db.jobs j
        → (expire_job j db).0 ≡ returned tt
        → P f (expire_job j db).1 r
        → P (suc f) db r

  abbrev loop : ℕ → Db → ClaimResult × Db
  loop = claim_loop id_le locked worker now lease

  round {ℓ} :
      (P : ℕ → Db → ClaimResult × Db → Type ℓ) (f : ℕ) (db : Db)
      → IsLoopInvariant P
      → ((db' : Db) → P f db' (loop f db'))
      → P (suc f) db (loop (suc f) db)
  round P f db rule ih = pick (select_due id_le locked now db.jobs) refl
    where
      settle :
          (j : ProjectLifecycleJob)
          → select_due id_le locked now db.jobs ≡ some j
          → is_spent j ≡ true
          → (o : Outcome (Unit {0})) → (expire_job j db).0 ≡ o
          → P (suc f) db (loop (suc f) db)
      settle j e s (raised x) r =
          subst (P (suc f) db) (sym (loop_raise f db j x e s r))
            (rule.stuck f db j x (candidate true db.jobs j e s) r)
      settle j e s (returned u) r =
          subst (P (suc f) db) (sym (loop_again f db j e s r))
            (rule.again f db j _ (candidate true db.jobs j e s) r (ih (expire_job j db).1))

      last :
          (j : ProjectLifecycleJob)
          → select_due id_le locked now db.jobs ≡ some j
          → (b : Bool) → is_spent j ≡ b
          → P (suc f) db (loop (suc f) db)
      last j e false s =
          subst (P (suc f) db) (sym (loop_claim f db j e s))
            (rule.got f db j (candidate false db.jobs j e s))
      last j e true s = settle j e s (expire_job j db).0 refl

      pick :
          (o : Option ProjectLifecycleJob)
          → select_due id_le locked now db.jobs ≡ o
          → P (suc f) db (loop (suc f) db)
      pick none e = subst (P (suc f) db) (sym (loop_idle f db e)) (rule.idle f db e)
      pick (some j) e = last j e (is_spent j) refl

  pub claim_rule {ℓ} :
      (P : ℕ → Db → ClaimResult × Db → Type ℓ)
      → IsLoopInvariant P
      → (fuel : ℕ) (db : Db) → P fuel db (claim_loop id_le locked worker now lease fuel db)
  unfolding claim_loop
  claim_rule P rule zero db = rule.out db
  claim_rule P rule (suc f) db = round P f db rule (claim_rule P rule f)
