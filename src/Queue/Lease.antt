-- ===== src/Queue/Lease.antt =====
-- What every operation on a claimed job shares: without the lease it raises and changes nothing,
-- with it its body runs on the locked row.
use conductor_data_platform.Prelude.{
  ℕ, ◌<◌, String, ◌≡◌, refl, ◌⊎◌, inl, inr, true, false, Option, none, some, arith, Bool-cases,
  Option-cases,
}
use conductor_data_platform.Models.{Db, ProjectLifecycleJob, save_job}
use conductor_data_platform.Lifecycle.{Raised}
use conductor_data_platform.Outcome.{returned, raised, Transaction, atomically, ◌>>=◌}
use conductor_data_platform.Queue.Defs.{
  owns, lock_owned_job, not_owner, heartbeat_job, complete_job, retry_or_fail_job, extended,
  completed, settle_failure, Backoff,
}
use conductor_data_platform.Queue.Rows.{by_id}

-- The worker's lease on the job is not current: no such row, or a row that it does not own.
abbrev pub Stale : String → String → ℕ → ℕ → Db → Type 0
Stale id worker n now db =
    (j : ProjectLifecycleJob) → by_id id db.jobs ≡ some j → owns j worker n now ≡ false

-- The row of a job that the worker owns.
pub record Owned (id worker : String) (n now : ℕ) (db : Db) : Type 0 where
  pub job : ProjectLifecycleJob
  pub found : by_id id db.jobs ≡ some job
  pub lease : owns job worker n now ≡ true

pub Owned-or-Stale :
    (id worker : String) (n now : ℕ) (db : Db) → Owned id worker n now db ⊎ Stale id worker n now db
Owned-or-Stale id worker n now db = go (by_id id db.jobs) refl
  where
    go :
        (o : Option ProjectLifecycleJob)
        → by_id id db.jobs ≡ o
        → Owned id worker n now db ⊎ Stale id worker n now db
    go none e = inr (λ j f. ground arith)
    go (some j) e = elim (Bool-cases (owns j worker n now)) [
      | inl o ↦ inl (record { job = j; found = e; lease = o })
      | inr o ↦ inr (λ k f. ground arith)
    ]

module _ {ℓ} {A : Type ℓ} (id worker : String) (n now : ℕ)
    (body : ProjectLifecycleJob → Transaction A) where
  abbrev pub held : Transaction A
  held = atomically (lock_owned_job id worker n now >>= body)

  pub held-Stale : (db : Db) → Stale id worker n now db → held db ≡ (raised not_owner, db)
  unfolding lock_owned_job
  held-Stale db stale = elim (Option-cases (by_id id db.jobs)) [
    | inl e ↦ ground arith
    | inr (j, e) ↦ ground (arith, stale j e)
  ]

  pub held-Owned : (db : Db) (o : Owned id worker n now db) → held db ≡ atomically (body o.job) db
  unfolding lock_owned_job
  held-Owned db o = ground (arith, o.found, o.lease)

pub complete_job-Stale :
    (id worker : String) (n now : ℕ) (db : Db)
    → Stale id worker n now db
    → complete_job id worker now n db ≡ (raised not_owner, db)
unfolding complete_job
complete_job-Stale id worker n now =
    held-Stale id worker n now (λ j db. (returned tt, save_job (completed now j) db))

pub heartbeat_job-Stale :
    (id worker : String) (n now lease : ℕ) (db : Db)
    → 0 < lease
    → Stale id worker n now db
    → heartbeat_job id worker now lease n db ≡ (raised not_owner, db)
unfolding heartbeat_job
heartbeat_job-Stale id worker n now lease db pos stale = ground (
  arith,
  held-Stale {0} id worker n now (λ j db. (returned tt, save_job (extended now lease j) db)) db
      stale,
)

pub retry_or_fail_job-Stale :
    (redact : String → String) (id worker : String) (n now : ℕ) (error : Raised) (backoff : Backoff)
    (db : Db)
    → Stale id worker n now db
    → retry_or_fail_job redact id worker now error n backoff db ≡ (raised not_owner, db)
unfolding retry_or_fail_job
retry_or_fail_job-Stale redact id worker n now error backoff =
    held-Stale id worker n now (settle_failure redact now error backoff)
