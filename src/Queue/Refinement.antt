-- ===== src/Queue/Refinement.antt =====
-- The operations on the tables refine the steps of job rows.
use conductor_data_platform.Prelude.{
  ℕ, zero, suc, ◌-◌, ◌⊎◌, String, ◌≡◌, refl, inl, inr, Bool, true, false, Option, none, some, arith,
  eqb, Bool-cases, if◌then◌else◌, length, is_empty,
}
use conductor_data_platform.Models.{Db, ProjectLifecycleJob, save_job}
use conductor_data_platform.Lifecycle.{Raised, message, retry_delay, value_error}
use conductor_data_platform.Outcome.{returned, raised, Transaction, atomically}
use conductor_data_platform.Queue.Lease.{Owned, Owned-or-Stale, held, held-Owned, held-Stale}
use conductor_data_platform.Queue.Defs.{
  owns, heartbeat_job, complete_job, retry_or_fail_job, Backoff, extended, completed, failed_row,
  retry_row, is_terminal, fail_job, schedule_retry, settle_failure, error_code, not_positive,
}
use conductor_data_platform.Queue.Claim.{claim_loop, claim_next_job, expired_code, expired_message}
use conductor_data_platform.Queue.Rows.{Jobs, write, Row, by_id-Row}
use conductor_data_platform.Queue.Loop.{claim_rule, jobs-fail_job}
use conductor_data_platform.Queue.JobStep.{JobStep, claim, expire, heartbeat, complete, fail, retry}

-- Rows of a table that take steps, one after another.
pub data Steps (js : Jobs) : Jobs → Type 0 where
  here : Steps js js
  next :
      {ks : Jobs} (j j' : ProjectLifecycleJob)
      → Steps js ks
      → Row j ks
      → JobStep j j'
      → Steps js (write j' ks)

pub Steps-trans : {a b c : Jobs} → Steps a b → Steps b c → Steps a c
Steps-trans s here = s
Steps-trans s (next j j' t r st) = next j j' (Steps-trans s t) r st

one : (js : Jobs) (j j' : ProjectLifecycleJob) → Row j js → JobStep j j' → Steps js (write j' js)
one js j j' r st = next j j' here r st

-- An operation under a lease takes steps if its body does on the row that is locked.
held-Steps {ℓ} :
    {A : Type ℓ} (id worker : String) (n now : ℕ) (body : ProjectLifecycleJob → Transaction A)
    (db : Db)
    → ((o : Owned id worker n now db) → Steps db.jobs (atomically (body o.job) db).1.jobs)
    → Steps db.jobs (held id worker n now body db).1.jobs
held-Steps id worker n now body db steps = elim (Owned-or-Stale id worker n now db) [
  | inl o ↦ rw (held-Owned id worker n now body db o) (steps o)
  | inr stale ↦ rw (held-Stale id worker n now body db stale) here
]

Owned-Row :
    {id worker : String} {n now : ℕ} (db : Db) (o : Owned id worker n now db) → Row o.job db.jobs
Owned-Row db o = by_id-Row _ db.jobs o.job o.found

suc-ne-zero : (n : ℕ) → eqb (suc n) 0 ≡ false
suc-ne-zero n = ground arith

pub heartbeat_job-Steps :
    (id worker : String) (now lease n : ℕ) (db : Db)
    → Steps db.jobs (heartbeat_job id worker now lease n db).1.jobs
unfolding heartbeat_job
heartbeat_job-Steps id worker now zero n db = here
heartbeat_job-Steps id worker now (suc lease) n db = rw (suc-ne-zero lease) (
    held-Steps id worker n now (λ j db. (returned tt, save_job (extended now (suc lease) j) db)) db
      λ o. one db.jobs o.job _ (Owned-Row db o) (heartbeat worker n now (suc lease) o.lease refl))

pub complete_job-Steps :
    (id worker : String) (now n : ℕ) (db : Db)
    → Steps db.jobs (complete_job id worker now n db).1.jobs
unfolding complete_job
complete_job-Steps id worker now n db =
    held-Steps id worker n now (λ j db. (returned tt, save_job (completed now j) db)) db
      λ o. one db.jobs o.job _ (Owned-Row db o) (complete worker n now o.lease refl)

module _ (redact : String → String) (now : ℕ) (error : Raised) (backoff : Backoff) where
  -- The rows after the failure of a held job: none changes, or one is failed or retried.
  data Settled (j : ProjectLifecycleJob) (db db' : Db) : Type 0 where
    undone : db' ≡ db → Settled j db db'
    terminal :
        is_terminal error j ≡ true
        → db'.jobs ≡ write (failed_row now (error_code error) (redact (message error)) j) db.jobs
        → Settled j db db'
    retried :
        (delay : ℕ)
        → is_terminal error j ≡ false
        → db'.jobs
          ≡ write (retry_row now delay (error_code error) (redact (message error)) j) db.jobs
        → Settled j db db'

  settle_terminal :
      (j : ProjectLifecycleJob) (db : Db)
      → is_terminal error j ≡ true
      → ((atomically (settle_failure redact now error backoff j) db).1 ≡ db)
        ⊎ ((atomically (settle_failure redact now error backoff j) db).1
            ≡ (fail_job now (error_code error) (redact (message error)) j db).1)
  unfolding settle_failure
  settle_terminal j db t = ground arith

  settle_retry :
      (j : ProjectLifecycleJob) (db : Db)
      → is_terminal error j ≡ false
      → Settled j db (atomically (settle_failure redact now error backoff j) db).1
  unfolding settle_failure schedule_retry
  settle_retry j db t = rw t (
      go (retry_delay backoff.reaches_cap (j.attempt - 1) backoff.base backoff.cap backoff.jitter)
        refl)
    where
      go :
          (o : Option ℕ)
          → retry_delay backoff.reaches_cap (j.attempt - 1) backoff.base backoff.cap backoff.jitter
            ≡ o
          → Settled j db
              (atomically
                (schedule_retry now backoff (error_code error) (redact (message error)) j)
                db).1
      go none e = undone (ground arith)
      go (some d) e = retried d t (ground arith)

  settle_failure-Settled :
      (j : ProjectLifecycleJob) (db : Db)
      → Settled j db (atomically (settle_failure redact now error backoff j) db).1
  settle_failure-Settled j db = elim (Bool-cases (is_terminal error j)) [
    | inl t ↦ elim (settle_terminal j db t) [
      | inl e ↦ undone e
      | inr e ↦
          terminal t (rw e (jobs-fail_job now (error_code error) (redact (message error)) j db))
    ]
    | inr t ↦ settle_retry j db t
  ]

  Settled-Steps :
      (worker : String) (n : ℕ) (j : ProjectLifecycleJob) {db db' : Db}
      → Row j db.jobs
      → owns j worker n now ≡ true
      → Settled j db db'
      → Steps db.jobs db'.jobs
  Settled-Steps worker n j r o (undone e) = rw e here
  Settled-Steps worker n j {db} r o (terminal t e) =
      rw e (one db.jobs j _ r (fail worker n now error _ _ o t refl))
  Settled-Steps worker n j {db} r o (retried delay t e) =
      rw e (one db.jobs j _ r (retry worker n now delay error _ _ o t refl))

  pub retry_or_fail_job-Steps :
      (id worker : String) (n : ℕ) (db : Db)
      → Steps db.jobs (retry_or_fail_job redact id worker now error n backoff db).1.jobs
  unfolding retry_or_fail_job
  retry_or_fail_job-Steps id worker n db =
      held-Steps id worker n now (settle_failure redact now error backoff) db
        λ o. Settled-Steps worker n o.job (Owned-Row db o) o.lease (settle_failure-Settled o.job db)

module _ (id_le : String → String → Bool) (locked : String → Bool) (worker : String)
    (now lease : ℕ) where
  pub claim_loop-Steps :
      (fuel : ℕ) (db : Db) → Steps db.jobs (claim_loop id_le locked worker now lease fuel db).1.jobs
  claim_loop-Steps =
      claim_rule id_le locked worker now lease (λ _ db r. Steps db.jobs r.1.jobs)
        (record {
          out = λ db. here;
          idle = λ f db e. here;
          got = λ f db j c. one db.jobs j _ c.row (claim worker now lease c.due c.spent refl);
          stuck = λ f db j x c r. here;
          again = λ f db j r c ok ih.
              Steps-trans
                (rw (jobs-fail_job now expired_code expired_message j db) (
                  one db.jobs j _ c.row
                    (expire now expired_code expired_message c.due c.spent refl)))
                ih;
        })

  pub claim_next_job-Steps :
      (db : Db) → Steps db.jobs (claim_next_job id_le locked worker now lease db).1.jobs
  unfolding claim_next_job
  claim_next_job-Steps db = go (is_empty worker) (eqb lease 0)
    where
      go :
          (a b : Bool)
          → Steps db.jobs
              (if a
                then (some (raised (value_error "worker_id must not be empty")), db)
                else if b
                then (some (raised not_positive), db)
                else claim_loop id_le locked worker now lease (suc (length db.jobs)) db).1.jobs
      go true b = here
      go false true = here
      go false false = claim_loop-Steps (suc (length db.jobs)) db
