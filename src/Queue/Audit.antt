-- ===== src/Queue/Audit.antt =====
-- The audit log under the calls of the queue: it only grows.
use conductor_data_platform.Prelude.{
  ℕ, suc, String, ◌≡◌, refl, sym, ◌∙◌, ap, inl, inr, List, [], ◌∷◌, ◌++◌, arith, length, Option,
  none, some, ◌⊎◌,
}
use mathlib.Core.List.{append-nil, append_assoc}
use conductor_data_platform.Models.{
  Db, ProjectLifecycleJob, AuditEvent, find_project, Project, ProjectLifecycleStatus, save_job,
}
use conductor_data_platform.Lifecycle.{Raised, message}
use conductor_data_platform.Outcome.{returned, Transaction, atomically}
use conductor_data_platform.Queue.Defs.{
  heartbeat_job, complete_job, retry_or_fail_job, Backoff, fail_job, record_terminal_failure,
  settle_failure, schedule_retry, failure_of, failure_event, failed_row, error_code, extended,
  completed,
}
use conductor_data_platform.Queue.Claim.{claim_next_job, claim_loop, expired_code, expired_message}
use conductor_data_platform.Queue.Loop.{claim_rule}
use conductor_data_platform.Queue.Lease.{Owned-or-Stale, held, held-Owned, held-Stale}
use conductor_data_platform.Queue.Schedule.{
  Call, claim, heartbeat, complete, settle, perform, perform_all,
}

-- The second log is the first with events appended.
pub record Extends (a b : List AuditEvent) : Type 0 where
  pub added : List AuditEvent
  pub appended : b ≡ a ++ added

same : {a b : List AuditEvent} → b ≡ a → Extends a b
same {a} e = record { added = []; appended = e ∙ sym (append-nil a) }

Extends-trans : {a b c : List AuditEvent} → Extends a b → Extends b c → Extends a c
Extends-trans {a} x y = record {
  added = x.added ++ y.added;
  appended = y.appended ∙ ap (λ l. l ++ y.added) x.appended ∙ append_assoc a x.added y.added;
}

fail_job-Extends :
    (now : ℕ) (code message : String) (j : ProjectLifecycleJob) (db : Db)
    → Extends db.audit (fail_job now code message j db).1.audit
unfolding fail_job record_terminal_failure
fail_job-Extends now code message j db =
    go (find_project j.project_id db) refl (failure_of j.operation) refl
  where
    log : List AuditEvent
    log = (fail_job now code message j db).1.audit

    go :
        (p : Option Project)
        → find_project j.project_id db ≡ p
        → (k : Option (ProjectLifecycleStatus × String)) → failure_of j.operation ≡ k
        → Extends db.audit (fail_job now code message j db).1.audit
    go none e k f = same (ground arith)
    go (some p) e none f = same (ground arith)
    go (some p) e (some (status, kind)) f = record {
      added = failure_event (failed_row now code message j) p kind code ∷ [];
      appended = ground arith;
    }

atomically-cases :
    {A : Type 0} (m : Transaction A) (db : Db)
    → ((atomically m db).1 ≡ db) ⊎ ((atomically m db).1 ≡ (m db).1)
atomically-cases m db = ground arith

atomically-Extends :
    {A : Type 0} (m : Transaction A) (db : Db)
    → Extends db.audit (m db).1.audit
    → Extends db.audit (atomically m db).1.audit
atomically-Extends m db x = elim (atomically-cases m db) [
  | inl e ↦ rw e (same refl)
  | inr e ↦ rw e x
]

held-Extends :
    {A : Type 0} (id worker : String) (n now : ℕ) (body : ProjectLifecycleJob → Transaction A)
    (db : Db)
    → ((j : ProjectLifecycleJob) → Extends db.audit (body j db).1.audit)
    → Extends db.audit (held id worker n now body db).1.audit
held-Extends id worker n now body db x = elim (Owned-or-Stale id worker n now db) [
  | inl o ↦ rw (held-Owned id worker n now body db o) (atomically-Extends (body o.job) db (x o.job))
  | inr stale ↦ rw (held-Stale id worker n now body db stale) (same refl)
]

settle_failure-Extends :
    (redact : String → String) (now : ℕ) (error : Raised) (backoff : Backoff)
    (j : ProjectLifecycleJob) (db : Db)
    → Extends db.audit (settle_failure redact now error backoff j db).1.audit
unfolding settle_failure schedule_retry
settle_failure-Extends redact now error backoff j db = elim (settle_cases) [
  | inl e ↦ same e
  | inr e ↦ rw e (fail_job-Extends now (error_code error) (redact (message error)) j db)
]
  where
    settle_cases :
        ((settle_failure redact now error backoff j db).1.audit ≡ db.audit)
        ⊎ ((settle_failure redact now error backoff j db).1
            ≡ (fail_job now (error_code error) (redact (message error)) j db).1)
    settle_cases = ground arith

module _ (redact : String → String) where
  perform-Extends : (c : Call) (db : Db) → Extends db.audit (perform redact c db).audit
  unfolding perform heartbeat_job complete_job retry_or_fail_job claim_next_job
  perform-Extends (claim id_le locked worker now lease) db = elim guards [
    | inl e ↦ rw e (same refl)
    | inr e ↦ rw e (rounds (suc (length db.jobs)) db)
  ]
    where
      rounds :
          (f : ℕ) (db : Db)
          → Extends db.audit (claim_loop id_le locked worker now lease f db).1.audit
      rounds =
          claim_rule id_le locked worker now lease (λ _ db r. Extends db.audit r.1.audit)
            (record {
              out = λ db. same refl;
              idle = λ f db e. same refl;
              got = λ f db j c. same refl;
              stuck = λ f db j x c e. same refl;
              again = λ f db j r c e ih.
                  Extends-trans (fail_job-Extends now expired_code expired_message j db) ih;
            })

      guards :
          ((claim_next_job id_le locked worker now lease db).1 ≡ db)
          ⊎ ((claim_next_job id_le locked worker now lease db).1
              ≡ (claim_loop id_le locked worker now lease (suc (length db.jobs)) db).1)
      guards = ground arith
  perform-Extends (heartbeat id worker now lease n) db = elim guards [
    | inl e ↦ rw e (same refl)
    | inr e ↦ rw e (held-Extends id worker n now body db (λ j. same refl))
  ]
    where
      body : ProjectLifecycleJob → Transaction (Unit {0})
      body j db = (returned tt, save_job (extended now lease j) db)

      guards :
          ((heartbeat_job id worker now lease n db).1 ≡ db)
          ⊎ ((heartbeat_job id worker now lease n db).1 ≡ (held id worker n now body db).1)
      guards = ground arith
  perform-Extends (complete id worker now n) db =
      held-Extends id worker n now (λ j db. (returned tt, save_job (completed now j) db)) db
        (λ j. same refl)
  perform-Extends (settle id worker now error n backoff) db =
      held-Extends id worker n now (settle_failure redact now error backoff) db
        (λ j. settle_failure-Extends redact now error backoff j db)

  -- Whatever calls are made on the queue, in whatever order, every audit event that was in the log
  -- stays in it, in its place: events are only appended.
  pub perform_all-audit :
      (calls : List Call) (db : Db) → Extends db.audit (perform_all redact calls db).audit
  unfolding perform_all
  perform_all-audit [] db = same refl
  perform_all-audit (c ∷ cs) db =
      Extends-trans (perform-Extends c db) (perform_all-audit cs (perform redact c db))
