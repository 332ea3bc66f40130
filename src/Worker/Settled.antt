-- ===== src/Worker/Settled.antt =====
-- How a worker settles a job: by its lease at that moment, and by how the runner has ended.
use conductor_data_platform.Prelude.{ℕ, String, ◌≡◌, ◌≢◌, ◌↔◌, refl, ap, inl, inr, arith}
use conductor_data_platform.Models.{Db, save_job}
use conductor_data_platform.Lifecycle.{Raised}
use conductor_data_platform.Outcome.{Outcome, returned, raised}
use conductor_data_platform.Queue.{ClaimedJob, complete_job, completed}
use conductor_data_platform.Queue.Lease.{
  Owned, Stale, Owned-or-Stale, held-Owned, complete_job-Stale, retry_or_fail_job-Stale,
}
use conductor_data_platform.Worker.Defs.{
  WorkerOptions, ownership_lost, job_succeeded, complete, settle_error, conclude, backoff,
}

module _ (redact : String → String) (worker_id : String) (options : WorkerOptions)
    (claimed : ClaimedJob) (now jitter : ℕ) where
  -- A worker whose lease is not current when its runner has ended, however it has ended, reports the
  -- ownership as lost and leaves every table as it is.
  pub conclude-Stale :
      (result : Outcome (Unit {0})) (db : Db)
      → Stale claimed.id worker_id claimed.attempt now db
      → conclude worker_id options claimed redact now jitter result db
        ≡ (returned ownership_lost, db)
  unfolding conclude complete settle_error
  conclude-Stale (returned _) db stale =
      ground (arith, complete_job-Stale claimed.id worker_id claimed.attempt now db stale)
  conclude-Stale (raised e) db stale = ground (
    arith,
    retry_or_fail_job-Stale redact claimed.id worker_id claimed.attempt now e
        (backoff worker_id options claimed redact now jitter) db stale,
  )

  completes :
      (db : Db) (o : Owned claimed.id worker_id claimed.attempt now db)
      → complete_job claimed.id worker_id now claimed.attempt db
        ≡ (returned tt, save_job (completed now o.job) db)
  unfolding complete_job
  completes db o =
      held-Owned {0} claimed.id worker_id claimed.attempt now
        (λ j db. (returned tt, save_job (completed now j) db)) db o

  concludes :
      (db : Db) (o : Owned claimed.id worker_id claimed.attempt now db)
      → conclude worker_id options claimed redact now jitter (returned tt) db
        ≡ (returned job_succeeded, save_job (completed now o.job) db)
  unfolding conclude complete
  concludes db o = ground (arith, completes db o)

  never_by_error :
      (e : Raised) (db : Db)
      → (conclude worker_id options claimed redact now jitter (raised e) db).0
        ≢ returned job_succeeded
  unfolding conclude settle_error
  never_by_error e db h = ground arith

  -- A job is reported as succeeded exactly if its runner returned and the lease is still the worker's
  -- then; the job's row is completed at that time in that case.
  pub conclude_iff :
      (result : Outcome (Unit {0})) (db : Db)
      → (((conclude worker_id options claimed redact now jitter result db).0
            ≡ returned job_succeeded)
          ↔ ((result ≡ returned tt) × Owned claimed.id worker_id claimed.attempt now db))
        × ((o : Owned claimed.id worker_id claimed.attempt now db)
            → result ≡ returned tt
            → (conclude worker_id options claimed redact now jitter result db).1
              ≡ save_job (completed now o.job) db)
  conclude_iff (raised e) db = (
    (λ h. absurd (never_by_error e db h), λ (same, o). absurd (ground arith)),
    λ o same. absurd (ground arith),
  )
  conclude_iff (returned tt) db = (
    (
      λ h. elim (Owned-or-Stale claimed.id worker_id claimed.attempt now db) [
        | inl o ↦ (refl, o)
        | inr stale ↦ absurd (ground (arith, conclude-Stale (returned tt) db stale))
      ],
      λ (_, o). ap (λ x. x.0) (concludes db o),
    ),
    λ o _. ap (λ x. x.1) (concludes db o),
  )
