-- ===== src/Worker/Lost.antt =====
-- What a lost lease does to a run: the heartbeat that finds it ends the run.
use conductor_data_platform.Prelude.{ℕ, ◌<◌, ◌≡◌, refl, ◌∙◌, String, List, [], ◌∷◌, ◌++◌, arith}
use conductor_data_platform.Models.{Db}
use conductor_data_platform.Outcome.{Outcome, returned, raised}
use conductor_data_platform.Queue.{ClaimedJob, heartbeat_job, not_owner}
use conductor_data_platform.Queue.Lease.{Stale, heartbeat_job-Stale}
use conductor_data_platform.Worker.Defs.{
  WorkerOptions, Moment, work, beat, run_moments, conclude, settle_error, ownership_lost,
}

module _ (worker_id : String) (options : WorkerOptions) (claimed : ClaimedJob) where
  abbrev pub beats : ℕ → Db → Outcome (Unit {0}) × Db
  beats now = heartbeat_job claimed.id worker_id now options.lease_seconds claimed.attempt

  -- Behind moments that went through, a run goes on from the tables that they left.
  run_moments-append :
      (earlier later : List Moment) (result : Outcome (Unit {0})) (db mid : Db)
      → run_moments worker_id options claimed earlier (returned tt) db ≡ (returned tt, mid)
      → run_moments worker_id options claimed (earlier ++ later) result db
        ≡ run_moments worker_id options claimed later result mid
  unfolding run_moments
  run_moments-append [] later result db mid h = ground arith
  run_moments-append (work f ∷ ms) later result db mid h =
      run_moments-append ms later result (f db) mid h
  run_moments-append (beat now ∷ ms) later result db mid h =
      go (λ db' q. run_moments-append ms later result db' mid q) (beats now db) refl h
    where
      go :
          ((db' : Db)
            → run_moments worker_id options claimed ms (returned tt) db' ≡ (returned tt, mid)
            → run_moments worker_id options claimed (ms ++ later) result db'
              ≡ run_moments worker_id options claimed later result mid)
          → (o : Outcome (Unit {0}) × Db) → beats now db ≡ o
          → (elim o.0 as (λ _. Outcome (Unit {0}) × Db) [
            | returned _ ↦ run_moments worker_id options claimed ms (returned tt) o.1
            | raised e ↦ (raised e, o.1)
          ])
            ≡ (returned tt, mid)
          → run_moments worker_id options claimed (beat now ∷ ms ++ later) result db
            ≡ run_moments worker_id options claimed later result mid
      go ih (raised e, db') p q = absurd (cc)
      go ih (returned _, db') p q = ground (arith, p, ih db' q)

  stopped :
      (now : ℕ) (later : List Moment) (result : Outcome (Unit {0})) (mid : Db)
      → 0 < options.lease_seconds
      → Stale claimed.id worker_id claimed.attempt now mid
      → run_moments worker_id options claimed (beat now ∷ later) result mid
        ≡ (raised not_owner, mid)
  unfolding run_moments
  stopped now later result mid positive stale = ground (
    arith,
    heartbeat_job-Stale claimed.id worker_id claimed.attempt now options.lease_seconds mid positive
        stale,
  )

  -- A lease that is lost ends the run: if a heartbeat, of a positive lease, finds that the worker does not
  -- hold the job any more, nothing of the runner that would come later happens, however the runner would
  -- have ended; the run raises JobOwnershipError with the tables as they were at that heartbeat, and the
  -- worker reports the ownership as lost and writes nothing.
  pub lost_lease-stops :
      (redact : String → String) (earlier later : List Moment) (now settled_at jitter : ℕ)
      (result : Outcome (Unit {0})) (db mid : Db)
      → 0 < options.lease_seconds
      → run_moments worker_id options claimed earlier (returned tt) db ≡ (returned tt, mid)
      → Stale claimed.id worker_id claimed.attempt now mid
      → (run_moments worker_id options claimed (earlier ++ beat now ∷ later) result db
          ≡ (raised not_owner, mid))
        × (conclude worker_id options claimed redact settled_at jitter (raised not_owner) mid
            ≡ (returned ownership_lost, mid))
  unfolding conclude settle_error
  lost_lease-stops redact earlier later now settled_at jitter result db mid positive h stale = (
    run_moments-append earlier (beat now ∷ later) result db mid h
        ∙ stopped now later result mid positive stale,
    refl,
  )
