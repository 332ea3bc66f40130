-- ===== src/Worker/Run.antt =====
-- What whole rounds of a worker leave in the jobs table, its runners' own commits included.
use conductor_data_platform.Prelude.{
  ℕ, String, ◌≡◌, refl, ◌⊎◌, inl, inr, Bool, none, some, List, [], ◌∷◌, arith, Option-cases, All,
}
use conductor_data_platform.Models.{Db, LifecycleOperation}
use conductor_data_platform.Lifecycle.{Raised}
use conductor_data_platform.Outcome.{Outcome, returned, raised}
use conductor_data_platform.Queue.{ClaimedJob, ClaimResult, claim_next_job, heartbeat_job}
use conductor_data_platform.Queue.Rows.{UniqueIds}
use conductor_data_platform.Queue.JobStep.{IsWellFormed}
use conductor_data_platform.Queue.Schedule.{
  Call, claim, heartbeat, complete, settle, perform, perform_all, perform_all-IsWellFormed,
}
use conductor_data_platform.Worker.Defs

-- Ids are unique and every job row is well formed.
abbrev pub IsSound : Db → Type 0
IsSound db = All IsWellFormed db.jobs × UniqueIds db.jobs

-- A commit of a runner, or of another process meanwhile, that keeps the jobs table sound.
abbrev pub Keeps : Defs.Moment → Type 0
Keeps (Defs.Moment.work f) = (db : Db) → IsSound db → IsSound (f db)
Keeps (Defs.Moment.beat now) = Unit

module _ (redact : String → String) (worker_id : String) (options : Defs.WorkerOptions) where
  called : (c : Call) (db : Db) → IsSound db → IsSound (perform redact c db)
  unfolding perform_all
  called c db (w, u) = perform_all-IsWellFormed redact (c ∷ []) db w u

  after_beat :
      (claimed : ClaimedJob) (now : ℕ) (ms : List Defs.Moment) (result : Outcome (Unit {0}))
      (db : Db)
      → let db' =
          (heartbeat_job claimed.id worker_id now options.lease_seconds claimed.attempt db).1 in
        let after =
          (Defs.run_moments worker_id options claimed (Defs.Moment.beat now ∷ ms) result db).1 in
        (after ≡ (Defs.run_moments worker_id options claimed ms result db').1) ⊎ (after ≡ db')
  unfolding Defs.run_moments
  after_beat claimed now ms result db = ground arith

  run_moments-IsSound :
      (claimed : ClaimedJob) (ms : List Defs.Moment) (result : Outcome (Unit {0})) (db : Db)
      → All Keeps ms
      → IsSound db
      → IsSound (Defs.run_moments worker_id options claimed ms result db).1
  unfolding Defs.run_moments perform
  run_moments-IsSound claimed [] result db k s = s
  run_moments-IsSound claimed (Defs.Moment.work f ∷ ms) result db k s =
      run_moments-IsSound claimed ms result (f db) k.1 (k.0 db s)
  run_moments-IsSound claimed (Defs.Moment.beat now ∷ ms) result db k s =
      let db' =
        (heartbeat_job claimed.id worker_id now options.lease_seconds claimed.attempt db).1 in
      let kept : IsSound db' =
        called (heartbeat claimed.id worker_id now options.lease_seconds claimed.attempt) db s in
      let ih = run_moments-IsSound claimed ms result db' k.1 kept in
      elim (after_beat claimed now ms result db) [ inl same ↦ rw same ih | inr same ↦ rw same kept ]

  module _ (registry : Defs.Registry) where
    -- Every runner of the registry keeps the jobs table sound.
    abbrev pub RunnersKeep : Type 0
    RunnersKeep =
        (operation : LifecycleOperation) (runner : Defs.Runner) (claimed : ClaimedJob)
        → registry operation ≡ some runner
        → All Keeps (runner claimed).moments

    unresolved :
        (claimed : ClaimedJob) (db : Db)
        → registry claimed.operation ≡ none
        → (Defs.run_with_heartbeats worker_id options claimed registry db).1 ≡ db
    unfolding Defs.run_with_heartbeats Defs.resolve
    unresolved claimed db e = ground (arith, e)

    resolved :
        (claimed : ClaimedJob) (runner : Defs.Runner) (db : Db)
        → registry claimed.operation ≡ some runner
        → Defs.run_with_heartbeats worker_id options claimed registry db
          ≡ Defs.run_moments worker_id options claimed
              (runner claimed).moments
              (runner claimed).result
              db
    unfolding Defs.run_with_heartbeats Defs.resolve
    resolved claimed runner db e = ground (arith, e)

    completed_db :
        (claimed : ClaimedJob) (now jitter : ℕ) (db : Db)
        → (Defs.complete worker_id options claimed redact now jitter db).1
          ≡ perform redact (complete claimed.id worker_id now claimed.attempt) db
    unfolding Defs.complete perform
    completed_db claimed now jitter db = ground arith

    settled_db :
        (claimed : ClaimedJob) (now jitter : ℕ) (error : Raised) (db : Db)
        → let backoff = Defs.backoff worker_id options claimed redact now jitter in
          ((Defs.settle_error worker_id options claimed redact now jitter error db).1 ≡ db)
          ⊎ ((Defs.settle_error worker_id options claimed redact now jitter error db).1
              ≡ perform redact (settle claimed.id worker_id now error claimed.attempt backoff) db)
    unfolding Defs.settle_error perform
    settled_db claimed now jitter error db = ground arith

    run_with_heartbeats-IsSound :
        (claimed : ClaimedJob) (db : Db)
        → RunnersKeep
        → IsSound db
        → IsSound (Defs.run_with_heartbeats worker_id options claimed registry db).1
    run_with_heartbeats-IsSound claimed db k s = elim (Option-cases (registry claimed.operation)) [
      | inl e ↦ rw (unresolved claimed db e) s
      | inr (runner, e) ↦ rw (resolved claimed runner db e) (
          run_moments-IsSound claimed (runner claimed).moments (runner claimed).result db
            (k claimed.operation runner claimed e) s)
    ]

    conclude-IsSound :
        (claimed : ClaimedJob) (now jitter : ℕ) (result : Outcome (Unit {0})) (db : Db)
        → IsSound db
        → IsSound (Defs.conclude worker_id options claimed redact now jitter result db).1
    unfolding Defs.conclude
    conclude-IsSound claimed now jitter (returned _) db s =
        rw (completed_db claimed now jitter db)
          (called (complete claimed.id worker_id now claimed.attempt) db s)
    conclude-IsSound claimed now jitter (raised e) db s =
        elim (settled_db claimed now jitter e db) [
          | inl same ↦ rw same s
          | inr same ↦ rw same (
              called
                (settle claimed.id worker_id now e claimed.attempt
                  (Defs.backoff worker_id options claimed redact now jitter))
                db s)
        ]

    process_claimed-IsSound :
        (round : Defs.Round) (claimed : ClaimedJob) (db : Db)
        → RunnersKeep
        → IsSound db
        → IsSound (Defs.process_claimed redact worker_id options registry round claimed db).1
    unfolding Defs.process_claimed
    process_claimed-IsSound round claimed db k s =
        let (r, db') = Defs.run_with_heartbeats worker_id options claimed registry db in
        conclude-IsSound claimed round.ended_at round.jitter r db'
          (run_with_heartbeats-IsSound claimed db k s)

    -- A round ends in what its claim left or in the end of the job that it claimed.
    after_claim :
        (round : Defs.Round) (db : Db)
        → let db' =
            (claim_next_job round.id_le round.locked worker_id round.claimed_at
              options.lease_seconds db).1 in
          let after = (Defs.process_one_job redact worker_id options registry round db).1 in
          (after ≡ db')
          ⊎ ((claimed : ClaimedJob) × (after
                ≡ (Defs.process_claimed redact worker_id options registry round claimed db').1))
    unfolding Defs.process_one_job
    after_claim round db =
        go
          (claim_next_job round.id_le round.locked worker_id round.claimed_at options.lease_seconds
            db)
          refl
      where
        go :
            (x : ClaimResult × Db)
            → claim_next_job round.id_le round.locked worker_id round.claimed_at
                options.lease_seconds db
              ≡ x
            → ((Defs.process_one_job redact worker_id options registry round db).1 ≡ x.1)
              ⊎ ((claimed : ClaimedJob) × ((Defs.process_one_job redact worker_id options registry
                      round db).1
                    ≡ (Defs.process_claimed redact worker_id options registry round claimed x.1).1))
        go (none, d) e = inl (ground (arith, e))
        go (some (raised error), d) e = inl (ground (arith, e))
        go (some (returned none), d) e = inl (ground (arith, e))
        go (some (returned (some claimed)), d) e = inr (claimed, ground (arith, e))

    process_one_job-IsSound :
        (round : Defs.Round) (db : Db)
        → RunnersKeep
        → IsSound db
        → IsSound (Defs.process_one_job redact worker_id options registry round db).1
    unfolding perform
    process_one_job-IsSound round db k s =
        let kept =
          called (claim round.id_le round.locked worker_id round.claimed_at options.lease_seconds)
            db s in
        elim (after_claim round db) [
          | inl same ↦ rw same kept
          | inr (claimed, same) ↦ rw same (process_claimed-IsSound round claimed _ k kept)
        ]

    after_round :
        (once : Bool) (round : Defs.Round) (rounds : List Defs.Round) (db : Db)
        → let db' = (Defs.process_one_job redact worker_id options registry round db).1 in
          let after =
            (Defs.run_worker redact worker_id options once registry (round ∷ rounds) db).1 in
          (after ≡ db')
          ⊎ (after ≡ (Defs.run_worker redact worker_id options once registry rounds db').1)
    unfolding Defs.run_worker
    after_round once round rounds db = ground arith

    -- A worker that runs any number of rounds, with runners whose own commits keep the jobs table sound,
    -- keeps it sound through claims, heartbeats, lost leases, failures and completions.
    pub run_worker-IsSound :
        (once : Bool) (rounds : List Defs.Round) (db : Db)
        → RunnersKeep
        → IsSound db
        → IsSound (Defs.run_worker redact worker_id options once registry rounds db).1
    unfolding Defs.run_worker
    run_worker-IsSound once [] db k s = s
    run_worker-IsSound once (round ∷ rounds) db k s =
        let kept = process_one_job-IsSound round db k s in
        let ih = run_worker-IsSound once rounds _ k kept in
        elim (after_round once round rounds db) [ inl same ↦ rw same kept | inr same ↦ rw same ih ]
