-- ===== src/Queue/Schedule.antt =====
-- Any number of workers: the committed operations of the queue in any order, with any arguments.
use conductor_data_platform.Prelude.{
  ℕ, ◌<◌, String, ◌≡◌, inl, inr, Bool, true, some, List, [], ◌∷◌, arith, Bool-cases, ◌==◌, All,
}
use conductor_data_platform.Models.{Db, ProjectLifecycleJob}
use conductor_data_platform.Lifecycle.{Raised}
use conductor_data_platform.Outcome.{raised}
use conductor_data_platform.Queue.Defs.{
  owns, heartbeat_job, complete_job, retry_or_fail_job, Backoff, not_owner,
}
use conductor_data_platform.Queue.Claim.{claim_next_job}
use conductor_data_platform.Queue.Rows.{
  Jobs, by_id, write, Row, UniqueIds, Row-by_id, by_id-write, write-UniqueIds, write-All, All-Row,
}
use conductor_data_platform.Queue.JobStep.{
  JobStep, JobRun, start, after, IsWellFormed, JobStep-IsWellFormed, JobStep-SameJob,
  JobRun-attempt, JobRun-ended, is_ended,
}
use conductor_data_platform.Queue.Lease.{
  Stale, heartbeat_job-Stale, complete_job-Stale, retry_or_fail_job-Stale,
}
use conductor_data_platform.Queue.Refinement.{
  Steps, here, next, Steps-trans, heartbeat_job-Steps, complete_job-Steps, retry_or_fail_job-Steps,
  claim_next_job-Steps,
}

-- One call by some worker. `locked` are the rows that other open transactions hold.
pub data Call : Type 0 where
  claim :
      (id_le : String → String → Bool) (locked : String → Bool) (worker : String) (now lease : ℕ)
      → Call
  heartbeat : (id worker : String) (now lease n : ℕ) → Call
  complete : (id worker : String) (now n : ℕ) → Call
  settle : (id worker : String) (now : ℕ) (error : Raised) (n : ℕ) (backoff : Backoff) → Call

module _ (redact : String → String) where
  unfoldable pub perform : Call → Db → Db
  perform (claim id_le locked worker now lease) db =
      (claim_next_job id_le locked worker now lease db).1
  perform (heartbeat id worker now lease n) db = (heartbeat_job id worker now lease n db).1
  perform (complete id worker now n) db = (complete_job id worker now n db).1
  perform (settle id worker now error n backoff) db =
      (retry_or_fail_job redact id worker now error n backoff db).1

  unfoldable pub perform_all : List Call → Db → Db
  unfolding perform
  perform_all [] db = db
  perform_all (c ∷ cs) db = perform_all cs (perform c db)

  perform-Steps : (c : Call) (db : Db) → Steps db.jobs (perform c db).jobs
  unfolding perform
  perform-Steps (claim id_le locked worker now lease) db =
      claim_next_job-Steps id_le locked worker now lease db
  perform-Steps (heartbeat id worker now lease n) db = heartbeat_job-Steps id worker now lease n db
  perform-Steps (complete id worker now n) db = complete_job-Steps id worker now n db
  perform-Steps (settle id worker now error n backoff) db =
      retry_or_fail_job-Steps redact now error backoff id worker n db

  pub perform_all-Steps : (cs : List Call) (db : Db) → Steps db.jobs (perform_all cs db).jobs
  unfolding perform_all
  perform_all-Steps [] db = here
  perform_all-Steps (c ∷ cs) db =
      Steps-trans (perform-Steps c db) (perform_all-Steps cs (perform c db))

pub Steps-UniqueIds : {a b : Jobs} → Steps a b → UniqueIds a → UniqueIds b
Steps-UniqueIds here u = u
Steps-UniqueIds (next {ks = ks} j j' s r st) u = write-UniqueIds j' ks (Steps-UniqueIds s u)

Steps-IsWellFormed : {a b : Jobs} → Steps a b → All IsWellFormed a → All IsWellFormed b
Steps-IsWellFormed here w = w
Steps-IsWellFormed (next {ks = ks} j j' s r st) w =
    let w' = Steps-IsWellFormed s w in
    write-All IsWellFormed j' ks (JobStep-IsWellFormed st (All-Row IsWellFormed ks j w' r)) w'

-- The row of an id, as it is found later, with its run of steps.
pub record Later (j : ProjectLifecycleJob) (id : String) (js : Jobs) : Type 0 where
  pub job : ProjectLifecycleJob
  pub found : by_id id js ≡ some job
  pub run : JobRun j job

Later-write :
    (id : String) (k k' : ProjectLifecycleJob) (js : Jobs) {j : ProjectLifecycleJob}
    → UniqueIds js
    → Row k js
    → JobStep k k'
    → Later j id js
    → Later j id (write k' js)
Later-write id k k' js {j} u r st l = elim (Bool-cases (k'.id == id)) [
  | inl same ↦ record {
    job = k';
    found = ground (arith, by_id-write id k' js, l.found);
    run = subst⁻ (ground (arith, l.found, Row-by_id js k u r, (JobStep-SameJob st).id));
  }
  | inr other ↦ record {
    job = l.job;
    found = ground (arith, by_id-write id k' js, l.found);
    run = l.run;
  }
]
  where
    subst⁻ : l.job ≡ k → JobRun j k'
    subst⁻ e = after (rw (← e) l.run) st

pub Steps-Later :
    (id : String) {a b : Jobs} (j : ProjectLifecycleJob)
    → Steps a b
    → UniqueIds a
    → by_id id a ≡ some j
    → Later j id b
Steps-Later id j here u e = record { job = j; found = e; run = start }
Steps-Later id j (next {ks = ks} k k' s r st) u e =
    Later-write id k k' ks (Steps-UniqueIds s u) r st (Steps-Later id j s u e)

module _ (redact : String → String) where
  -- Whatever calls are made, in whatever order: if every job row is well formed and ids are unique,
  -- both hold afterwards. So no job is attempted more often than `max_attempts`, a row is leased
  -- exactly while it is running, and an ended row has its end time.
  pub perform_all-IsWellFormed :
      (calls : List Call) (db : Db)
      → All IsWellFormed db.jobs
      → UniqueIds db.jobs
      → All IsWellFormed (perform_all redact calls db).jobs
        × UniqueIds (perform_all redact calls db).jobs
  perform_all-IsWellFormed calls db w u =
      let s = perform_all-Steps redact calls db in (Steps-IsWellFormed s w, Steps-UniqueIds s u)

  -- With unique ids, whatever calls are made: a job that is in the table stays there, and its row has
  -- got to its new contents by steps of the job state machine.
  pub perform_all-JobRun :
      (calls : List Call) (db : Db) (id : String) (j : ProjectLifecycleJob)
      → UniqueIds db.jobs
      → by_id id db.jobs ≡ some j
      → Later j id (perform_all redact calls db).jobs
  perform_all-JobRun calls db id j u e = Steps-Later id j (perform_all-Steps redact calls db) u e

  -- With unique ids, a job that has ended keeps its row as it is, whatever calls are made.
  pub perform_all-ended :
      (calls : List Call) (db : Db) (id : String) (j : ProjectLifecycleJob)
      → UniqueIds db.jobs
      → by_id id db.jobs ≡ some j
      → is_ended j.status ≡ true
      → by_id id (perform_all redact calls db).jobs ≡ some j
  perform_all-ended calls db id j u e h =
      let l = perform_all-JobRun calls db id j u e in rw (JobRun-ended l.run h) at l.found

  Later-Stale :
      (id worker : String) (n now : ℕ) (db : Db) {j : ProjectLifecycleJob}
      → n < j.attempt
      → Later j id db.jobs
      → Stale id worker n now db
  unfolding owns
  Later-Stale id worker n now db h l k f = ground (arith, JobRun-attempt l.run, l.found)

  -- Fencing. With unique ids: once the attempt counter of a job has passed `n`, then after any further
  -- calls a worker that still holds attempt `n` is refused by heartbeat (of a positive lease),
  -- completion and failure alike, at any time, and the tables stay as they are.
  pub perform_all-fenced :
      (calls : List Call) (db : Db) (id worker : String) (n now lease : ℕ) (error : Raised)
      (backoff : Backoff) (j : ProjectLifecycleJob)
      → UniqueIds db.jobs
      → by_id id db.jobs ≡ some j
      → n < j.attempt
      → 0 < lease
      → let db' = perform_all redact calls db in
        (heartbeat_job id worker now lease n db' ≡ (raised not_owner, db'))
        × (complete_job id worker now n db' ≡ (raised not_owner, db'))
        × (retry_or_fail_job redact id worker now error n backoff db' ≡ (raised not_owner, db'))
  perform_all-fenced calls db id worker n now lease error backoff j u e lt pos =
      let db' = perform_all redact calls db in
      let stale = Later-Stale id worker n now db' lt (perform_all-JobRun calls db id j u e) in
      (
        heartbeat_job-Stale id worker n now lease db' pos stale,
        complete_job-Stale id worker n now db' stale,
        retry_or_fail_job-Stale redact id worker n now error backoff db' stale,
      )
