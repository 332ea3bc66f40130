-- ===== src/Queue/Order.antt =====
-- What the claim takes: it always ends, it takes a due job with the earliest schedule, and it
-- leaves every live lease alone.
use conductor_data_platform.Prelude.{
  sym, ap, ℕ, suc, ◌<◌, String, ◌≡◌, ◌≢◌, refl, ◌⊎◌, inl, inr, Bool, true, false, none, some, arith,
  eqb, if◌then◌else◌, is_empty, length,
}
use conductor_data_platform.Models.{Db, ProjectLifecycleJob, is_running}
use conductor_data_platform.Lifecycle.{value_error}
use conductor_data_platform.Outcome.{returned, raised}
use conductor_data_platform.Queue.Defs.{failed_row, fail_job, ClaimedJob, not_positive}
use conductor_data_platform.Queue.Claim.{
  is_due, is_spent, claim_loop, claim_next_job, claim_row, expired_code, expired_message,
  ClaimResult, claimed_row, claimed_job,
}
use conductor_data_platform.Queue.Rows.{
  Jobs, by_id, Row, UniqueIds, Row-write, Row-write_ne, Row-unique, by_id-write_self,
  write-UniqueIds,
}
use conductor_data_platform.Queue.Loop.{Candidate, claim_rule, jobs-fail_job}
use conductor_data_platform.Queue.Least.{
  running_rows, running_rows-le, write-lt, ScheduleLe, select_due-least,
}

module _ (id_le : String → String → Bool) (locked : String → Bool) (worker : String)
    (now lease : ℕ) where
  claim_loop_total :
      (fuel : ℕ) (db : Db)
      → running_rows db.jobs < fuel
      → (claim_loop id_le locked worker now lease fuel db).0 ≢ none
  claim_loop_total =
      claim_rule id_le locked worker now lease (λ f db r. running_rows db.jobs < f → r.0 ≢ none)
        (record {
          out = λ db h. absurd (omega arith);
          idle = λ f db e h. cc;
          got = λ f db j c h. cc;
          stuck = λ f db j x c e h. cc;
          again = λ f db j r c e ih h. ih (fewer f db j c h);
        })
    where
      fewer :
          (f : ℕ) (db : Db) (j : ProjectLifecycleJob)
          → Candidate id_le locked now true db.jobs j
          → running_rows db.jobs < suc f
          → running_rows (fail_job now expired_code expired_message j db).1.jobs < f
      fewer f db j c h = rw (jobs-fail_job now expired_code expired_message j db) (
          let run : is_running j.status ≡ true = ground (arith, c.spent) in
          omega (
            arith,
            write-lt j (failed_row now expired_code expired_message j) db.jobs refl refl c.row run,
          ))

  -- The checks of the arguments, then the loop.
  abbrev claim_guard : Bool → Bool → Db → ClaimResult × Db
  claim_guard a b db =
      if a
      then (some (raised (value_error "worker_id must not be empty")), db)
      else if b
      then (some (raised not_positive), db)
      else claim_loop id_le locked worker now lease (suc (length db.jobs)) db

  -- The loop of a claim ends: the fuel of one round more than there are jobs is enough, whatever the
  -- tables hold and whatever rows are locked.
  pub claim_next_job_total : (db : Db) → (claim_next_job id_le locked worker now lease db).0 ≢ none
  unfolding claim_next_job
  claim_next_job_total db =
      ground
        (arith, claim_loop_total (suc (length db.jobs)) db (omega (arith, running_rows-le db.jobs)))

  -- A row that may be claimed: due, not locked elsewhere, and with attempts left.
  abbrev pub IsClaimable : ProjectLifecycleJob → Type 0
  IsClaimable k = (is_due now k ≡ true) × (locked k.id ≡ false) × (is_spent k ≡ false)

  expire_UniqueIds :
      (j : ProjectLifecycleJob) (db : Db)
      → UniqueIds db.jobs
      → UniqueIds (fail_job now expired_code expired_message j db).1.jobs
  expire_UniqueIds j db u =
      rw (jobs-fail_job now expired_code expired_message j db) (write-UniqueIds _ db.jobs u)

  -- Failing a spent row leaves the other rows.
  expire_keeps :
      (j k : ProjectLifecycleJob) (db : Db)
      → UniqueIds db.jobs
      → Row j db.jobs
      → Row k db.jobs
      → j ≢ k
      → Row k (fail_job now expired_code expired_message j db).1.jobs
  expire_keeps j k db u r s ne = rw (jobs-fail_job now expired_code expired_message j db) (
      Row-write_ne (failed_row now expired_code expired_message j) k db.jobs
        (λ e. ne (Row-unique j k db.jobs u r s (sym e))) s)

  -- A due row after the failure of a spent one was there before.
  expire_back :
      (j k : ProjectLifecycleJob) (db : Db)
      → is_due now k ≡ true
      → Row k (fail_job now expired_code expired_message j db).1.jobs
      → Row k db.jobs
  expire_back j k db d r = go (
      Row-write (failed_row now expired_code expired_message j) k db.jobs
        (rw (jobs-fail_job now expired_code expired_message j db) at r))
    where
      go : (failed_row now expired_code expired_message j ≡ k) ⊎ Row k db.jobs → Row k db.jobs
      go (inl e) = absurd (ground arith)
      go (inr s) = s

  -- The row that a claim has taken, before and after.
  pub record Taken (c : ClaimedJob) (k : ProjectLifecycleJob) (js js' : Jobs) : Type 0 where
    pub job : ProjectLifecycleJob
    pub row : Row job js
    pub claimable : IsClaimable job
    pub first : ScheduleLe job k
    pub handed : c ≡ claimed_job worker (claimed_row worker now lease job)
    pub stored : by_id c.id js' ≡ some (claimed_row worker now lease job)

  abbrev TakesFirst : ℕ → Db → ClaimResult × Db → Type 0
  TakesFirst _ db r =
      (c : ClaimedJob) (k : ProjectLifecycleJob)
      → UniqueIds db.jobs
      → Row k db.jobs
      → IsClaimable k
      → r.0 ≡ some (returned (some c))
      → Taken c k db.jobs r.1.jobs

  claim_loop_first :
      (fuel : ℕ) (db : Db) → TakesFirst fuel db (claim_loop id_le locked worker now lease fuel db)
  claim_loop_first = claim_rule id_le locked worker now lease TakesFirst (record {
    out = λ db c k u r f e. cc;
    idle = λ f0 db e0 c k u r f e. cc;
    got = taken;
    stuck = λ f0 db j x d e0 c k u r f e. cc;
    again = later;
  })
    where
      taken :
          (f : ℕ) (db : Db) (j : ProjectLifecycleJob)
          → Candidate id_le locked now false db.jobs j
          → TakesFirst f db (claim_row id_le locked worker now lease j db)
      taken f db j d c k u r m e = record {
        job = j;
        row = d.row;
        claimable = (d.due, d.free, d.spent);
        first = select_due-least id_le locked now db.jobs j k d.chosen r m.0 m.1;
        handed = ground arith;
        stored =
            ground
              (arith, by_id-write_self j (claimed_row worker now lease j) db.jobs u d.row refl);
      }

      later :
          (f : ℕ) (db : Db) (j : ProjectLifecycleJob) (r : ClaimResult × Db)
          → Candidate id_le locked now true db.jobs j
          → (fail_job now expired_code expired_message j db).0 ≡ returned tt
          → TakesFirst f (fail_job now expired_code expired_message j db).1 r
          → TakesFirst (suc f) db r
      later f db j r d ok ih c k u row m e =
          let t =
            ih c k (expire_UniqueIds j db u)
              (expire_keeps j k db u d.row row
                (λ same. absurd (ground (arith, d.spent, ap is_spent same))))
              m e in
          record {
            job = t.job;
            row = expire_back j t.job db t.claimable.0 t.row;
            claimable = t.claimable;
            first = t.first;
            handed = t.handed;
            stored = t.stored;
          }

  -- With unique ids, if a claim hands out a job, then for any row that could be claimed: the job was
  -- itself claimable, was scheduled no later by availability and creation, is handed out as a running
  -- attempt one higher than before, and its stored row has this worker, a lease from now and is running.
  pub claim_next_job-first :
      (db : Db) (c : ClaimedJob) (k : ProjectLifecycleJob)
      → UniqueIds db.jobs
      → Row k db.jobs
      → IsClaimable k
      → (claim_next_job id_le locked worker now lease db).0 ≡ some (returned (some c))
      → Taken c k db.jobs (claim_next_job id_le locked worker now lease db).1.jobs
  unfolding claim_next_job
  claim_next_job-first db c k u r m e = go (is_empty worker) (eqb lease 0) e
    where
      go :
          (a b : Bool)
          → (claim_guard a b db).0 ≡ some (returned (some c))
          → Taken c k db.jobs (claim_guard a b db).1.jobs
      go true b e = cc
      go false true e = cc
      go false false e = claim_loop_first (suc (length db.jobs)) db c k u r m e

  Untouched : ProjectLifecycleJob → ℕ → Db → ClaimResult × Db → Type 0
  Untouched k _ db r = UniqueIds db.jobs → Row k db.jobs → Row k r.1.jobs

  claim_loop_skips :
      (k : ProjectLifecycleJob)
      → (is_due now k ≡ false) ⊎ (locked k.id ≡ true)
      → (fuel : ℕ) (db : Db)
      → Untouched k fuel db (claim_loop id_le locked worker now lease fuel db)
  unfolding Untouched
  claim_loop_skips k h = claim_rule id_le locked worker now lease (Untouched k) (record {
    out = λ db u r. r;
    idle = λ f db e u r. r;
    got = λ f db j d u r.
        Row-write_ne (claimed_row worker now lease j) k db.jobs
          (λ e. apart j db d.due d.free (Row-unique j k db.jobs u d.row r (sym e))) r;
    stuck = λ f db j x d e u r. r;
    again = λ f db j r d ok ih u row.
        ih (expire_UniqueIds j db u) (expire_keeps j k db u d.row row (apart j db d.due d.free));
  })
    where
      apart :
          (j : ProjectLifecycleJob) (db : Db) → is_due now j ≡ true → locked j.id ≡ false → j ≢ k
      apart j db due free e = ground (arith, h)

  -- With unique ids, a claim leaves the row of a job alone that is not due (so every live lease, every
  -- job whose time has not come and every ended job) or that another transaction has locked.
  pub claim_next_job-skips :
      (db : Db) (k : ProjectLifecycleJob)
      → UniqueIds db.jobs
      → Row k db.jobs
      → (is_due now k ≡ false) ⊎ (locked k.id ≡ true)
      → Row k (claim_next_job id_le locked worker now lease db).1.jobs
  unfolding claim_next_job Untouched
  claim_next_job-skips db k u r h = go (is_empty worker) (eqb lease 0)
    where
      go : (a b : Bool) → Row k (claim_guard a b db).1.jobs
      go true b = r
      go false true = r
      go false false = claim_loop_skips k h (suc (length db.jobs)) db u r
