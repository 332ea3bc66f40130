-- ===== src/Queue/Claim.antt =====
-- claim_next_job: the query for one due job, and the loop that first fails spent ones.
use conductor_data_platform.Prelude.{
  ℕ, zero, suc, ◌+◌, String, Bool, true, false, not, ◌&&◌, ◌||◌, Option, none, some, List, [], ◌∷◌,
  leb, ltb, eqb, if◌then◌else◌, is_empty, keep_rows, length,
}
use conductor_data_platform.Models.{
  Db, ProjectLifecycleJob, running, is_running, is_waiting, save_job,
}
use conductor_data_platform.Lifecycle.{value_error}
use conductor_data_platform.Outcome.{Outcome, returned, raised}
use conductor_data_platform.Queue.Defs.{ClaimedJob, fail_job, not_positive}

abbrev pub lapsed : Option ℕ → ℕ → Bool
lapsed none now = false
lapsed (some t) now = leb t now

-- The WHERE clause: a waiting job whose time has come, or a running one whose lease is over.
abbrev pub is_due : ℕ → ProjectLifecycleJob → Bool
is_due now j =
    (is_waiting j.status && leb j.available_at now)
    || (is_running j.status && lapsed j.lock_expires_at now)

module _ (id_le : String → String → Bool) where
  -- ORDER BY available_at, created_at, id
  abbrev pub precedes : ProjectLifecycleJob → ProjectLifecycleJob → Bool
  precedes j k =
      if ltb j.available_at k.available_at
      then true
      else if ltb k.available_at j.available_at
      then false
      else if ltb j.created_at k.created_at
      then true
      else if ltb k.created_at j.created_at
      then false
      else id_le j.id k.id

  -- LIMIT 1
  unfoldable pub first_row : List ProjectLifecycleJob → Option ProjectLifecycleJob
  first_row [] = none
  first_row (j ∷ js) = elim (first_row js) [
    | none ↦ some j
    | some k ↦ some (if precedes j k then j else k)
  ]

  -- FOR UPDATE SKIP LOCKED: rows that another transaction has locked are passed over.
  unfoldable pub select_due :
      (String → Bool) → ℕ → List ProjectLifecycleJob → Option ProjectLifecycleJob
  unfolding first_row
  select_due locked now jobs = first_row (keep_rows (λ j. is_due now j && not (locked j.id)) jobs)

-- `started_at` is set once.
abbrev pub or_now : Option ℕ → ℕ → Option ℕ
or_now none now = some now
or_now (some t) now = some t

abbrev pub claimed_row : String → ℕ → ℕ → ProjectLifecycleJob → ProjectLifecycleJob
claimed_row worker_id now lease job = record job {
  status = running;
  attempt = job.attempt + 1;
  locked_by = some worker_id;
  lock_expires_at = some (now + lease);
  heartbeat_at = some now;
  started_at = or_now job.started_at now;
  finished_at = none;
}

-- `_claimed_job`, on the row that has just been given its worker.
abbrev pub claimed_job : String → ProjectLifecycleJob → ClaimedJob
claimed_job worker_id job = record {
  id = job.id;
  project_id = job.project_id;
  operation = job.operation;
  attempt = job.attempt;
  max_attempts = job.max_attempts;
  worker_id = worker_id;
  correlation_id = job.correlation_id;
  requested_by = job.requested_by;
}

-- `job.status is RUNNING and job.attempt >= job.max_attempts`
abbrev pub is_spent : ProjectLifecycleJob → Bool
is_spent job = is_running job.status && leb job.max_attempts job.attempt

abbrev pub expired_code : String
expired_code = "WORKER_LEASE_EXPIRED"

abbrev pub expired_message : String
expired_message = "Worker lease expired after the final permitted attempt"

-- `none` is a loop that has run out of fuel.
abbrev pub ClaimResult : Type 0
ClaimResult = Option (Outcome (Option ClaimedJob))

module _ (id_le : String → String → Bool) (locked : String → Bool) (worker_id : String)
    (now lease : ℕ) where
  abbrev pub claim_row : ProjectLifecycleJob → Db → ClaimResult × Db
  claim_row job db =
      let job' = claimed_row worker_id now lease job in
      (some (returned (some (claimed_job worker_id job'))), save_job job' db)

  -- One round of `while True` for each unit of fuel. A raise undoes its own round only.
  unfoldable pub claim_loop : ℕ → Db → ClaimResult × Db
  claim_loop zero db = (none, db)
  claim_loop (suc fuel) db = elim (select_due id_le locked now db.jobs) [
    | none ↦ (some (returned none), db)
    | some job ↦ elim (is_spent job) [
      | false ↦ claim_row job db
      | true ↦
          let (r, db') = fail_job now expired_code expired_message job db in
          elim r [ raised e ↦ (some (raised e), db) | returned _ ↦ claim_loop fuel db' ]
    ]
  ]

  unfoldable pub claim_next_job : Db → ClaimResult × Db
  claim_next_job db =
      if is_empty worker_id
      then (some (raised (value_error "worker_id must not be empty")), db)
      else if eqb lease 0
      then (some (raised not_positive), db)
      else claim_loop (suc (length db.jobs)) db
