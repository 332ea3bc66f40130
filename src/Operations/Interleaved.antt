-- ===== src/Operations/Interleaved.antt =====
-- Requests and the calls of workers in any order, one inside another's window.
use conductor_data_platform.Prelude.{
  ℕ, String, ◌≡◌, refl, inl, inr, true, false, ◌==◌, Option, [], ◌∷◌, arith, All,
}
use mathlib.Core.Path.{subst}
use conductor_data_platform.Models.{Db, User, ProjectLifecycleJob, is_active_status}
use conductor_data_platform.Queue.Rows.{Jobs, write, Row, All-Row, write-All}
use conductor_data_platform.Queue.JobStep.{SameJob, JobStep-SameJob, JobStep-active}
use conductor_data_platform.Queue.Refinement.{Steps, here, next}
use conductor_data_platform.Queue.Schedule.{Call, perform_all, perform_all-Steps}
use conductor_data_platform.Operations.Create.{Generated, CreateRequest, create_project_operation}
use conductor_data_platform.Operations.Provision.{RetryGenerated, retry_project_provision}
use conductor_data_platform.Operations.Deletion.{request_project_deletion}
use conductor_data_platform.Operations.Active.{AreApart, IsExclusive, requests-IsExclusive}

-- What happens to the tables: calls of workers and requests, each followed by the rest. `meanwhile` commits
-- between the reads and the flush of a request.
pub data Events : Type 0 where
  quiet : Events
  called : (call : Call) (rest : Events) → Events
  created : (g : Generated) (r : CreateRequest) (rest : Events) → Events
  retried :
      (meanwhile : Events) (g : RetryGenerated) (user : User) (slug operation_id key : String)
      (rest : Events)
      → Events
  deleted :
      (meanwhile : Events) (g : RetryGenerated) (updated_at : ℕ) (actor : User)
      (slug confirmation key : String) (token : Option String) (rest : Events)
      → Events

-- A row that steps stays apart from the others.
module _ (j j' : ProjectLifecycleJob) (same : SameJob j j')
    (active : is_active_status j.status ≡ true) where
  apart_before : (k : ProjectLifecycleJob) → AreApart j k → AreApart j' k
  apart_before k (ids, keys, both) = (
    (λ e. ids (ground (arith, same.id))),
    (λ e. keys (ground (arith, same.idempotency_key))),
    λ (_, other, e). both (active, other, ground (arith, same.project_id)),
  )

  apart_after : (k : ProjectLifecycleJob) → AreApart k j → AreApart k j'
  apart_after k (ids, keys, both) = (
    (λ e. ids (ground (arith, same.id))),
    (λ e. keys (ground (arith, same.idempotency_key))),
    λ (other, _, e). both (other, active, ground (arith, same.project_id)),
  )

  All-apart_before : (ks : Jobs) → All (AreApart j) ks → All (AreApart j') ks
  All-apart_before [] h = tt
  All-apart_before (k ∷ ks) (h, hs) = (apart_before k h, All-apart_before ks hs)

  write_other : (ks : Jobs) → All (AreApart j') ks → write j' ks ≡ ks
  write_other [] h = refl
  write_other (k ∷ ks) ((ids, _, _), hs) = ground (arith, write_other ks hs)

  write-IsExclusive : (ks : Jobs) → Row j ks → IsExclusive ks → IsExclusive (write j' ks)
  write-IsExclusive [] r h = absurd r
  write-IsExclusive (x ∷ xs) (inl e) (h, hs) =
      let here_is : (x.id == j'.id) ≡ true = ground (arith, same.id) in
      let others = All-apart_before xs (subst (λ y. All (AreApart y) xs) e h) in
      rw here_is (rw (write_other xs others) (others, hs))
  write-IsExclusive (x ∷ xs) (inr r) (h, hs) =
      let apart = All-Row (AreApart x) xs j h r in
      let elsewhere : (x.id == j'.id) ≡ false = ground (arith, same.id, apart.0) in
      rw elsewhere (write-All (AreApart x) j' xs (apart_after x apart) h, write-IsExclusive xs r hs)

Steps-IsExclusive : {a b : Jobs} → Steps a b → IsExclusive a → IsExclusive b
Steps-IsExclusive here h = h
Steps-IsExclusive (next {ks = ks} j j' s r st) h =
    write-IsExclusive j j' (JobStep-SameJob st) (JobStep-active st) ks r (Steps-IsExclusive s h)

module _ (sha256 redact : String → String) (encrypt : String → Option String)
    (domain : String) where
  unfoldable pub happen : Events → Db → Db
  happen quiet db = db
  happen (called call rest) db = happen rest (perform_all redact (call ∷ []) db)
  happen (created g r rest) db =
      happen rest (create_project_operation sha256 encrypt domain g r db).1
  happen (retried meanwhile g user slug operation_id key rest) db =
      happen rest
        (retry_project_provision sha256 (happen meanwhile) g user slug operation_id key db).1
  happen (deleted meanwhile g updated_at actor slug confirmation key token rest) db =
      happen rest
        (request_project_deletion sha256 (happen meanwhile) g updated_at actor slug confirmation key
          token db).1

  -- Whatever happens: creations, retries and deletions in any order, on all their paths, with the calls of
  -- any workers between them and, between the reads and the flush of a retry or a deletion, again whatever
  -- may happen. If no two job rows share an id or an idempotency key and no two active ones a project, that
  -- holds afterwards too: a project never has two active jobs.
  pub happen-IsExclusive :
      (events : Events) (db : Db) → IsExclusive db.jobs → IsExclusive (happen events db).jobs
  unfolding happen
  happen-IsExclusive quiet db h = h
  happen-IsExclusive (called call rest) db h =
      happen-IsExclusive rest (perform_all redact (call ∷ []) db)
        (Steps-IsExclusive (perform_all-Steps redact (call ∷ []) db) h)
  happen-IsExclusive (created g r rest) db h =
      happen-IsExclusive rest _ ((requests-IsExclusive sha256 encrypt domain (λ s. s) db h h).0 g r)
  happen-IsExclusive (retried meanwhile g user slug operation_id key rest) db h =
      happen-IsExclusive rest _ (
        (requests-IsExclusive sha256 encrypt domain (happen meanwhile) db h
            (happen-IsExclusive meanwhile db h)).1
          g user slug operation_id key)
  happen-IsExclusive (deleted meanwhile g updated_at actor slug confirmation key token rest) db h =
      happen-IsExclusive rest _ (
        (requests-IsExclusive sha256 encrypt domain (happen meanwhile) db h
            (happen-IsExclusive meanwhile db h)).2
          g updated_at actor slug confirmation key token)
