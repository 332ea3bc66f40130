-- ===== src/Operations/Active.antt =====
-- The jobs table under requests: unique ids and idempotency keys, and one active job for each project.
use conductor_data_platform.Prelude.{
  ℕ, String, ◌≡◌, inl, inr, false, Option, some, List, [], ◌∷◌, ◌++◌, arith, any_row, ◌≢◌, All,
  true, none,
}
use conductor_data_platform.Models.{Db, User, ProjectLifecycleJob, is_active_status}
use conductor_data_platform.Operations.Tables.{job_conflicts}
use conductor_data_platform.Operations.Create.{Generated, CreateRequest, create_project_operation}
use conductor_data_platform.Operations.Created.{create_project_operation-IsCreated}
use conductor_data_platform.Operations.Provision.{RetryGenerated, retry_project_provision}
use conductor_data_platform.Operations.Deletion.{request_project_deletion}
use conductor_data_platform.Operations.Grants.{request_project_deletion-IsEnqueued}
use conductor_data_platform.Operations.Retried.{retry_project_provision-IsRequeued}

-- Two rows with their own ids and keys, and not both active for one project
abbrev pub AreApart : ProjectLifecycleJob → ProjectLifecycleJob → Type 0
AreApart j k =
    (j.id ≢ k.id)
    × (j.idempotency_key ≢ k.idempotency_key)
    × (¬ (
        (is_active_status j.status ≡ true)
        × (is_active_status k.status ≡ true)
        × (j.project_id ≡ k.project_id)))

-- Every two rows of the table are apart.
abbrev pub IsExclusive : List ProjectLifecycleJob → Type 0
IsExclusive [] = Unit
IsExclusive (j ∷ js) = All (AreApart j) js × IsExclusive js

conflict_free : (j k : ProjectLifecycleJob) → job_conflicts j k ≡ false → AreApart k j
conflict_free j k h =
    (λ e. absurd (ground arith), λ e. absurd (ground arith), λ e. absurd (ground arith))

apart :
    (j k : ProjectLifecycleJob) (ks : List ProjectLifecycleJob)
    → All (AreApart k) ks
    → AreApart k j
    → All (AreApart k) (ks ++ j ∷ [])
apart j k [] h e = (e, tt)
apart j k (x ∷ xs) h e = (h.0, apart j k xs h.1 e)

append-IsExclusive :
    (j : ProjectLifecycleJob) (js : List ProjectLifecycleJob)
    → any_row (job_conflicts j) js ≡ false
    → IsExclusive js
    → IsExclusive (js ++ j ∷ [])
append-IsExclusive j [] h e = (tt, tt)
append-IsExclusive j (k ∷ ks) h e = (
  apart j k ks e.0 (conflict_free j k (ground arith)),
  append-IsExclusive j ks (ground arith) e.1,
)

inserted-IsExclusive :
    (j : ProjectLifecycleJob) (js js' : List ProjectLifecycleJob)
    → js' ≡ js ++ j ∷ []
    → any_row (job_conflicts j) js ≡ false
    → IsExclusive js
    → IsExclusive js'
inserted-IsExclusive j js js' same h e = rw same (append-IsExclusive j js h e)

module _ (sha256 : String → String) (others : Db → Db) where
  -- A deletion without a token enqueues nothing.
  no_token :
      (g : RetryGenerated) (updated_at : ℕ) (actor : User) (slug confirmation key : String)
      (db : Db)
      → (request_project_deletion sha256 others g updated_at actor slug confirmation key none db).1
        ≡ others db
  unfolding request_project_deletion
  no_token g updated_at actor slug confirmation key db = ground arith

  deletion-IsExclusive :
      (g : RetryGenerated) (updated_at : ℕ) (actor : User) (slug confirmation key : String)
      (db : Db)
      → IsExclusive (others db).jobs
      → (o : Option String)
      → IsExclusive
          (request_project_deletion sha256 others g updated_at actor slug confirmation key o
            db).1.jobs
  deletion-IsExclusive g updated_at actor slug confirmation key db x none =
      rw (no_token g updated_at actor slug confirmation key db) x
  deletion-IsExclusive g updated_at actor slug confirmation key db x (some token) =
      elim (request_project_deletion-IsEnqueued sha256 others g updated_at actor slug confirmation
        key token db) [
          | inl h ↦ inserted-IsExclusive _ (others db).jobs _ h.jobs h.no_conflict x
          | inr same ↦ rw same x
        ]

-- Every request keeps the rows of the jobs table apart: every two have their own ids and their own
-- idempotency keys, and no two active ones share a project. That holds after a creation, a retry and a
-- deletion with or without a token, on all their paths.
pub requests-IsExclusive :
    (sha256 : String → String) (encrypt : String → Option String) (domain : String)
    (others : Db → Db) (db : Db)
    → IsExclusive db.jobs
    → IsExclusive (others db).jobs
    → ((g : Generated) (r : CreateRequest)
        → IsExclusive (create_project_operation sha256 encrypt domain g r db).1.jobs)
      × ((g : RetryGenerated) (user : User) (slug operation_id key : String)
          → IsExclusive
              (retry_project_provision sha256 others g user slug operation_id key db).1.jobs)
      × ((g : RetryGenerated) (updated_at : ℕ) (actor : User) (slug confirmation key : String)
            (token : Option String)
          → IsExclusive
              (request_project_deletion sha256 others g updated_at actor slug confirmation key token
                db).1.jobs)
requests-IsExclusive sha256 encrypt domain others db x x' = (
  λ g r. elim (create_project_operation-IsCreated sha256 encrypt domain g r db) [
    | inl (p, j, _, h) ↦ inserted-IsExclusive j db.jobs _ h.jobs h.no_job x
    | inr (same, _) ↦ rw same x
  ],
  λ g user slug operation_id key.
      elim (retry_project_provision-IsRequeued sha256 others g user slug operation_id key db) [
        | inl h ↦ inserted-IsExclusive _ (others db).jobs _ h.jobs h.no_conflict x'
        | inr same ↦ rw same x'
      ],
  λ g updated_at actor slug confirmation key.
      deletion-IsExclusive sha256 others g updated_at actor slug confirmation key db x',
)
