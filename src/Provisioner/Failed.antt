-- ===== src/Provisioner/Failed.antt =====
-- What an attempt that raises leaves of the projects.
use conductor_data_platform.Prelude.{
  ℕ, String, ◌≡◌, refl, sym, ap, ◌∙◌, ◌⊎◌, inl, inr, List, [], ◌∷◌, arith, Bool-cases, All,
}
use conductor_data_platform.Models.{Db, Project, ProjectDeployment}
use conductor_data_platform.Lifecycle.{Raised}
use conductor_data_platform.Outcome.{Outcome, returned, raised, Transaction, ◌>>=◌}
use conductor_data_platform.Queue.{ClaimedJob}
use conductor_data_platform.Provisioner.Resources.{
  ObservedComposeResource, Observation, upsert_resource, upsert_all, record_observed,
  mark_missing_required_services, observation_of, init_completed,
}
use conductor_data_platform.Provisioner.Saga

-- A transaction that leaves the projects table alone.
abbrev pub KeepsProjects : {A : Type 0} → Transaction A → Type 0
KeepsProjects m = (db : Db) → (m db).1.projects ≡ db.projects

module _ {A B : Type 0} (m : Transaction A) (f : A → Transaction B) where
  bind_raised :
      (r : Raised) (db db' : Db)
      → (m >>= f) db ≡ (raised r, db')
      → (m db ≡ (raised r, db'))
        ⊎ ((a : A) × (mid : Db) × (m db ≡ (returned a, mid)) × (f a mid ≡ (raised r, db')))
  bind_raised r db db' h = go (m db) refl
    where
      go :
          (x : Outcome A × Db)
          → m db ≡ x
          → (m db ≡ (raised r, db'))
            ⊎ ((a : A) × (mid : Db) × (m db ≡ (returned a, mid)) × (f a mid ≡ (raised r, db')))
      go (returned a, mid) e = inr (a, mid, e, ground (arith, e))
      go (raised q, mid) e = inl (ground (arith, e))

  bind-KeepsProjects : KeepsProjects m → ((a : A) → KeepsProjects (f a)) → KeepsProjects (m >>= f)
  bind-KeepsProjects k l db = go (m db) refl
    where
      go : (x : Outcome A × Db) → m db ≡ x → ((m >>= f) db).1.projects ≡ db.projects
      go (returned a, mid) e = ground (arith, e, k db, l a mid)
      go (raised r, mid) e = ground (arith, e, k db)

module _ (s : Saga.Surroundings) (claimed : ClaimedJob) where
  set_step-KeepsProjects :
      (now : ℕ) (step : String) → KeepsProjects (Saga.set_step claimed now step)
  unfolding Saga.set_step Saga.locked_owned_job
  set_step-KeepsProjects now step db = ground arith

  load_claimed_state-KeepsProjects : (now : ℕ) → KeepsProjects (Saga.load_claimed_state claimed now)
  unfolding Saga.load_claimed_state Saga.load_desired_state Saga.locked_owned_job
  load_claimed_state-KeepsProjects now db = ground arith

  -- What other processes commit before the fences leaves the projects alone.
  abbrev pub OthersKeepProjects : Type 0
  OthersKeepProjects = (step : String) (db : Db) → (s.others step db).projects ≡ db.projects

  enter_step-KeepsProjects :
      OthersKeepProjects → (step : String) → KeepsProjects (Saga.enter_step s claimed step)
  unfolding Saga.enter_step
  enter_step-KeepsProjects k step db =
      set_step-KeepsProjects (s.clock step) step (s.others step db) ∙ k step db

  write-KeepsProjects :
      (f : Db → Db) → ((db : Db) → (f db).projects ≡ db.projects) → KeepsProjects (Saga.write f)
  write-KeepsProjects f k = k

  ask-KeepsProjects : {A : Type 0} (answer : Outcome A) → KeepsProjects (Saga.ask answer)
  ask-KeepsProjects answer db = refl

  upsert_all_projects :
      (d : ProjectDeployment) (rs : List ObservedComposeResource) (db : Db)
      → (upsert_all d rs db).projects ≡ db.projects
  unfolding upsert_resource
  upsert_all_projects d [] db = refl
  upsert_all_projects d (r ∷ rs) db =
      upsert_all_projects d rs (upsert_resource d (observation_of r) db)

  record_inspected-KeepsProjects :
      (d : ProjectDeployment) (o : Outcome (List ObservedComposeResource))
      → KeepsProjects (Saga.record_inspected s claimed d o)
  unfolding Saga.record_inspected record_observed mark_missing_required_services
  record_inspected-KeepsProjects d (returned rs) db = upsert_all_projects d rs db
  record_inspected-KeepsProjects d (raised e) db = refl

  record_step-KeepsProjects :
      {A : Type 0} (k : OthersKeepProjects) (step : String) (answer : Outcome A)
      (observation : A → Observation) (d : ProjectDeployment)
      → KeepsProjects (Saga.record_step s claimed step answer observation d)
  unfolding Saga.record_step upsert_resource
  record_step-KeepsProjects k step answer observation d =
      bind-KeepsProjects (Saga.◌>>◌ (Saga.enter_step s claimed step) (Saga.ask answer))
        (λ a. Saga.write (upsert_resource d (observation a)))
        (bind-KeepsProjects (Saga.enter_step s claimed step) (λ _. Saga.ask answer)
          (enter_step-KeepsProjects k step) (λ _. ask-KeepsProjects answer))
        (λ a db. refl)

  in_order-KeepsProjects :
      (ts : List (Transaction (Unit {0}))) → All KeepsProjects ts → KeepsProjects (Saga.in_order ts)
  unfolding Saga.in_order
  in_order-KeepsProjects [] k db = refl
  in_order-KeepsProjects (t ∷ ts) k db =
      bind-KeepsProjects t (λ _. Saga.in_order ts) k.0 (λ _. in_order-KeepsProjects ts k.1) db

  prepare-KeepsProjects :
      OthersKeepProjects → (d : ProjectDeployment) → KeepsProjects (Saga.prepare s claimed d)
  unfolding Saga.prepare
  prepare-KeepsProjects k d = in_order-KeepsProjects _ (
    record_step-KeepsProjects k "database_role" s.role Saga.role_observation d,
    (
      record_step-KeepsProjects k "database" s.database Saga.database_observation d,
      (
        record_step-KeepsProjects k "configuration" s.artifact Saga.artifact_observation d,
        (
          enter_step-KeepsProjects k "runtime_image",
          (ask-KeepsProjects s.image, (ask-KeepsProjects s.validate, tt)),
        ),
      ),
    ),
  )

  inspected-KeepsProjects :
      (d : ProjectDeployment) (o : Outcome (List ObservedComposeResource))
      → KeepsProjects
          (Saga.◌>>◌ (Saga.record_inspected s claimed d o) (Saga.ask (returned (tt {0}))))
  inspected-KeepsProjects d o =
      bind-KeepsProjects (Saga.record_inspected s claimed d o) (λ _. Saga.ask (returned tt))
        (record_inspected-KeepsProjects d o) (λ _ db. refl)

  run_init_once-KeepsProjects :
      (d : ProjectDeployment) → KeepsProjects (Saga.run_init_once s claimed d)
  unfolding Saga.run_init_once
  run_init_once-KeepsProjects d db = elim (Bool-cases (init_completed d db)) [
    | inl e ↦ ground (arith, e)
    | inr e ↦
        let ran =
          bind-KeepsProjects
            (Saga.◌>>◌ (Saga.ask s.init) (Saga.record_inspected s claimed d s.after_init))
            (λ _. Saga.ask (returned tt))
            (bind-KeepsProjects (Saga.ask s.init)
              (λ _. Saga.record_inspected s claimed d s.after_init) (ask-KeepsProjects s.init)
              (λ _. record_inspected-KeepsProjects d s.after_init))
            (λ _ db. refl) db in
        rw e ran
  ]

  bring_up-KeepsProjects :
      OthersKeepProjects → (d : ProjectDeployment) → KeepsProjects (Saga.bring_up s claimed d)
  unfolding Saga.bring_up Saga.start_up
  bring_up-KeepsProjects k d =
      bind-KeepsProjects (Saga.start_up s claimed d)
        (λ _. Saga.record_inspected s claimed d s.after_ready)
        (in_order-KeepsProjects _ (
          enter_step-KeepsProjects k "init",
          (
            run_init_once-KeepsProjects d,
            (
              enter_step-KeepsProjects k "services",
              (
                ask-KeepsProjects s.start,
                (
                  inspected-KeepsProjects d s.after_start,
                  (
                    enter_step-KeepsProjects k "airflow_readiness",
                    (ask-KeepsProjects s.wait_ready, tt),
                  ),
                ),
              ),
            ),
          ),
        ))
        (λ _. record_inspected-KeepsProjects d s.after_ready)

  unpublished :
      (db db' : Db) (r : Raised)
      → OthersKeepProjects
      → Saga.publish s claimed db ≡ (raised r, db')
      → db'.projects ≡ db.projects
  unfolding Saga.publish Saga.publish_ready Saga.publish_project Saga.locked_owned_job
  unpublished db db' r k h = ground (arith, k "ready" db)

  load-KeepsProjects : OthersKeepProjects → KeepsProjects (Saga.load s claimed)
  unfolding Saga.load
  load-KeepsProjects k db =
      load_claimed_state-KeepsProjects (s.clock "load") (s.others "load" db) ∙ k "load" db

  kept_at :
      {A : Type 0} (m : Transaction A)
      → KeepsProjects m
      → (x : Outcome A) (db db' : Db) → m db ≡ (x, db')
      → db'.projects ≡ db.projects
  kept_at m k x db db' e = ap (λ y. y.1.projects) (sym e) ∙ k db

  raised_after_load :
      (p : Project) (d : ProjectDeployment) (db db' : Db) (r : Raised)
      → OthersKeepProjects
      → (Saga.◌>>◌ (Saga.prepare s claimed d) (Saga.bring_up s claimed d) >>= λ observed.
            Saga.◌>>◌ (Saga.require_running s claimed observed) (Saga.publish s claimed))
          db
        ≡ (raised r, db')
      → db'.projects ≡ db.projects
  raised_after_load p d db db' r k h =
      let up = Saga.◌>>◌ (Saga.prepare s claimed d) (Saga.bring_up s claimed d) in
      let kept : KeepsProjects up =
        bind-KeepsProjects (Saga.prepare s claimed d) (λ _. Saga.bring_up s claimed d)
          (prepare-KeepsProjects k d) (λ _. bring_up-KeepsProjects k d) in
      elim (bind_raised up
        (λ observed. Saga.◌>>◌ (Saga.require_running s claimed observed) (Saga.publish s claimed)) r
        db db' h) [
          | inl e ↦ kept_at up kept (raised r) db db' e
          | inr (observed, mid, e, f) ↦
              elim (bind_raised (Saga.require_running s claimed observed)
                (λ _. Saga.publish s claimed) r mid db' f) [
                  | inl g ↦
                      kept_at (Saga.require_running s claimed observed) (λ db. refl) (raised r) mid
                        db' g
                      ∙ kept_at up kept (returned observed) db mid e
                  | inr (_, last, g, j) ↦
                      unpublished last db' r k j
                      ∙ kept_at (Saga.require_running s claimed observed) (λ db. refl) (returned tt)
                          mid last g
                      ∙ kept_at up kept (returned observed) db mid e
                ]
        ]

  -- A provisioning that raises, in whichever step, leaves the status and all else of every project as it
  -- was, if what other processes commit before its fences does.
  pub provision-KeepsProjects :
      (db db' : Db) (r : Raised)
      → OthersKeepProjects
      → Saga.provision s claimed db ≡ (raised r, db')
      → db'.projects ≡ db.projects
  unfolding Saga.provision
  provision-KeepsProjects db db' r k h =
      let rest : Project × ProjectDeployment → Transaction (Unit {0}) = λ (project, d).
        Saga.◌>>◌ (Saga.prepare s claimed d) (Saga.bring_up s claimed d) >>= λ observed.
        Saga.◌>>◌ (Saga.require_running s claimed observed) (Saga.publish s claimed) in
      elim (bind_raised (Saga.load s claimed) rest r db db' h) [
        | inl e ↦ kept_at (Saga.load s claimed) (load-KeepsProjects k) (raised r) db db' e
        | inr ((p, d), loaded, e, f) ↦
            raised_after_load p d loaded db' r k f
            ∙ kept_at (Saga.load s claimed) (load-KeepsProjects k) (returned (p, d)) db loaded e
      ]
