-- ===== src/Operations/Rows.antt =====
-- Rows appended to a table: what the queries find then.
use conductor_data_platform.Prelude.{
  ◌≡◌, refl, Bool, true, false, none, some, List, [], ◌∷◌, ◌++◌, arith, ◌==◌, find_row, any_row,
}
use conductor_data_platform.Models.{Project, ProjectLifecycleJob}
use conductor_data_platform.Operations.Tables.{project_conflicts, job_conflicts}

module _ {A : Type 0} (p : A → Bool) where
  pub find_row-append_none :
      (xs : List A) (x : A) → find_row p xs ≡ none → p x ≡ true → find_row p (xs ++ x ∷ []) ≡ some x
  find_row-append_none [] x h t = ground arith
  find_row-append_none (y ∷ ys) x h t = ground (arith, find_row-append_none ys x)

  pub find_row-append_some :
      (xs : List A) (x y : A) → find_row p xs ≡ some y → find_row p (xs ++ x ∷ []) ≡ some y
  find_row-append_some [] x y h = cc
  find_row-append_some (z ∷ zs) x y h = ground (arith, find_row-append_some zs x y)

  pub any_row-append : (xs : List A) (x : A) → p x ≡ true → any_row p (xs ++ x ∷ []) ≡ true
  any_row-append [] x t = ground arith
  any_row-append (y ∷ ys) x t = ground (arith, any_row-append ys x t)

pub no_slug :
    (p : Project) (ps : List Project)
    → any_row (project_conflicts p) ps ≡ false
    → (find_row (λ q. q.slug == p.slug) ps ≡ none) × (find_row (λ q. q.id == p.id) ps ≡ none)
no_slug p [] h = (refl, refl)
no_slug p (q ∷ qs) h = ground (arith, no_slug p qs)

pub no_key :
    (j : ProjectLifecycleJob) (js : List ProjectLifecycleJob)
    → any_row (job_conflicts j) js ≡ false
    → find_row (λ k. k.idempotency_key == j.idempotency_key) js ≡ none
no_key j [] h = refl
no_key j (k ∷ ks) h = ground (arith, no_key j ks)
