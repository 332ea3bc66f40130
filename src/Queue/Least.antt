-- ===== src/Queue/Least.antt =====
-- The running rows that a claim may still end, and the least row of the schedule.
use conductor_data_platform.Prelude.{
  ℕ, ◌≤◌, ◌<◌, String, ◌≡◌, refl, ◌⊎◌, inl, inr, Bool, true, false, not, ◌&&◌, Option, none, some,
  [], ◌∷◌, arith, if◌then◌else◌, count_rows, length,
}
use conductor_data_platform.Models.{ProjectLifecycleJob, is_running}
use conductor_data_platform.Queue.Claim.{is_due, first_row, select_due, precedes}
use conductor_data_platform.Queue.Rows.{Jobs, write, Row, Row-keep}

-- Termination: each round but the last turns a running row into a failed one.
abbrev pub running_rows : Jobs → ℕ
running_rows = count_rows (λ j. is_running j.status)

pub running_rows-le : (js : Jobs) → running_rows js ≤ length js
running_rows-le [] = omega arith
running_rows-le (j ∷ js) = ground (arith, running_rows-le js)

write-le :
    (j : ProjectLifecycleJob) (js : Jobs)
    → is_running j.status ≡ false
    → running_rows (write j js) ≤ running_rows js
write-le j [] h = omega arith
write-le j (x ∷ xs) h = ground (arith, write-le j xs h)

pub write-lt :
    (j k : ProjectLifecycleJob) (js : Jobs)
    → is_running k.status ≡ false
    → k.id ≡ j.id
    → Row j js
    → is_running j.status ≡ true
    → running_rows (write k js) < running_rows js
write-lt j k [] h e r run = absurd r
write-lt j k (x ∷ xs) h e (inl same) run = ground (arith, write-le k xs h)
write-lt j k (x ∷ xs) h e (inr r) run = ground (arith, write-lt j k xs h e r run)

abbrev pub ScheduleLe : ProjectLifecycleJob → ProjectLifecycleJob → Type 0
ScheduleLe j k =
    (j.available_at < k.available_at)
    ⊎ ((j.available_at ≡ k.available_at) × (j.created_at ≤ k.created_at))

module _ (id_le : String → String → Bool) where
  precedes-le : (j k : ProjectLifecycleJob) → precedes id_le j k ≡ true → ScheduleLe j k
  precedes-le j k h = ground arith

  not-precedes-le : (j k : ProjectLifecycleJob) → precedes id_le j k ≡ false → ScheduleLe k j
  not-precedes-le j k h = ground arith

  ScheduleLe-trans :
      (j k l : ProjectLifecycleJob) → ScheduleLe j k → ScheduleLe k l → ScheduleLe j l
  ScheduleLe-trans j k l a b = ground arith

  first_row-none : (js : Jobs) → first_row id_le js ≡ none → js ≡ []
  unfolding first_row
  first_row-none [] h = refl
  first_row-none (x ∷ xs) h = ground arith

  -- The earlier of two rows is no later than what either is no later than.
  earlier-le :
      (x m k : ProjectLifecycleJob) (b : Bool)
      → precedes id_le x m ≡ b
      → (x ≡ k) ⊎ ScheduleLe m k
      → ScheduleLe (if b then x else m) k
  earlier-le x m k true e (inl same) = rw same (inr (refl, omega arith))
  earlier-le x m k true e (inr le) = ScheduleLe-trans x m k (precedes-le x m e) le
  earlier-le x m k false e (inl same) = rw (← same) (not-precedes-le x m e)
  earlier-le x m k false e (inr le) = le

  Row-le :
      (x m k : ProjectLifecycleJob) (xs : Jobs)
      → ((r : Row k xs) → ScheduleLe m k)
      → Row k (x ∷ xs)
      → (x ≡ k) ⊎ ScheduleLe m k
  Row-le x m k xs below (inl same) = inl same
  Row-le x m k xs below (inr r) = inr (below r)

  -- The first row is no later than any other.
  first_row-least :
      (js : Jobs) (j k : ProjectLifecycleJob)
      → first_row id_le js ≡ some j
      → Row k js
      → ScheduleLe j k
  unfolding first_row
  first_row-least [] j k h r = absurd r
  first_row-least (x ∷ xs) j k h r = go (first_row id_le xs) refl (first_row-least xs) h
    where
      go :
          (o : Option ProjectLifecycleJob)
          → first_row id_le xs ≡ o
          → ((m l : ProjectLifecycleJob) → first_row id_le xs ≡ some m → Row l xs → ScheduleLe m l)
          → ◌≡◌ {A = Option ProjectLifecycleJob}
              (elim o [ none ↦ some x | some k ↦ some (if precedes id_le x k then x else k) ])
              (some j)
          → ScheduleLe j k
      go none e ih same =
          let empty = first_row-none xs e in
          let p : x ≡ j = ground arith in
          let q : x ≡ k = ground (arith, r, empty) in rw (← p, q) (inr (refl, omega arith))
      go (some m) e ih same =
          let p : j ≡ (if precedes id_le x m then x else m) = ground arith in
          rw p (earlier-le x m k (precedes id_le x m) refl (Row-le x m k xs (ih m k e) r))

  pub select_due-least :
      (locked : String → Bool) (now : ℕ) (js : Jobs) (j k : ProjectLifecycleJob)
      → select_due id_le locked now js ≡ some j
      → Row k js
      → is_due now k ≡ true
      → locked k.id ≡ false
      → ScheduleLe j k
  unfolding select_due
  select_due-least locked now js j k e r due free =
      first_row-least _ j k e
        (Row-keep (λ j. is_due now j && not (locked j.id)) js k r (ground arith))
