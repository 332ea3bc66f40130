-- ===== src/Lifecycle/Delay.antt =====
-- The retry delay against its closed form.
use conductor_data_platform.Prelude.{
  ℕ, ◌+◌, ◌*◌, ◌^◌, ◌≤◌, ◌<◌, min, ◌≡◌, ◌⊎◌, some, Bool, leb, arith, zero, suc, Bool-cases, inl,
  inr, true, refl,
}
use native.Mathlib.Nat.{pow-suc}
use conductor_data_platform.Lifecycle.Retry.{retry_delay}

-- base * 2 ** attempt, capped, plus the jitter, capped again.
abbrev pub capped_backoff : ℕ → ℕ → ℕ → ℕ → ℕ
capped_backoff attempt base limit jitter = min limit (min limit (base * 2 ^ attempt) + jitter)

two_pow_pos : (n : ℕ) → 1 ≤ 2 ^ n
two_pow_pos zero = omega arith
two_pow_pos (suc n) = omega (arith, pow-suc 2 n, two_pow_pos n)

-- For a positive base and cap there is a delay, and whatever the float comparison of the logarithms says,
-- it is at least the exponential backoff with its jitter, each capped, and at most the cap. It differs from
-- that backoff only where the comparison holds although the backoff is below the cap, and is the cap then.
pub retry_delay_bounds :
    (reaches_cap : ℕ → ℕ → ℕ → Bool) (attempt base limit jitter : ℕ)
    → 0 < base
    → 0 < limit
    → (d : ℕ) × (retry_delay reaches_cap attempt base limit jitter ≡ some d)
      × (capped_backoff attempt base limit jitter ≤ d)
      × (d ≤ limit)
      × ((d ≡ capped_backoff attempt base limit jitter)
          ⊎ ((d ≡ limit) × (reaches_cap attempt base limit ≡ true) × (base * 2 ^ attempt < limit)))
unfolding retry_delay
retry_delay_bounds reaches_cap attempt base limit jitter hb hc =
    let grows : base ≤ base * 2 ^ attempt = grind (arith, two_pow_pos attempt) in
    elim (Bool-cases (leb limit base)) [
      | inl large ↦ (limit, ground arith, omega arith, omega arith, inl (ground arith))
      | inr small ↦ elim (Bool-cases (reaches_cap attempt base limit)) [
        | inl early ↦ (limit, ground arith, omega arith, omega arith, early_exit early)
        | inr late ↦ (
          capped_backoff attempt base limit jitter,
          ground arith,
          omega arith,
          omega arith,
          inl refl,
        )
      ]
    ]
  where
    early_exit :
        reaches_cap attempt base limit ≡ true
        → (limit ≡ capped_backoff attempt base limit jitter)
          ⊎ ((limit ≡ limit)
              × (reaches_cap attempt base limit ≡ true)
              × (base * 2 ^ attempt < limit))
    early_exit early = elim (Bool-cases (leb limit (base * 2 ^ attempt))) [
      | inl reached ↦ inl (ground arith)
      | inr below ↦ inr (refl, early, ground arith)
    ]

pub retry_delay-le :
    (reaches_cap : ℕ → ℕ → ℕ → Bool) (attempt base limit jitter d : ℕ)
    → retry_delay reaches_cap attempt base limit jitter ≡ some d
    → d ≤ limit
unfolding retry_delay
retry_delay-le reaches_cap attempt base limit jitter d h = ground arith
