-- ===== src/Lifecycle/Retry.antt =====
-- retry_delay of backend/app/services/lifecycle_errors.py.
--
-- Durations are whole numbers of one unit, small enough for a float to hold them and their sums, so there
-- is no infinity, no NaN and no negative value. `math.ldexp(base, attempt)` is `base * 2 ** attempt`.
-- The comparison `attempt >= log2(cap) - log2(base)`, whose logarithms are rounded, is the argument
-- `reaches_cap`, a function of attempt, base and cap.
use conductor_data_platform.Prelude.{
  ℕ, Bool, ◌+◌, ◌-◌, ◌*◌, ◌^◌, min, Option, none, some, leb, eqb, if◌then◌else◌,
}

-- `none` is a ValueError: the base and the cap must be positive.
unfoldable pub retry_delay : (ℕ → ℕ → ℕ → Bool) → ℕ → ℕ → ℕ → ℕ → Option ℕ
retry_delay reaches_cap attempt base cap jitter =
    if eqb base 0
    then none
    else if eqb cap 0
    then none
    else let exponential : ℕ =
        if leb cap base
        then cap
        else if reaches_cap attempt base cap
        then cap
        else min cap (base * 2 ^ attempt) in
      if leb (cap - exponential) jitter then some cap else some (exponential + jitter)
