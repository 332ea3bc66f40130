-- ===== src/Reauth/Limits.antt =====
-- The attempts counted by _check_rate_limits: a call raises both counters, and a counter at its
-- limit refuses.
use text.Mathlib.TextLemmas.{append_inj, append_assoc}
use conductor_data_platform.Prelude.{
  ℕ, ◌+◌, ◌<◌, String, ◌≡◌, ◌≢◌, ◌↔◌, refl, sym, ◌∙◌, true, List, [], ◌∷◌, arith, ==-refl,
  String-discrete, ne_of_test,
}
use conductor_data_platform.Reauth.Defs.{
  Settings, Counter, count_at, increment, user_key, ip_key, check_rate_limits,
}

pub count_at-increment :
    (now window : ℕ) (key : String) (cs : List Counter)
    → 0 < window
    → count_at now key (increment now window key cs) ≡ count_at now key cs + 1
unfolding count_at increment
count_at-increment now window key [] h = ground (arith, ==-refl key)
count_at-increment now window key (c ∷ cs) h =
    ground (arith, ==-refl key, count_at-increment now window key cs h)

-- Raising one counter leaves the others.
pub count_at-increment_other :
    (now window : ℕ) (key key' : String) (cs : List Counter)
    → key ≢ key'
    → count_at now key' (increment now window key cs) ≡ count_at now key' cs
unfolding count_at increment
count_at-increment_other now window key key' [] h = ground arith
count_at-increment_other now window key key' (c ∷ cs) h =
    ground (arith, count_at-increment_other now window key key' cs h)

user-ne-ip : ◌≢◌ {A = String} "reauth:rate:u" "reauth:rate:i"
unfolding String-discrete
user-ne-ip = ne_of_test "reauth:rate:u" "reauth:rate:i" refl

-- The keys of a user and of an address never meet.
pub user_key-ne-ip_key : (user_id source_ip : String) → user_key user_id ≢ ip_key source_ip
user_key-ne-ip_key user_id source_ip e = user-ne-ip (
    (append_inj
      (sym (append_assoc "reauth:rate:u" "ser:" user_id)
        ∙ e
        ∙ append_assoc "reauth:rate:i" "p:" source_ip)
      refl).0)

-- An attempt passes exactly if both counters were below the limit.
pub check_rate_limits_iff :
    (s : Settings) (now : ℕ) (user_id source_ip : String) (counters : List Counter)
    → ((check_rate_limits s now user_id source_ip counters).0 ≡ true) ↔ (
        (count_at now (user_key user_id) counters < s.reauth_rate_limit_attempts)
        × (count_at now (ip_key source_ip) counters < s.reauth_rate_limit_attempts))
unfolding check_rate_limits
check_rate_limits_iff s now user_id source_ip counters =
    let kept =
      count_at-increment_other now s.reauth_rate_limit_window_seconds (user_key user_id)
        (ip_key source_ip) counters (user_key-ne-ip_key user_id source_ip) in
    (λ t. ground (arith, t, kept), λ t. ground (arith, t.0, t.1, kept))

-- An attempt raises each of the two counters by one whether it passes or not, so that a counter once at
-- its limit refuses until it expires.
pub check_rate_limits-counts :
    (s : Settings) (now : ℕ) (user_id source_ip : String) (counters : List Counter)
    → 0 < s.reauth_rate_limit_window_seconds
    → let counters' = (check_rate_limits s now user_id source_ip counters).1 in
      (count_at now (user_key user_id) counters' ≡ count_at now (user_key user_id) counters + 1)
      × (count_at now (ip_key source_ip) counters' ≡ count_at now (ip_key source_ip) counters + 1)
unfolding check_rate_limits
check_rate_limits-counts s now user_id source_ip counters h =
    let w = s.reauth_rate_limit_window_seconds in
    let u = user_key user_id in
    let i = ip_key source_ip in
    let after = increment now w u counters in
    let apart = user_key-ne-ip_key user_id source_ip in
    let user = count_at-increment now w u counters h in
    let ip = count_at-increment now w i after h in
    let kept = count_at-increment_other now w u i counters apart in
    let kept' = count_at-increment_other now w i u after (λ e. apart (sym e)) in
    (kept' ∙ user, ground (arith, ip, kept))
