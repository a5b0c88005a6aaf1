-- ===== src/Engine/Backoff.antt =====
-- backoff and clampDelay of backend/usecase/buildengine.go. An int64 of `backoff` is its bit
-- pattern, a number below 2 ^ 64.
use native.Mathlib.Nat.{pow-suc}
use saki_cli.Base.{
  ℕ, zero, suc, ◌+◌, ◌-◌, ◌*◌, ◌%◌, ◌^◌, ◌≤◌, ◌<◌, min, ◌≡◌, ap, inl, inr, Bool, true, arith, ltb,
  if◌then◌else◌, Bool-cases,
}

-- The order of int64 on bit patterns.
abbrev pub signed : ℕ → ℕ
signed x = (x + 2 ^ 63) % 2 ^ 64

abbrev pub less64 : ℕ → ℕ → Bool
less64 a b = ltb (signed a) (signed b)

-- The rounds left, d and cap (here `limit`).
unfoldable pub backoff_loop : ℕ → ℕ → ℕ → ℕ
backoff_loop zero d limit = if less64 limit d then limit else d
backoff_loop (suc k) d limit =
    let twice = d * 2 % 2 ^ 64 in
    let rest = backoff_loop k twice limit in if less64 twice limit then rest else limit

unfoldable pub backoff : ℕ → ℕ → ℕ → ℕ
unfolding backoff_loop
backoff base limit streak = backoff_loop streak base limit

-- resetAt - now may be negative, and is then below base: so is the truncated difference, or both
-- come to base, which is not negative.
unfoldable pub clamp_delay : ℕ → ℕ → ℕ → ℕ → ℕ
clamp_delay reset_at now base limit_wait =
    let d = reset_at - now in
    let e = (if ltb d base then base else d) in if ltb limit_wait e then limit_wait else e

one_le_pow : (k : ℕ) → 1 ≤ 2 ^ k
one_le_pow zero = omega arith
one_le_pow (suc k) = simp pow-suc (omega (arith, one_le_pow k))

double_small : (d : ℕ) → d < 2 ^ 62 → d * 2 % 2 ^ 64 ≡ d * 2
double_small d h = omega arith

less64_small : (a b : ℕ) → a < 2 ^ 63 → b < 2 ^ 63 → less64 a b ≡ ltb a b
less64_small a b h g = ground arith

above : (d p limit : ℕ) → 1 ≤ p → limit ≤ d * 2 → limit ≡ min (d * (p * 2)) limit
above d p limit h g = let more : d * 2 ≤ d * (p * 2) = grind arith in ground arith

backoff_loop-min :
    (k d limit : ℕ) → d < 2 ^ 62 → limit ≤ 2 ^ 62 → backoff_loop k d limit ≡ min (d * 2 ^ k) limit
unfolding backoff_loop
backoff_loop-min zero d limit h c = ground arith
backoff_loop-min (suc k) d limit h c = elim (Bool-cases (ltb (d * 2) limit)) [
  | inl e ↦
      rw (double_small d h, less64_small (d * 2) limit (omega arith) (omega arith), e)
        (rw (backoff_loop-min k (d * 2) limit (ground arith) c, pow-suc)
          (ap (λ x. min x limit) (omega arith)))
  | inr e ↦
      rw (double_small d h, less64_small (d * 2) limit (omega arith) (omega arith), e)
        (rw pow-suc (above d (2 ^ k) limit (one_le_pow k) (ground arith)))
]

-- While the delay of a doubling fits an int64, the wait is the doubled base, never more than cap.
pub backoff-min :
    (base limit streak : ℕ)
    → base < 2 ^ 62
    → limit ≤ 2 ^ 62
    → backoff base limit streak ≡ min (base * 2 ^ streak) limit
unfolding backoff
backoff-min base limit streak h c = backoff_loop-min streak base limit h c

-- With a base of 2 ^ 62 ms or more, which the environment may set, the first doubling wraps to a
-- negative int64, and this is the wait.
pub backoff_wraps :
    (base limit : ℕ)
    → 2 ^ 62 ≤ base
    → base < 2 ^ 63
    → limit < 2 ^ 63
    → (2 ^ 63 ≤ backoff base limit 1) × (less64 (backoff base limit 1) 0 ≡ true)
unfolding backoff
backoff_wraps base limit h g c = (ground arith, ground arith)

-- A limit wait lies between the resume base and the configured wait, if these are in order.
pub clamp_delay_bounds :
    (reset_at now base limit_wait : ℕ)
    → base ≤ limit_wait
    → (base ≤ clamp_delay reset_at now base limit_wait)
      × (clamp_delay reset_at now base limit_wait ≤ limit_wait)
unfolding clamp_delay
clamp_delay_bounds reset_at now base limit_wait h = ground arith
