-- ===== src/Reliability/Backoff.antt =====
-- `BackoffPolicy` of src/project_mimic/reliability.py, and `resolve_seed`
-- of src/project_mimic/determinism.py. Delays are in hundredths of a millisecond before rounding,
-- and the jitter ratio in hundredths; `uniform seed span` is what `random.Random(seed).uniform`
-- draws from [-span, span], rounded to a hundredth. Seeds and attempts are natural numbers.
use project_mimic.Prelude.{
  ℕ, ◌+◌, ◌-◌, ◌*◌, ◌/◌, ◌^◌, ◌≤◌, ◌<◌, min, ◌≡◌, ap, Option, none, some, arith,
}

-- an integer by its sign
pub data Offset : Type 0 where
  up down : ℕ → Offset

abbrev pub size : Offset → ℕ
size (up n) = n
size (down n) = n

pub record BackoffPolicy : Type 0 where
  pub base_delay_ms : ℕ
  pub max_delay_ms : ℕ
  pub jitter_hundredths : ℕ
  pub max_attempts : ℕ

unfoldable pub resolve_seed : Option ℕ → Option ℕ → Option ℕ
resolve_seed none global = global
resolve_seed (some seed) global = some seed

-- `seed or 0`
abbrev pub or_zero : Option ℕ → ℕ
or_zero none = 0
or_zero (some n) = n

abbrev pub capped : BackoffPolicy → ℕ → ℕ
capped p attempt = min p.max_delay_ms (p.base_delay_ms * 2 ^ attempt)

abbrev pub jitter_span : BackoffPolicy → ℕ → ℕ
jitter_span p attempt = capped p attempt * min p.jitter_hundredths 100

-- `max(0, int(x))` of a number of hundredths
abbrev pub shifted : ℕ → Offset → ℕ
shifted hundredths (up n) = (hundredths + n) / 100
shifted hundredths (down n) = (hundredths - n) / 100

-- `d` is the whole part of a number of hundredths to which an offset is added
abbrev pub IsWhole : ℕ → ℕ → Offset → Type 0
IsWhole d hundredths (up n) = (100 * d ≤ hundredths + n) × (hundredths + n < 100 * (d + 1))
IsWhole d hundredths (down n) = (100 * d + n ≤ hundredths) × (hundredths < 100 * (d + 1) + n)

shifted-IsWhole :
    (hundredths : ℕ) (o : Offset)
    → size o ≤ hundredths
    → IsWhole (shifted hundredths o) hundredths o
shifted-IsWhole hundredths (up n) h = (omega arith, omega arith)
shifted-IsWhole hundredths (down n) h = (omega arith, omega arith)

within_jitter :
    (c j k d : ℕ) (o : Offset)
    → j + k ≡ 100
    → size o ≤ c * j
    → IsWhole d (c * 100) o
    → (100 * d ≤ c * 100 + c * j) × (c * k < 100 * (d + 1))
within_jitter c j k d (up n) e h w = let split = ap (λ (t : ℕ). c * t) e in omega (arith, split)
within_jitter c j k d (down n) e h w = let split = ap (λ (t : ℕ). c * t) e in omega (arith, split)

module _ (uniform : ℕ → ℕ → Offset) (global_seed : Option ℕ) where
  unfoldable pub delay_ms : BackoffPolicy → ℕ → Option ℕ → ℕ
  unfolding resolve_seed
  delay_ms p attempt deterministic_seed =
      let seed = or_zero (resolve_seed deterministic_seed global_seed) in
      shifted (capped p attempt * 100) (uniform (seed + attempt) (jitter_span p attempt))

  -- When what is drawn is within its span, the delay is the whole part of the capped exponential
  -- delay with the offset that is drawn, for the seed and the attempt together, from a span of that
  -- delay's jitter ratio, where a ratio above 1 counts as 1. So, up to rounding down, it is at most
  -- that delay and its jitter more, and at least that delay less its jitter.
  pub delay_ms_bounds :
      ((seed span : ℕ) → size (uniform seed span) ≤ span)
      → (p : BackoffPolicy) (attempt : ℕ) (seed : Option ℕ)
      → let most = min p.max_delay_ms (p.base_delay_ms * 2 ^ attempt) in
        let ratio = min p.jitter_hundredths 100 in
        let d = delay_ms p attempt seed in
        IsWhole d
          (most * 100)
          (uniform (or_zero (resolve_seed seed global_seed) + attempt) (most * ratio))
        × (100 * d ≤ most * 100 + most * ratio)
        × (most * (100 - ratio) < 100 * (d + 1))
  unfolding delay_ms
  delay_ms_bounds within p attempt seed =
      let s = or_zero (resolve_seed seed global_seed) + attempt in
      let most = capped p attempt in
      let ratio = min p.jitter_hundredths 100 in
      let o = uniform s (jitter_span p attempt) in
      let drawn = within s (jitter_span p attempt) in
      let whole : IsWhole (delay_ms p attempt seed) (most * 100) o =
        shifted-IsWhole (most * 100) o (inside most ratio (size o) (omega arith) drawn) in
      let bounds =
        within_jitter most ratio (100 - ratio) (delay_ms p attempt seed) o (omega arith) drawn
          whole in
      (whole, bounds.0, bounds.1)
    where
      inside : (c j n : ℕ) → j ≤ 100 → n ≤ c * j → n ≤ c * 100
      inside c j n small h = grind arith
