-- ===== src/Backoff/Bounds.antt =====
-- The delay lies between half the exponential term and the term itself.
use native.Mathlib.Nat.{
  le_trans, mul-le-mul_left, mul-le-mul_right, le-div_iff_mul-le, div-le_of_le-mul,
}
use triage_engine.Prelude.{ℕ, ◌+◌, ◌*◌, ◌/◌, ◌<◌, ◌≤◌, Option, or_else, arith}
use triage_engine.Backoff.{Random, max_safe_integer, exponential, backoff_with_jitter}

half_times : (e whole : ℕ) → e / 2 * (2 * whole) ≤ e * whole
half_times e whole =
    let halves : e / 2 * 2 ≤ e = omega arith in omega (arith, mul-le-mul_right whole halves)

jitter_bounds :
    (e part whole : ℕ)
    → part < whole
    → (e / 2 ≤ (e * (whole + part)) / (2 * whole)) × ((e * (whole + part)) / (2 * whole) ≤ e)
jitter_bounds e part whole h =
    let below : whole + part ≤ 2 * whole = omega arith in
    (
      (le-div_iff_mul-le (omega arith)).1 (omega (arith, half_times e whole)),
      div-le_of_le-mul (2 * whole) (omega (arith, mul-le-mul_left e below)),
    )

exponential_cap :
    (attempt base_ms : ℕ) (max_ms : Option ℕ)
    → exponential attempt base_ms max_ms ≤ or_else max_ms max_safe_integer
unfolding exponential
exponential_cap attempt base_ms max_ms = omega arith

-- Equal jitter: whatever the random draw, the delay is at least half the exponential term and at
-- most the term, which is at most the cap.
pub backoff_with_jitter_bounds :
    (attempt base_ms : ℕ) (max_ms : Option ℕ) (random : Random)
    → (exponential attempt base_ms max_ms / 2 ≤ backoff_with_jitter attempt base_ms max_ms random)
      × (backoff_with_jitter attempt base_ms max_ms random ≤ exponential attempt base_ms max_ms)
      × (backoff_with_jitter attempt base_ms max_ms random ≤ or_else max_ms max_safe_integer)
unfolding backoff_with_jitter
backoff_with_jitter_bounds attempt base_ms max_ms random =
    let (low, high) =
      jitter_bounds (exponential attempt base_ms max_ms) random.part random.whole
        random.below_one in
    (low, high, le_trans high (exponential_cap attempt base_ms max_ms))
