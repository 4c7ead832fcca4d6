-- ===== src/Engine/Retry.antt =====
-- The backoff of internal/engine/processor.go.
use native.Mathlib.Nat.{one-le-pow, pow-le-pow_right, mul-le-mul_left}
use sentinel_flow_project.Base.{ℕ, suc, ◌*◌, ◌^◌, ◌≤◌, ◌<◌, min, ◌≡◌, refl, ap, ◌∙◌, arith}
use sentinel_flow_project.Engine.{
  RetryPolicy, delay_base, delay_cap, exponent, cap_delay, float64, float64_from, round_to, delay,
}

cap_delay_lem : (cap d : ℕ) → cap < 2 ^ 63 → cap_delay cap d ≡ min cap d
unfolding cap_delay
cap_delay_lem cap d range = ground arith

exponent_lem : (n : ℕ) → exponent (suc n) ≡ min n 20
unfolding exponent
exponent_lem n = ground arith

exponent_mono : (j k : ℕ) → j ≤ k → exponent j ≤ exponent k
unfolding exponent
exponent_mono j k h = ground arith

base-pos : (p : RetryPolicy) → 0 < delay_base p
base-pos p = ground arith

cap-pos : (p : RetryPolicy) → 0 < delay_cap p
cap-pos p = ground arith

pos-mul : (a b : ℕ) → 0 < a → 1 ≤ b → 0 < a * b
pos-mul a b h k = grind arith

float64_exact : (n : ℕ) → n ≤ 2 ^ 53 → float64 n ≡ n
unfolding float64 float64_from round_to
float64_exact n h = ground arith

delay_lem :
    (p : RetryPolicy) (n : ℕ)
    → delay_cap p < 2 ^ 63
    → delay_base p ≤ 2 ^ 53
    → delay p n ≡ min (delay_cap p) (delay_base p * 2 ^ exponent n)
unfolding delay
delay_lem p n range exact =
    ap (λ b. cap_delay (delay_cap p) (b * 2 ^ exponent n)) (float64_exact (delay_base p) exact)
    ∙ cap_delay_lem (delay_cap p) (delay_base p * 2 ^ exponent n) range

-- For a cap that fits an int64 and a base of at most 2^53 ns, which float64 has exactly, a retry
-- after j + 1 attempts waits the base doubled j times, at most twenty times, and held to the cap; it
-- waits some time, no longer than a retry after more attempts, and that one no longer than the cap.
pub delay_bounds :
    (p : RetryPolicy) (j k : ℕ)
    → delay_cap p < 2 ^ 63
    → delay_base p ≤ 2 ^ 53
    → j ≤ k
    → (delay p (suc j) ≡ min (delay_cap p) (delay_base p * 2 ^ min j 20))
      × (0 < delay p (suc j))
      × (delay p (suc j) ≤ delay p (suc k))
      × (delay p (suc k) ≤ delay_cap p)
delay_bounds p j k range exact order =
    let base_lem = λ (n : ℕ). delay_lem p (suc n) range exact in
    let bounds =
      pos-mul (delay_base p) (2 ^ exponent (suc j)) (base-pos p)
        (one-le-pow (exponent (suc j)) 2 (omega arith)) in
    let grows =
      mul-le-mul_left (delay_base p)
        (pow-le-pow_right {n = 2} (omega arith) (exponent_mono (suc j) (suc k) (omega arith))) in
    (
      base_lem j ∙ rw (exponent_lem j) refl,
      omega (arith, base_lem j, cap-pos p, bounds),
      omega (arith, base_lem j, base_lem k, grows),
      omega (arith, base_lem k),
    )
