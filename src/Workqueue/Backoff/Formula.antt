-- ===== src/Workqueue/Backoff/Formula.antt =====
-- RetryBackoff against its formula min(base * 2^(attempt-1), max).
use workqueue_modules.Prelude.{
  ℕ, zero, suc, ◌+◌, ◌-◌, ◌*◌, ◌^◌, min, ◌≤◌, ◌<◌, ◌≡◌, ap, ap₂, ◌∙◌, arith,
}
use native.Mathlib.Decide.{dec_lt}
use native.Mathlib.Nat.{pow-suc, mul-le-mul_left}
use workqueue_modules.Prelude.Int.{
  ℤ, pos, pos_part, neg_part, ◌≤ℤ◌, int64_end, IsInt64, wrap64_double_fits, wrap64_double_wraps,
}
use workqueue_modules.Workqueue.{Duration}
use workqueue_modules.Workqueue.Backoff.{
  doubling_loop, retry_backoff, effective_base, effective_max, effective_attempt,
}

pow_pos : (k : ℕ) → 0 < 2 ^ k
pow_pos zero = omega arith
pow_pos (suc k) = omega (arith, pow_pos k, pow-suc 2 k)

double_pow : (d k : ℕ) → d * 2 ^ suc k ≡ (d + d) * 2 ^ k
double_pow d k = omega (arith, ap (λ t. d * t) (pow-suc 2 k))

le-mul_pow : (n k : ℕ) → n ≤ n * 2 ^ k
le-mul_pow n k = grind (arith, pow_pos k)

doubling_loop_lem :
    (k d m : ℕ)
    → 0 < d
    → d ≤ m
    → m < int64_end
    → doubling_loop k (pos m) (pos d) ≡ pos (min (d * 2 ^ k) m)
unfolding doubling_loop
doubling_loop_lem zero d m h1 h2 h3 = ground arith
doubling_loop_lem (suc k) d m h1 h2 h3 = elim (dec_lt (d + d) int64_end) [
  | yes fits ↦
      rw (wrap64_double_fits d fits)
        (ground (arith, doubling_loop_lem k (d + d) m, double_pow d k, le-mul_pow (d + d) k))
  | no wraps ↦
      rw (wrap64_double_wraps d (omega arith) (omega arith))
        (ground (arith, double_pow d k, le-mul_pow (d + d) k))
]

-- A duration that the loop may start from, and one that may bound it.
abbrev IsPos : Duration → Type 0
IsPos d = (d ≡ pos (pos_part d)) × (0 < pos_part d) × (pos_part d < int64_end)

effective_base-IsPos : (base : Duration) → IsInt64 base → IsPos (effective_base base)
effective_base-IsPos base h = ground arith

effective_max-IsPos :
    (base max : Duration)
    → IsInt64 max
    → IsPos base
    → IsPos (effective_max base max) × (pos_part base ≤ pos_part (effective_max base max))
effective_max-IsPos base max h b = ground arith

-- For every base and maximum that fit 64 bits and every attempt count, RetryBackoff returns
-- min(base * 2^(attempt-1), max) as an exact product, with no trace of the wrap-around, where a base
-- that is not positive is the default one, a maximum below the base is the base, and an attempt
-- count below 1 is 1.
pub retry_backoff_formula :
    (base max : Duration) (attempt : ℤ)
    → IsInt64 base
    → IsInt64 max
    → let b = pos_part (effective_base base) in
      let m = pos_part (effective_max (effective_base base) max) in
      retry_backoff base max attempt
      ≡ pos (min (b * 2 ^ (pos_part (effective_attempt attempt) - 1)) m)
unfolding retry_backoff
retry_backoff_formula base max attempt hb hm =
    let b = effective_base-IsPos base hb in
    let m = effective_max-IsPos (effective_base base) max hm b in
    ap₂ (λ x y. doubling_loop (pos_part (effective_attempt attempt) - 1) x y) m.0.0 b.0
    ∙ doubling_loop_lem _ _ _ b.1 m.1 m.0.2

pow_mono : (i j : ℕ) → i ≤ j → 2 ^ i ≤ 2 ^ j
pow_mono zero j h = pow_pos j
pow_mono (suc i) zero h = absurd (omega arith)
pow_mono (suc i) (suc j) h = omega (arith, pow_mono i j, pow-suc 2 i, pow-suc 2 j)

mul_pow_mono : (b i j : ℕ) → i ≤ j → b * 2 ^ i ≤ b * 2 ^ j
mul_pow_mono b i j h = mul-le-mul_left b (pow_mono i j h)

effective_attempt_mono :
    (i j : ℤ) → i ≤ℤ j → pos_part (effective_attempt i) - 1 ≤ pos_part (effective_attempt j) - 1
effective_attempt_mono i j h = ground arith

-- The backoff never shrinks from one attempt to a later one, and lies between the base and the
-- maximum in force.
pub retry_backoff_mono :
    (base max : Duration) (i j : ℤ)
    → IsInt64 base
    → IsInt64 max
    → i ≤ℤ j
    → (retry_backoff base max i ≤ℤ retry_backoff base max j)
      × (effective_base base ≤ℤ retry_backoff base max i)
      × (retry_backoff base max i ≤ℤ effective_max (effective_base base) max)
retry_backoff_mono base max i j hb hm h =
    let b = effective_base-IsPos base hb in
    let m = effective_max-IsPos (effective_base base) max hm b in
    rw (retry_backoff_formula base max i hb hm, retry_backoff_formula base max j hb hm)
      (omega (
        arith,
        ap neg_part b.0,
        ap neg_part m.0.0,
        m.1,
        le-mul_pow (pos_part (effective_base base)) (pos_part (effective_attempt i) - 1),
        mul_pow_mono (pos_part (effective_base base)) (pos_part (effective_attempt i) - 1)
            (pos_part (effective_attempt j) - 1) (effective_attempt_mono i j h),
      ))
