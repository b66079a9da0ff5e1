-- ===== src/Workqueue/Backoff.antt =====
-- workqueue/options.go: RetryBackoff. The doubling wraps at 64 bits, as `d *= 2` does.
use workqueue_modules.Prelude.{ℕ, zero, suc, ◌-◌, Bool, ◌||◌, if◌then◌else◌}
use workqueue_modules.Prelude.Int.{ℤ, pos, pos_part, ◌*ℤ◌, ltb_ℤ, leb_ℤ, wrap64}
use workqueue_modules.Workqueue.{Duration}
use workqueue_modules.Workqueue.Options.{default_backoff_base}
pub mod Formula

-- The loop and what follows it, with the number of rounds left.
doubling_loop : ℕ → Duration → Duration → Duration
doubling_loop zero max d = if ltb_ℤ max d then max else d
doubling_loop (suc rounds) max d =
    let next = wrap64 (d *ℤ pos 2) in
    let rest = doubling_loop rounds max next in
    if leb_ℤ max next || ltb_ℤ next (pos 0) then max else rest

abbrev pub effective_base : Duration → Duration
effective_base base = if leb_ℤ base (pos 0) then default_backoff_base else base

abbrev pub effective_max : Duration → Duration → Duration
effective_max base max = if ltb_ℤ max base then base else max

abbrev pub effective_attempt : ℤ → ℤ
effective_attempt attempt = if ltb_ℤ attempt (pos 1) then pos 1 else attempt

unfoldable pub retry_backoff : Duration → Duration → ℤ → Duration
unfolding doubling_loop wrap64
retry_backoff base max attempt =
    let base' = effective_base base in
    let max' = effective_max base' max in
    doubling_loop (pos_part (effective_attempt attempt) - 1) max' base'
