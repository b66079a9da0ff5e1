-- ===== src/Workqueue/Tests.antt =====
-- The cases of workqueue/options_test.go, and the theorems of this part at concrete inputs.
use workqueue_modules.Prelude.{◌*◌, ◌^◌, min, ◌≡◌, refl, List, [], ◌∷◌, arith}
use workqueue_modules.Prelude.Int.{pos, negsuc, ◌≤ℤ◌}
use workqueue_modules.Workqueue.Options.{
  EnqueueOptions, ConsumeOption, new_enqueue_options, new_consume_options, resolve_run_at,
  with_delay, with_run_at, with_max_retries, with_concurrency, with_retry_backoff,
}
use workqueue_modules.Workqueue.Options.Bounds.{
  IsUsable, new_enqueue_options-max_retries, new_consume_options-IsUsable,
}
use workqueue_modules.Workqueue.Backoff.{retry_backoff}
use workqueue_modules.Workqueue.Backoff.Formula.{retry_backoff_formula}

-- TestNewEnqueueOptionsNegativeMaxRetriesClampsToZero
negative_retries : (new_enqueue_options (with_max_retries (negsuc 4) ∷ [])).max_retries ≡ pos 0
unfolding new_enqueue_options with_max_retries
negative_retries = refl

-- TestResolveRunAtRunAtWinsOverDelay
run_at_wins :
    resolve_run_at (new_enqueue_options (with_delay (pos 60) ∷ with_run_at 500 ∷ [])) 100 ≡ 500
unfolding resolve_run_at new_enqueue_options with_delay with_run_at
run_at_wins = refl

-- TestRetryBackoff, in milliseconds
backoff_fifth : retry_backoff (pos 100) (pos 1000) (pos 5) ≡ pos 1000
unfolding retry_backoff
backoff_fifth = refl

backoff_third : retry_backoff (pos 100) (pos 1000) (pos 3) ≡ pos 400
unfolding retry_backoff
backoff_third = refl

-- TestRetryBackoffOverflowGuard
backoff_huge :
    retry_backoff (pos 1_000_000_000) (pos 3_600_000_000_000) (pos 500) ≡ pos 3_600_000_000_000
unfolding retry_backoff
backoff_huge = refl

retry_backoff_formula_example :
    retry_backoff (pos 4_611_686_018_427_387_905) (pos 9_223_372_036_854_775_807) (pos 2)
    ≡ pos (min (4_611_686_018_427_387_905 * 2 ^ 1) 9_223_372_036_854_775_807)
retry_backoff_formula_example =
    retry_backoff_formula (pos 4_611_686_018_427_387_905) (pos 9_223_372_036_854_775_807) (pos 2)
      (omega arith) (omega arith)

new_enqueue_options-max_retries_example :
    pos 0 ≤ℤ (new_enqueue_options (with_max_retries (negsuc 4) ∷ [])).max_retries
new_enqueue_options-max_retries_example =
    new_enqueue_options-max_retries (with_max_retries (negsuc 4) ∷ [])

-- TestNewConsumeOptionsClamps
abbrev clamped : List ConsumeOption
clamped = with_concurrency (pos 0) ∷ with_retry_backoff (pos 1000) (pos 1) ∷ []

new_consume_options-IsUsable_example : IsUsable (new_consume_options clamped)
new_consume_options-IsUsable_example = new_consume_options-IsUsable clamped

-- TestWithMetadataMerges
abbrev tagged : EnqueueOptions
tagged = record {
  run_at = 0;
  delay = pos 0;
  max_retries = pos 3;
  metadata = ("a", "1") ∷ ("b", "2") ∷ [];
}
