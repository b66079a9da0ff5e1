-- ===== src/Workqueue/Options/Bounds.antt =====
-- What holds of the resolved options, whatever functions are given as options.
use workqueue_modules.Prelude.{◌≤◌, ◌≡◌, ◌≢◌, refl, List, [], ◌∷◌, ◌++◌, arith}
use workqueue_modules.Prelude.Int.{pos, ◌≤ℤ◌, ◌<ℤ◌}
use workqueue_modules.Workqueue.{Time}
use workqueue_modules.Workqueue.Options.{
  EnqueueOptions, EnqueueOption, ConsumeOptions, ConsumeOption, apply_options, new_enqueue_options,
  new_consume_options, resolve_run_at, with_run_at,
}

-- Whatever options are given, the retry budget of the resolved enqueue options is not negative.
pub new_enqueue_options-max_retries :
    (opts : List EnqueueOption) → pos 0 ≤ℤ (new_enqueue_options opts).max_retries
unfolding new_enqueue_options
new_enqueue_options-max_retries opts = ground arith

-- The settings that the worker pool and the backoff rely on.
pub record IsUsable (o : ConsumeOptions) : Type 0 where
  pub some_worker : pos 1 ≤ℤ o.concurrency
  pub base_pos : pos 0 <ℤ o.backoff_base
  pub base-le-max : o.backoff_base ≤ℤ o.backoff_max

-- Whatever options are given, the resolved consume options have at least one worker, a positive
-- backoff base, and a backoff maximum that is not below the base.
pub new_consume_options-IsUsable : (opts : List ConsumeOption) → IsUsable (new_consume_options opts)
unfolding new_consume_options
new_consume_options-IsUsable opts = ground arith

apply_options-append :
    {O : Type 0} (xs ys : List (O → O)) (o : O)
    → apply_options (xs ++ ys) o ≡ apply_options ys (apply_options xs o)
apply_options-append [] ys o = refl
apply_options-append (x ∷ xs) ys o = apply_options-append xs ys (x o)

-- A nonzero run time that is the last option given is the time of the first delivery, whatever
-- options stand before it and whatever the clock reads.
pub resolve_run_at-with_run_at :
    (opts : List EnqueueOption) (t now : Time)
    → t ≢ 0
    → resolve_run_at (new_enqueue_options (opts ++ with_run_at t ∷ [])) now ≡ t
unfolding resolve_run_at new_enqueue_options with_run_at
resolve_run_at-with_run_at opts t now h = rw apply_options-append (ground arith)

-- Without a run time the first delivery is never due before now.
pub resolve_run_at-ge-now :
    (o : EnqueueOptions) (now : Time) → o.run_at ≡ 0 → now ≤ resolve_run_at o now
unfolding resolve_run_at
resolve_run_at-ge-now o now h = ground arith
