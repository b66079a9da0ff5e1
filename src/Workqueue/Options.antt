-- ===== src/Workqueue/Options.antt =====
-- workqueue/options.go: the options of Enqueue and Consume. An option is a function on the options
-- record, so a list of options is any sequence of writes to it.
pub mod Bounds
pub mod Metadata
use workqueue_modules.Prelude.{
  ℕ, ◌*◌, ◌^◌, String, List, [], ◌∷◌, Bool, ltb, ◌==◌, if◌then◌else◌, insert,
}
use workqueue_modules.Prelude.Int.{ℤ, pos, ltb_ℤ, leb_ℤ}
use workqueue_modules.Workqueue.{Time, Duration, is_zero, add}

abbrev pub second : ℕ
second = 1_000_000_000

abbrev pub default_max_retries : ℤ
default_max_retries = pos 3

abbrev pub default_concurrency : ℤ
default_concurrency = pos 10

abbrev pub default_backoff_base : Duration
default_backoff_base = pos (10 * second)

abbrev pub default_backoff_max : Duration
default_backoff_max = pos (10 * 60 * second)

-- A nil map and an empty one are the same map here: `len`, a lookup, a copy and `maps.Clone` do
-- not tell them apart.
pub record EnqueueOptions : Type 0 where
  pub run_at : Time
  pub delay : Duration
  pub max_retries : ℤ
  pub metadata : List (String × String)

abbrev pub EnqueueOption : Type 0
EnqueueOption = EnqueueOptions → EnqueueOptions

abbrev enqueue_defaults : EnqueueOptions
enqueue_defaults = record {
  run_at = 0;
  delay = pos 0;
  max_retries = default_max_retries;
  metadata = [];
}

-- `for _, opt := range opts { opt(o) }`
abbrev pub apply_options : {O : Type 0} → List (O → O) → O → O
apply_options [] o = o
apply_options (opt ∷ opts) o = apply_options opts (opt o)

unfoldable pub new_enqueue_options : List EnqueueOption → EnqueueOptions
new_enqueue_options opts =
    let o = apply_options opts enqueue_defaults in
    if ltb_ℤ o.max_retries (pos 0) then record o { max_retries = pos 0 } else o

unfoldable pub resolve_run_at : EnqueueOptions → Time → Time
resolve_run_at o now =
    if is_zero o.run_at then (if ltb_ℤ (pos 0) o.delay then add now o.delay else now) else o.run_at

unfoldable pub with_delay : Duration → EnqueueOption
with_delay d o = record o { delay = d }

unfoldable pub with_run_at : Time → EnqueueOption
with_run_at t o = record o { run_at = t }

unfoldable pub with_max_retries : ℤ → EnqueueOption
with_max_retries n o = record o { max_retries = n }

-- `maps.Copy(dst, src)`: every entry of `src` is written to `dst`.
unfoldable pub copy : List (String × String) → List (String × String) → List (String × String)
copy dst [] = dst
copy dst ((k, v) ∷ src) = copy (insert k v dst) src

unfoldable pub with_metadata : List (String × String) → EnqueueOption
unfolding copy
with_metadata md o = record o { metadata = copy o.metadata md }

pub record ConsumeOptions : Type 0 where
  pub concurrency : ℤ
  pub backoff_base : Duration
  pub backoff_max : Duration

abbrev pub ConsumeOption : Type 0
ConsumeOption = ConsumeOptions → ConsumeOptions

abbrev consume_defaults : ConsumeOptions
consume_defaults = record {
  concurrency = default_concurrency;
  backoff_base = default_backoff_base;
  backoff_max = default_backoff_max;
}

clamp_concurrency : ConsumeOptions → ConsumeOptions
clamp_concurrency o = if ltb_ℤ o.concurrency (pos 1) then record o { concurrency = pos 1 } else o

clamp_base : ConsumeOptions → ConsumeOptions
clamp_base o =
    if leb_ℤ o.backoff_base (pos 0) then record o { backoff_base = default_backoff_base } else o

clamp_max : ConsumeOptions → ConsumeOptions
clamp_max o =
    if ltb_ℤ o.backoff_max o.backoff_base then record o { backoff_max = o.backoff_base } else o

unfoldable pub new_consume_options : List ConsumeOption → ConsumeOptions
unfolding clamp_concurrency clamp_base clamp_max
new_consume_options opts =
    clamp_max (clamp_base (clamp_concurrency (apply_options opts consume_defaults)))

unfoldable pub with_concurrency : ℤ → ConsumeOption
with_concurrency n o = record o { concurrency = n }

unfoldable pub with_retry_backoff : Duration → Duration → ConsumeOption
with_retry_backoff base max o = record o { backoff_base = base; backoff_max = max }
