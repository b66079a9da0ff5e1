-- ===== src/Memory/World/Tests.antt =====
-- A task with one retry that fails twice.
use workqueue_modules.Prelude.{String, some, List, [], ◌∷◌, Mem, arith}
use workqueue_modules.Prelude.Int.{pos, ◌+ℤ◌, ◌≤ℤ◌, ◌<ℤ◌}
use workqueue_modules.Workqueue.{Task}
use workqueue_modules.Workqueue.Options.{ConsumeOptions, with_max_retries, new_enqueue_options}
use workqueue_modules.Memory.Store.{at}
use workqueue_modules.Memory.Pushes.{waiting}
use workqueue_modules.Memory.World.{Act, enqueues, claims, completes, history, start}
use workqueue_modules.Prelude.{◌+◌, ◌≡◌}
use workqueue_modules.Memory.World.Ledger.{present, all_gained, all_lost}
use workqueue_modules.Memory.World.Conservation.{history_conserves}
use workqueue_modules.Memory.World.Budget.{IsLimited, AllLimited, attempts_bounded}

abbrev consuming : ConsumeOptions
consuming = record { concurrency = pos 1; backoff_base = pos 100; backoff_max = pos 1000 }

abbrev one_retry : List Act
one_retry =
    enqueues "mail" (1 ∷ []) (with_max_retries (pos 1) ∷ []) "a" 1000
    ∷ claims "mail" 1000
    ∷ completes 0 (some "boom") consuming 1001
    ∷ claims "mail" 1101
    ∷ []

one_retry-AllLimited : AllLimited one_retry
unfolding AllLimited IsLimited new_enqueue_options with_max_retries
one_retry-AllLimited = (ground arith, (tt, (tt, (tt, tt))))

attempts_bounded_example :
    ((n : String) (t : Task)
      → Mem (n, t) (history start one_retry).in_flight
      → (pos 1 ≤ℤ t.attempts) × (t.attempts ≤ℤ t.max_retries +ℤ pos 1))
    × ((n : String) (t : Task)
        → Mem t (waiting (at (history start one_retry).backend n))
        → (pos 0 ≤ℤ t.attempts) × (t.attempts ≤ℤ t.max_retries))
    × ((n : String) (t : Task)
        → Mem t (at (history start one_retry).backend n).dead
        → t.max_retries <ℤ t.attempts)
attempts_bounded_example = attempts_bounded one_retry one_retry-AllLimited

history_conserves_example :
    present (history start one_retry) "mail" "a" + all_lost start one_retry "mail" "a"
    ≡ all_gained one_retry "mail" "a"
history_conserves_example = history_conserves one_retry "mail" "a"
