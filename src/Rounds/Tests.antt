-- ===== src/Rounds/Tests.antt =====
-- A round on an empty queue in memory.
use workqueue_modules.Prelude.Int.{pos}
use workqueue_modules.Workqueue.{Handler, succeeds}
use workqueue_modules.Workqueue.Options.{ConsumeOptions}

abbrev one_worker : ConsumeOptions
one_worker = record { concurrency = pos 1; backoff_base = pos 100; backoff_max = pos 1000 }

abbrev done_at_once : Handler
done_at_once t = (t, succeeds)
