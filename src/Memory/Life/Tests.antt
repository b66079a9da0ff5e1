-- ===== src/Memory/Life/Tests.antt =====
-- Lives of a task with the retry budget 2.
use Prim.{tt}
use workqueue_modules.Prelude.{◌≡◌, refl, none, List, [], ◌∷◌, if◌then◌else◌, arith}
use workqueue_modules.Prelude.Int.{pos, ltb_ℤ, wrap64}
use workqueue_modules.Workqueue.{Time, Task, Handler, succeeds, fails}
use workqueue_modules.Workqueue.Options.{
  ConsumeOptions, EnqueueOption, with_max_retries, new_enqueue_options, resolve_run_at,
}
use workqueue_modules.Workqueue.Backoff.{retry_backoff}
use workqueue_modules.Memory.{enqueue, invoke_handler}
use workqueue_modules.Memory.Life.{Holds}
use workqueue_modules.Memory.Life.Fates.{
  rounds, Timely, FailsBelow, IsLetter, backend, task, task_dies, task_succeeds,
}

abbrev consuming : ConsumeOptions
consuming = record { concurrency = pos 1; backoff_base = pos 100; backoff_max = pos 1000 }

abbrev two_retries : List EnqueueOption
two_retries = with_max_retries (pos 2) ∷ []

abbrev clock : List (Time × Time)
clock = (1000, 1001) ∷ (2000, 2001) ∷ (3000, 3001) ∷ []

abbrev failing : Handler
failing u = (u, fails "boom")

abbrev flaky : Handler
flaky u = (u, if ltb_ℤ u.attempts (pos 3) then fails "transient failure" else succeeds)

two_retries-budget : (new_enqueue_options two_retries).max_retries ≡ pos 2
unfolding new_enqueue_options with_max_retries
two_retries-budget = refl

failing-FailsBelow : FailsBelow 4 failing
unfolding invoke_handler
failing-FailsBelow u low = ("boom", refl)

flaky-FailsBelow : FailsBelow 3 flaky
unfolding invoke_handler
flaky-FailsBelow u low = ("transient failure", ground arith)

flaky_succeeds : (u : Task) → u.attempts ≡ pos 3 → invoke_handler flaky u ≡ none
unfolding invoke_handler
flaky_succeeds u e = ground arith

clock-Timely : Timely 3 (task "mail" [] two_retries "a" 500) consuming clock
unfolding enqueue retry_backoff wrap64 new_enqueue_options with_max_retries resolve_run_at
clock-Timely = (omega arith, (omega arith, (omega arith, tt)))

task_dies_example :
    (u : Task) × Holds
      (rounds (backend "mail" [] two_retries "a" 500) "mail" failing consuming clock)
      "mail"
      (u ∷ [])
    × IsLetter (task "mail" [] two_retries "a" 500) 3 u
task_dies_example =
    task_dies "mail" [] two_retries "a" 500 failing consuming clock 2 two_retries-budget
      (omega arith) failing-FailsBelow clock-Timely

task_succeeds_example :
    Holds (rounds (backend "mail" [] two_retries "a" 500) "mail" flaky consuming clock) "mail" []
task_succeeds_example =
    task_succeeds "mail" [] two_retries "a" 500 flaky consuming clock 2 two_retries-budget
      (omega arith) 2 (omega arith) flaky-FailsBelow flaky_succeeds clock-Timely
