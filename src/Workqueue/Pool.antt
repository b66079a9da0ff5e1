-- ===== src/Workqueue/Pool.antt =====
-- Consume, worker, Stop and Done of memory_workqueue/workqueue.go, which gorm_workqueue and
-- postgres_workqueue repeat: a pool of workers, its stop channel and its done channel. What a claim
-- finds and when a sleeping worker wakes up is left open.
pub mod Sound
pub mod Draining
pub mod Trail
mod Tests
use workqueue_modules.Prelude.{
  ℕ, zero, suc, ◌≡◌, Bool, true, false, Option, none, some, List, [], ◌∷◌, ◌++◌, if◌then◌else◌,
}
use workqueue_modules.Prelude.Int.{ℤ, pos_part}
use workqueue_modules.Workqueue.Options.{ConsumeOption, new_consume_options}

-- Where a worker stands: before its look at the stop channel, before its claim, with a task that it
-- has claimed, in the select on the stop channel, the wake-up and the timer, or returned.
pub data Phase : Type 0 where
  checking claiming handling sleeping returned : Phase

-- The two closed channels of a subscription, whether `stopOnce` is spent, and the workers.
pub record Pool : Type 0 where
  pub workers : List Phase
  pub once : Bool
  pub stopped : Bool
  pub done : Bool

unfoldable pub started : ℕ → List Phase
started zero = []
started (suc n) = checking ∷ started n

-- The subscription that Consume returns: a worker for each of `range o.Concurrency`.
unfoldable pub consume : List ConsumeOption → Pool
consume opts = record {
  workers = started (pos_part (new_consume_options opts).concurrency);
  once = false;
  stopped = false;
  done = false;
}

-- Stop before its select; `none` is the panic of closing a closed channel.
unfoldable pub stop : Pool → Option Pool
stop p =
    if p.once
    then some p
    else if p.stopped
    then none
    else some (record p { once = true; stopped = true })

-- The select of Stop: `nil`, or the error of its context.
pub data Returns (p : Pool) (expired : Bool) : Type 0 where
  drained : p.done ≡ true → Returns p expired
  gave_up : expired ≡ true → Returns p expired

-- A step of a worker, with the stop channel closed or not.
pub data Moves (stopped : Bool) : Phase → Phase → Type 0 where
  leaves : stopped ≡ true → Moves stopped checking returned
  goes_on : stopped ≡ false → Moves stopped checking claiming
  claims : Moves stopped claiming handling
  finds_none : Moves stopped claiming sleeping
  completes : Moves stopped handling checking
  wakes : Moves stopped sleeping checking
  sees_stop : stopped ≡ true → Moves stopped sleeping returned

-- All workers have returned: the wait of the goroutine that closes the done channel is over.
unfoldable pub all_returned : List Phase → Bool
all_returned [] = true
all_returned (returned ∷ ws) = all_returned ws
all_returned (checking ∷ ws) = false
all_returned (claiming ∷ ws) = false
all_returned (handling ∷ ws) = false
all_returned (sleeping ∷ ws) = false

-- A step of one worker of the pool.
pub data Works (stopped : Bool) : List Phase → List Phase → Type 0 where
  here : (w w' : Phase) (ws : List Phase) → Moves stopped w w' → Works stopped (w ∷ ws) (w' ∷ ws)
  there :
      (w : Phase) (ws ws' : List Phase) → Works stopped ws ws' → Works stopped (w ∷ ws) (w ∷ ws')

-- A step of the pool that no caller makes.
pub data Steps (p p' : Pool) : Type 0 where
  works :
      (ws : List Phase) → Works p.stopped p.workers ws → p' ≡ record p { workers = ws } → Steps p p'
  watches :
      all_returned p.workers ≡ true → p.done ≡ false → p' ≡ record p { done = true } → Steps p p'

-- A history of the pool: steps, and calls of Stop.
pub data Reaches (p : Pool) : Pool → Type 0 where
  begins : Reaches p p
  steps : (q r : Pool) → Reaches p q → Steps q r → Reaches p r
  stops : (q r : Pool) → Reaches p q → stop q ≡ some r → Reaches p r

-- A run of so many steps.
pub data Runs : ℕ → Pool → Pool → Type 0 where
  stays : (p : Pool) → Runs zero p p
  follows : (n : ℕ) (p q r : Pool) → Steps p q → Runs n q r → Runs (suc n) p r
