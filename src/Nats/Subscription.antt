-- ===== src/Nats/Subscription.antt =====
-- nats_workqueue/workqueue.go: the subscription of Consume, with its semaphore, its wait group and the
-- callback of the JetStream consumer, which one goroutine runs for one message after the other.
pub mod Sound
pub mod Draining
mod Tests
use workqueue_modules.Prelude.{
  ℕ, zero, suc, ◌<◌, ◌≡◌, Bool, true, false, Option, none, some, List, if◌then◌else◌,
}
use workqueue_modules.Prelude.Int.{pos_part}
use workqueue_modules.Workqueue.Options.{ConsumeOption, new_consume_options}

-- The capacity of `sem` and how many handlers hold a slot of it, whether the callback stands in its
-- select, whether `stopOnce` is spent, the closed channels `stopCh` and `done`, and of the
-- ConsumeContext whether it was stopped and whether its Closed channel is closed.
pub record Subscription : Type 0 where
  pub capacity : ℕ
  pub running : ℕ
  pub waiting : Bool
  pub once : Bool
  pub stopped : Bool
  pub unsubscribed : Bool
  pub closed : Bool
  pub done : Bool

unfoldable pub subscribe : List ConsumeOption → Subscription
subscribe opts = record {
  capacity = pos_part (new_consume_options opts).concurrency;
  running = 0;
  waiting = false;
  once = false;
  stopped = false;
  unsubscribed = false;
  closed = false;
  done = false;
}

-- The first statement of Stop, inside `stopOnce`; `none` is the panic of closing a closed channel.
unfoldable pub close_stop : Subscription → Option Subscription
close_stop p =
    if p.once
    then some p
    else if p.stopped
    then none
    else some (record p { once = true; stopped = true })

-- The steps that no caller of Stop makes. The consumer calls the callback until it is stopped, and its
-- Closed channel is closed when it was stopped and no callback runs.
pub data Steps (p p' : Subscription) : Type 0 where
  arrives :
      p.waiting ≡ false → p.unsubscribed ≡ false → p' ≡ record p { waiting = true } → Steps p p'
  takes_slot :
      p.waiting ≡ true
      → p.running < p.capacity
      → p' ≡ record p { waiting = false; running = suc p.running }
      → Steps p p'
  hands_back : p.waiting ≡ true → p.stopped ≡ true → p' ≡ record p { waiting = false } → Steps p p'
  handles : (n : ℕ) → p.running ≡ suc n → p' ≡ record p { running = n } → Steps p p'
  unsubscribes :
      p.stopped ≡ true → p.unsubscribed ≡ false → p' ≡ record p { unsubscribed = true } → Steps p p'
  closes :
      p.unsubscribed ≡ true
      → p.waiting ≡ false
      → p.closed ≡ false
      → p' ≡ record p { closed = true }
      → Steps p p'
  drains :
      p.closed ≡ true → p.running ≡ 0 → p.done ≡ false → p' ≡ record p { done = true } → Steps p p'

-- A history: steps, and calls of Stop.
pub data Reaches (p : Subscription) : Subscription → Type 0 where
  begins : Reaches p p
  steps : (q r : Subscription) → Reaches p q → Steps q r → Reaches p r
  stops : (q r : Subscription) → Reaches p q → close_stop q ≡ some r → Reaches p r

-- A run of so many steps.
pub data Runs : ℕ → Subscription → Subscription → Type 0 where
  stays : (p : Subscription) → Runs zero p p
  follows : (n : ℕ) (p q r : Subscription) → Steps p q → Runs n q r → Runs (suc n) p r
