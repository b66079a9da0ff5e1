-- ===== src/Nats/Heartbeat.antt =====
-- nats_workqueue/workqueue.go: invokeWithHeartbeat. Its goroutine calls InProgress at every tick until
-- the handler has returned; a call that the server takes moves the deadline of the delivery to AckWait
-- from then. Times are in nanoseconds since the delivery.
use native.Mathlib.Nat.{div-eq_of_lt}
use workqueue_modules.Prelude.{
  refl, inl, inr, ℕ, zero, suc, ◌+◌, ◌-◌, ◌*◌, ◌/◌, ◌<◌, ◌≤◌, ◌≡◌, Bool, true, Option, String,
  arith, if◌then◌else◌,
}
use workqueue_modules.Prelude.Int.{ℤ, pos, negsuc, pos_part, ◌<ℤ◌, ◌≤ℤ◌, ≤ℤ-cases}
use workqueue_modules.Workqueue.{Task, Handler}
use workqueue_modules.Workqueue.Options.{second}
use workqueue_modules.Nats.State.{Config, heartbeat_interval}
use workqueue_modules.Nats.Handling.{invoke_handler}

-- The loop of the goroutine after so many ticks: the deadline, where `taken n` says whether the server
-- took the call of the n-th tick; an error is logged and left.
unfoldable pub heartbeats : Config → (ℕ → Bool) → ℕ → ℕ
heartbeats c taken zero = pos_part c.ack_wait
heartbeats c taken (suc n) =
    let before = heartbeats c taken n in
    if taken (suc n) then suc n * pos_part (heartbeat_interval c) + pos_part c.ack_wait else before

-- The deadline that holds at a time `t` while the handler runs, by the ticks before it.
unfoldable pub deadline : Config → (ℕ → Bool) → ℕ → ℕ
deadline c taken t = heartbeats c taken ((t - 1) / pos_part (heartbeat_interval c))

-- What the handler returns after a run of `elapsed`, and the deadline at that time.
unfoldable pub invoke_with_heartbeat :
    Config → (ℕ → Bool) → ℕ → Handler → Task → (Task × Option String) × ℕ
invoke_with_heartbeat c taken elapsed handler task =
    (invoke_handler handler task, deadline c taken elapsed)

-- With a positive AckWait, the first heartbeat of a delivery comes before its deadline if and only
-- if the AckWait is more than a second.
pub heartbeat_in_time :
    (c : Config)
    → pos 0 <ℤ c.ack_wait
    → (heartbeat_interval c <ℤ c.ack_wait → pos second <ℤ c.ack_wait)
      × (pos second <ℤ c.ack_wait → heartbeat_interval c <ℤ c.ack_wait)
unfolding heartbeat_interval
heartbeat_in_time c positive = (λ h. ground arith, λ h. ground arith)

heartbeats-taken :
    (c : Config) (taken : ℕ → Bool) (n : ℕ)
    → ((k : ℕ) → taken k ≡ true)
    → heartbeats c taken n ≡ n * pos_part (heartbeat_interval c) + pos_part c.ack_wait
unfolding heartbeats
heartbeats-taken c taken zero h = omega arith
heartbeats-taken c taken (suc n) h = ground (arith, h (suc n))

interval_pos : (c : Config) → 1 ≤ pos_part (heartbeat_interval c)
unfolding heartbeat_interval
interval_pos c = ground arith

interval_second : (c : Config) → second ≤ pos_part (heartbeat_interval c)
unfolding heartbeat_interval
interval_second c = ground arith

before_tick : (t i : ℕ) → 1 ≤ i → t ≤ (t - 1) / i * i + i
before_tick t i h = grind arith

interval_lt :
    (c : Config) → pos second <ℤ c.ack_wait → pos_part (heartbeat_interval c) < pos_part c.ack_wait
unfolding heartbeat_interval
interval_lt c h = ground arith

alive :
    (c : Config) (taken : ℕ → Bool) (t : ℕ)
    → ((k : ℕ) → taken k ≡ true)
    → pos second <ℤ c.ack_wait
    → t < deadline c taken t
unfolding deadline
alive c taken t all long =
    let i = pos_part (heartbeat_interval c) in
    omega (
      arith,
      heartbeats-taken c taken ((t - 1) / i) all,
      before_tick t i (interval_pos c),
      interval_lt c long,
    )

short_part : (a : ℤ) → a ≤ℤ pos second → pos_part a ≤ second
short_part (pos n) h = omega arith
short_part (negsuc n) h = omega arith

-- Without a heartbeat before it, the deadline is AckWait.
first_deadline :
    (c : Config) (taken : ℕ → Bool)
    → c.ack_wait ≤ℤ pos second
    → deadline c taken (pos_part c.ack_wait) ≡ pos_part c.ack_wait
unfolding deadline heartbeats
first_deadline c taken short =
    let none_yet : (pos_part c.ack_wait - 1) / pos_part (heartbeat_interval c) ≡ 0 =
      div-eq_of_lt (omega (arith, interval_second c, short_part c.ack_wait short)) in
    rw none_yet refl

-- As long as the server takes every heartbeat, a handler of any duration keeps its delivery if and only
-- if the AckWait is more than a second: at every time while it runs, and when it returns, the deadline
-- is still ahead. The AckWait is positive.
pub heartbeats_keep :
    (c : Config) (taken : ℕ → Bool) (handler : Handler) (task : Task)
    → pos 0 <ℤ c.ack_wait
    → ((k : ℕ) → taken k ≡ true)
    → (((elapsed : ℕ) → elapsed < (invoke_with_heartbeat c taken elapsed handler task).1)
        → pos second <ℤ c.ack_wait)
      × (pos second <ℤ c.ack_wait
          → (elapsed : ℕ) → elapsed < (invoke_with_heartbeat c taken elapsed handler task).1)
unfolding invoke_with_heartbeat
heartbeats_keep c taken handler task positive all = (
  λ keeps. elim (≤ℤ-cases c.ack_wait (pos second)) [
    | inr long ↦ long
    | inl short ↦
        let late = keeps (pos_part c.ack_wait) in
        absurd (omega (arith, late, first_deadline c taken short))
  ],
  λ long elapsed. alive c taken elapsed all long,
)
