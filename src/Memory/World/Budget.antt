-- ===== src/Memory/World/Budget.antt =====
-- memory_workqueue/workqueue.go: how often a task is given to a handler.
use mathlib.Core.List.{not-mem-nil}
use workqueue_modules.Prelude.{◌-◌, ◌≡◌, String, Bool, true, ◌&&◌, List, Mem, arith}
use workqueue_modules.Prelude.Int.{
  ℤ, pos, ◌+ℤ◌, ◌≤ℤ◌, ◌<ℤ◌, leb_ℤ, ltb_ℤ, wrap64, int64_end, wrap64_in_range,
}
use workqueue_modules.Workqueue.{Task}
use workqueue_modules.Workqueue.Options.{new_enqueue_options}
use workqueue_modules.Workqueue.Options.Bounds.{new_enqueue_options-max_retries}
use workqueue_modules.Memory.Store.{new, at, queue}
use workqueue_modules.Memory.Sound.{new-IsSound}
use workqueue_modules.Memory.Pushes.{waiting}
use workqueue_modules.Memory.{enqueue, new_task, clone_task}
use workqueue_modules.Prelude.{◌∷◌, [], lookup}
use workqueue_modules.Memory.World.{
  Act, enqueues, claims, completes, requeues, deletes, lists, history, start,
}
use workqueue_modules.Memory.World.Closed.{IsClosed, Admits, AllAdmit, Passes}
use workqueue_modules.Memory.World.Passes.{history-Passes}

-- The largest int is 2^63 - 1.
abbrev limited : Task → Bool
limited t = leb_ℤ (pos 0) t.max_retries && ltb_ℤ t.max_retries (pos (int64_end - 1))

-- A waiting task has attempts left, a delivery is one of them or the first, and a dead letter has
-- used them up.
unfoldable pub has_left : Task → Bool
has_left t = limited t && (leb_ℤ (pos 0) t.attempts && leb_ℤ t.attempts t.max_retries)

unfoldable pub is_within : Task → Bool
is_within t = limited t && (leb_ℤ (pos 1) t.attempts && leb_ℤ t.attempts (t.max_retries +ℤ pos 1))

unfoldable pub used_up : Task → Bool
used_up t = limited t && ltb_ℤ t.max_retries t.attempts

counted_once :
    (a m : ℤ) → pos 0 ≤ℤ a → a ≤ℤ m → m <ℤ pos (int64_end - 1) → wrap64 (a +ℤ pos 1) ≡ a +ℤ pos 1
counted_once a m low high small = wrap64_in_range (a +ℤ pos 1) (ground arith, ground arith)

counts_within :
    (t : Task)
    → has_left t ≡ true
    → is_within (record t { attempts = wrap64 (t.attempts +ℤ pos 1) }) ≡ true
unfolding has_left is_within
counts_within t h =
    let low : pos 0 ≤ℤ t.attempts = ground arith in
    let high : t.attempts ≤ℤ t.max_retries = ground arith in
    let small : t.max_retries <ℤ pos (int64_end - 1) = ground arith in
    rw (counted_once t.attempts t.max_retries low high small) (ground arith)

has_left-IsClosed : IsClosed has_left used_up is_within
unfolding has_left is_within used_up
has_left-IsClosed = record {
  counts = counts_within;
  retries = λ t o now h within. ground arith;
  buries = λ t message now h over. ground arith;
  revives = λ t now h. ground arith;
}

-- The retry budget that the options of an enqueue resolve to is not the largest int.
unfoldable pub IsLimited : Act → Type 0
IsLimited (enqueues name payload opts id now) =
    (new_enqueue_options opts).max_retries <ℤ pos (int64_end - 1)
IsLimited (claims name now) = Unit {0}
IsLimited (completes k result o now) = Unit {0}
IsLimited (requeues name id now) = Unit {0}
IsLimited (deletes name id) = Unit {0}
IsLimited (lists name limit offset) = Unit {0}

IsLimited-Admits : (a : Act) → IsLimited a → Admits has_left a
unfolding IsLimited Admits has_left enqueue new_task clone_task
IsLimited-Admits (enqueues name payload opts id now) h =
    λ m. let low = new_enqueue_options-max_retries opts in ground (arith, low, h)
IsLimited-Admits (claims name now) h = tt
IsLimited-Admits (completes k result o now) h = tt
IsLimited-Admits (requeues name id now) h = tt
IsLimited-Admits (deletes name id) h = tt
IsLimited-Admits (lists name limit offset) h = tt

unfoldable pub AllLimited : List Act → Type 0
AllLimited [] = Unit {0}
AllLimited (a ∷ acts) = IsLimited a × AllLimited acts

AllLimited-AllAdmit : (acts : List Act) → AllLimited acts → AllAdmit has_left acts
unfolding AllLimited AllAdmit
AllLimited-AllAdmit [] h = tt
AllLimited-AllAdmit (a ∷ acts) (h, later) = (IsLimited-Admits a h, AllLimited-AllAdmit acts later)

start-Passes : Passes has_left used_up is_within start
unfolding new lookup queue
start-Passes = record {
  sound = new-IsSound;
  queues = λ n. record {
    pending = λ t there. absurd (not-mem-nil there);
    dead = λ t there. absurd (not-mem-nil there);
  };
  flight = λ n t there. absurd (not-mem-nil there);
}

-- In every history of a new backend, with any number of workers and queues, a task that a handler has
-- been given has between one attempt and one more than its retry budget; a waiting task has from no
-- attempt to as many as its budget; and a dead letter has more than its budget. The budgets of the
-- enqueues are below the largest int.
pub attempts_bounded :
    (acts : List Act)
    → AllLimited acts
    → let w = history start acts in
      ((n : String) (t : Task)
        → Mem (n, t) w.in_flight
        → (pos 1 ≤ℤ t.attempts) × (t.attempts ≤ℤ t.max_retries +ℤ pos 1))
      × ((n : String) (t : Task)
          → Mem t (waiting (at w.backend n))
          → (pos 0 ≤ℤ t.attempts) × (t.attempts ≤ℤ t.max_retries))
      × ((n : String) (t : Task) → Mem t (at w.backend n).dead → t.max_retries <ℤ t.attempts)
unfolding has_left used_up is_within
attempts_bounded acts limits =
    let v =
      history-Passes has_left used_up is_within has_left-IsClosed start acts start-Passes
        (AllLimited-AllAdmit acts limits) in
    (
      λ n t there. let h = v.flight n t there in (ground arith, ground arith),
      λ n t there. let h = (v.queues n).pending t there in (ground arith, ground arith),
      λ n t there. let h = (v.queues n).dead t there in ground arith,
    )
