-- ===== src/Workqueue.antt =====
-- workqueue/workqueue.go: the task that every backend shares, its handler, and the calls of the
-- standard library's clock on it.
pub mod Options
pub mod Backoff
pub mod Pages
pub mod Bag
pub mod Contract
pub mod Pool
mod Tests
use workqueue_modules.Prelude.{
  ℕ, ◌+◌, ◌-◌, ◌^◌, min, String, ◌++◌, Bool, Option, none, some, List, ltb, ◌==◌, if◌then◌else◌,
}
use workqueue_modules.Prelude.Int.{ℤ, pos, pos_part, neg_part, int64_end}

-- A `time.Time`, in nanoseconds since Go's zero instant (January 1, year 1): `IsZero` is 0.
abbrev pub Time : Type 0
Time = ℕ

-- A `time.Duration`, in nanoseconds.
abbrev pub Duration : Type 0
Duration = ℤ

abbrev pub is_zero : Time → Bool
is_zero t = t == 0

-- `t.Add(d)`. The code adds only durations that are not negative.
abbrev pub add : Time → Duration → Time
add t d = t + pos_part d - neg_part d

-- `t.Sub(u)` for `u` not after `t`: the difference, or the longest duration.
abbrev pub sub : Time → Time → Duration
sub t u = pos (min (t - u) (int64_end - 1))

pub record Task : Type 0 where
  pub id : String
  pub queue : String
  pub payload : List ℕ
  pub metadata : List (String × String)
  pub attempts : ℤ
  pub max_retries : ℤ
  pub enqueued_at : Time
  pub run_at : Time
  pub last_error : String
  pub died_at : Time

pub data Error : Type 0 where
  err_task_not_found : Error

-- How an invocation of a handler ends: nil, an error with its message, or a panic with the text of
-- its value.
pub data Outcome : Type 0 where
  succeeds : Outcome
  fails : String → Outcome
  panics : String → Outcome

-- A handler is given a pointer to a task: it ends in an outcome, and may have written to the task.
abbrev pub Handler : Type 0
Handler = Task → Task × Outcome
