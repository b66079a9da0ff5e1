-- ===== src/Memory.antt =====
-- memory_workqueue/workqueue.go: the in-memory backend. Each method runs under the mutex `mu`, so it
-- is one function on the state; a clock reading, and the identifier that the uuid package draws, are
-- its arguments.
pub mod Slice
pub mod Heap
pub mod Pending
pub mod Store
pub mod Sound
pub mod Cases
pub mod Calls
pub mod Wakeup
pub mod Delivery
pub mod Pushes
pub mod DeadLetters
pub mod Listing
pub mod World
pub mod Rounds
pub mod Refines
pub mod Life
mod Tests
use Heap
use Slice.{entry}
use Pending.{PendingItem, less, zero_item}
use Store.{MemoryWorkQueue, QueueState, queue, put_queue, broadcast, push_pending}
use workqueue_modules.Prelude.{
  ℕ, zero, suc, ◌+◌, ◌-◌, ◌*◌, String, ◌++◌, Bool, ◌&&◌, ◌||◌, Option, none, some, List, [], ◌∷◌,
  map, str_eq, ltb, leb, ◌==◌, if◌then◌else◌, length, take, drop, str_append,
}
use workqueue_modules.Prelude.Int.{◌-ℤ◌, slots_end, ℤ, pos, pos_part, ◌+ℤ◌, ltb_ℤ, leb_ℤ, wrap64}
use workqueue_modules.Workqueue.{
  Time, Duration, add, sub, Task, Error, err_task_not_found, Outcome, succeeds, fails, panics,
  Handler,
}
use workqueue_modules.Workqueue.Options.{
  EnqueueOption, ConsumeOptions, new_enqueue_options, resolve_run_at, second,
}
use workqueue_modules.Workqueue.Backoff.{retry_backoff}

-- A copy with its own payload and metadata. Values are not shared in this model, so a copy differs
-- from the original only once a handler has written to it.
unfoldable pub clone_task : Task → Task
clone_task t = record t { payload = t.payload; metadata = t.metadata }

-- The shared end of Enqueue, `complete` and RequeueDeadTask: push the task on the queue at hand, and
-- wake every worker that waits.
unfoldable pub push_and_wake : MemoryWorkQueue → String → QueueState → Task → MemoryWorkQueue
unfolding push_pending broadcast put_queue
push_and_wake m name q task =
    let (m', q') = broadcast m (push_pending q task) in put_queue m' name q'

new_task : String → String → List ℕ → List EnqueueOption → Time → Task
new_task id name payload opts now =
    let o = new_enqueue_options opts in
    record {
      id = id;
      queue = name;
      payload = payload;
      metadata = o.metadata;
      attempts = pos 0;
      max_retries = o.max_retries;
      enqueued_at = now;
      run_at = resolve_run_at o now;
      last_error = "";
      died_at = 0;
    }

unfoldable pub enqueue :
    MemoryWorkQueue → String → List ℕ → List EnqueueOption → String → Time → MemoryWorkQueue × Task
unfolding push_and_wake new_task clone_task
enqueue m name payload opts id now =
    let task = new_task id name payload opts now in
    let (m', q) = queue m name in (push_and_wake m' name q task, clone_task task)

abbrev pub idle_wait : Duration
idle_wait = pos (60 * second)

-- What `claim` returns: a task, or how long to wait and the channel that wakes earlier.
pub data Claimed : Type 0 where
  claimed : Task → Claimed
  waits : Duration → ℕ → Claimed

pub take_next : MemoryWorkQueue → String → QueueState → MemoryWorkQueue × Claimed
take_next m name q =
    let (rest, item) = Heap.pop zero_item less q.pending in
    let task = record (item.task) { attempts = wrap64 (item.task.attempts +ℤ pos 1) } in
    (put_queue m name (record q { pending = rest }), claimed task)

unfoldable pub claim : MemoryWorkQueue → String → Time → MemoryWorkQueue × Claimed
unfolding take_next
claim m name now =
    let (m', q) = queue m name in
    let next = (entry zero_item q.pending 0).task in
    if length q.pending == 0
    then (m', waits idle_wait q.notify)
    else if ltb now next.run_at
    then (m', waits (sub next.run_at now) q.notify)
    else take_next m' name q

-- A failed delivery at time `now`: the error's message is given.
fail : MemoryWorkQueue → String → Task → String → ConsumeOptions → Time → MemoryWorkQueue
unfolding push_and_wake
fail m name task message o now =
    let (m', q) = queue m name in
    if ltb_ℤ task.max_retries task.attempts
    then put_queue m' name
        (record q { dead = q.dead ++ record task { last_error = message; died_at = now } ∷ [] })
    else push_and_wake m' name q (record task {
      run_at = add now (retry_backoff o.backoff_base o.backoff_max task.attempts);
    })

unfoldable pub complete :
    MemoryWorkQueue → String → Task → Option String → ConsumeOptions → Time → MemoryWorkQueue
unfolding fail
complete m name task none o now = m
complete m name task (some message) o now = fail m name task message o now

-- The handler's error, if any; a panic is an error too. What the handler wrote to its task is
-- dropped with the task.
unfoldable pub invoke_handler : Handler → Task → Option String
invoke_handler handler task = elim ((handler task).1) [
  | succeeds ↦ none
  | fails message ↦ some message
  | panics value ↦ some (str_append "workqueue handler panic: " value)
]

-- One round of a worker's loop, with the clock at the claim and at its completion: it returns, goes
-- on with the next round, or sleeps on a timer and a channel.
pub data Turn : Type 0 where
  returns : Turn
  continues : Turn
  sleeps : Duration → ℕ → Turn

unfoldable pub worker_turn :
    MemoryWorkQueue
    → String
    → Handler
    → ConsumeOptions
    → Bool
    → Time
    → Time
    → MemoryWorkQueue × Turn
worker_turn m name handler o stopping now later =
    if stopping
    then (m, returns)
    else let (m', c) = claim m name now in
      elim c [
        | claimed task ↦
            (complete m' name task (invoke_handler handler (clone_task task)) o later, continues)
        | waits wait notify ↦ (m', sleeps wait notify)
      ]

-- `q.dead[offset:end]` copied into a slice that is made with the capacity `end-offset`; `none` is a
-- run-time panic, of `make` for a capacity that is negative or too large, or of the slice expression
-- for an end before the offset.
page : List Task → ℤ → ℤ → Option (List Task)
page dead offset end =
    let capacity = wrap64 (end -ℤ offset) in
    if ltb_ℤ capacity (pos 0) || leb_ℤ (pos slots_end) capacity
    then none
    else if ltb_ℤ end offset
    then none
    else some (map clone_task (take (pos_part end - pos_part offset) (drop (pos_part offset) dead)))

-- ListDeadTasks once the offset is not negative.
page_from : List Task → ℤ → ℤ → Option (List Task)
unfolding page
page_from dead from limit =
    let size = pos (length dead) in
    let end =
      if ltb_ℤ (pos 0) limit && ltb_ℤ (wrap64 (from +ℤ limit)) size
      then wrap64 (from +ℤ limit)
      else size in
    if leb_ℤ size from then some [] else page dead from end

unfoldable pub list_dead_tasks :
    MemoryWorkQueue → String → ℤ → ℤ → MemoryWorkQueue × Option (List Task)
unfolding page_from
list_dead_tasks m name limit offset =
    let (m', q) = queue m name in
    (m', page_from q.dead (if ltb_ℤ offset (pos 0) then pos 0 else offset) limit)

-- A task that the loop has passed stays in the list.
abbrev pub kept_before : Task → Option (Task × List Task) → Option (Task × List Task)
kept_before t none = none
kept_before t (some (u, left)) = some (u, t ∷ left)

-- The loop of RequeueDeadTask and DeleteDeadTask: the first dead task with the identifier, and the
-- list without it.
unfoldable pub take_dead : String → List Task → Option (Task × List Task)
take_dead id [] = none
take_dead id (t ∷ dead) =
    if str_eq t.id id then some (t, dead) else kept_before t (take_dead id dead)

unfoldable pub requeue_dead_task :
    MemoryWorkQueue → String → String → Time → MemoryWorkQueue × Option Error
unfolding take_dead push_and_wake
requeue_dead_task m name id now =
    let (m', q) = queue m name in
    elim (take_dead id q.dead) [
      | none ↦ (m', some err_task_not_found)
      | some (t, left) ↦ (
        push_and_wake m' name (record q { dead = left })
            (record t { attempts = pos 0; last_error = ""; died_at = 0; run_at = now }),
        none,
      )
    ]

unfoldable pub delete_dead_task : MemoryWorkQueue → String → String → MemoryWorkQueue × Option Error
unfolding take_dead
delete_dead_task m name id =
    let (m', q) = queue m name in
    elim (take_dead id q.dead) [
      | none ↦ (m', some err_task_not_found)
      | some (t, left) ↦ (put_queue m' name (record q { dead = left }), none)
    ]
