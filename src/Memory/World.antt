-- ===== src/Memory/World.antt =====
-- memory_workqueue/workqueue.go with its workers: the backend, and the tasks that handlers have been
-- given and that are not completed.
pub mod Holds
pub mod Count
pub mod Picks
pub mod Closed
pub mod Passes
pub mod Ledger
pub mod Conservation
pub mod Budget
mod Tests
use workqueue_modules.Prelude.{ℕ, zero, suc, String, Option, none, some, List, [], ◌∷◌}
use workqueue_modules.Prelude.Int.{ℤ}
use workqueue_modules.Workqueue.{Time, Task}
use workqueue_modules.Workqueue.Options.{EnqueueOption, ConsumeOptions}
use workqueue_modules.Memory.Store.{MemoryWorkQueue, new}
use workqueue_modules.Memory.{
  Claimed, claimed, waits, claim, enqueue, complete, requeue_dead_task, delete_dead_task,
  list_dead_tasks,
}

pub record World : Type 0 where
  pub backend : MemoryWorkQueue
  pub in_flight : List (String × Task)

-- What happens, one whole call after the other. A worker that claims gets a task or goes to sleep;
-- `completes k` is the end of the k-th task in flight, with the handler's error, if any.
pub data Act : Type 0 where
  enqueues : String → List ℕ → List EnqueueOption → String → Time → Act
  claims : String → Time → Act
  completes : ℕ → Option String → ConsumeOptions → Time → Act
  requeues : String → String → Time → Act
  deletes : String → String → Act
  lists : String → ℤ → ℤ → Act

-- The k-th entry of a list and the others.
unfoldable pub pick {ℓ} : {A : Type ℓ} → ℕ → List A → Option (A × List A)
pick k [] = none
pick zero (x ∷ xs) = some (x, xs)
pick (suc k) (x ∷ xs) = elim (pick k xs) [ none ↦ none | some (y, rest) ↦ some (y, x ∷ rest) ]

abbrev pub handed : String → Claimed → List (String × Task) → List (String × Task)
handed name (claimed t) flight = (name, t) ∷ flight
handed name (waits wait notify) flight = flight

abbrev pub completed :
    World
    → Option String
    → ConsumeOptions
    → Time
    → Option ((String × Task) × List (String × Task))
    → World
completed w result o now none = w
completed w result o now (some ((name, t), rest)) = record {
  backend = complete w.backend name t result o now;
  in_flight = rest;
}

unfoldable pub act : World → Act → World
act w (enqueues name payload opts id now) = record w {
  backend = (enqueue w.backend name payload opts id now).0;
}
act w (claims name now) =
    let (m, c) = claim w.backend name now in
    record { backend = m; in_flight = handed name c w.in_flight }
act w (completes k result o now) = completed w result o now (pick k w.in_flight)
act w (requeues name id now) = record w { backend = (requeue_dead_task w.backend name id now).0 }
act w (deletes name id) = record w { backend = (delete_dead_task w.backend name id).0 }
act w (lists name limit offset) = record w {
  backend = (list_dead_tasks w.backend name limit offset).0;
}

unfoldable pub history : World → List Act → World
history w [] = w
history w (a ∷ acts) = history (act w a) acts

abbrev pub start : World
start = record { backend = new; in_flight = [] }
