-- ===== src/Workqueue/Contract.antt =====
-- workqueue/workqueue.go: what the interface WorkQueue promises of one queue, whichever backend stands
-- behind it.
use workqueue_modules.Prelude.{
  ◌≡◌, ◌≢◌, ◌⊎◌, ◌+◌, ◌<◌, length, String, false, Option, none, some, List, [], ◌∷◌, ◌++◌, ℕ, leb,
  true,
}
use workqueue_modules.Prelude.Int.{ℤ, pos, pos_part, ◌+ℤ◌, ◌≤ℤ◌, ◌<ℤ◌, int64_end, slots_end, wrap64}
use workqueue_modules.Workqueue.{Time, Task, Error, add}
use workqueue_modules.Workqueue.Options.{
  EnqueueOption, ConsumeOptions, new_enqueue_options, resolve_run_at,
}
use workqueue_modules.Workqueue.Backoff.{retry_backoff}
use workqueue_modules.Workqueue.Pages.{page_of}
use workqueue_modules.Workqueue.Bag.{Bag, put, has_due}

-- The tasks that wait for their delivery, in no order, and the dead ones, in the order of their
-- deaths.
pub record Content : Type 0 where
  pub waiting : Bag
  pub dead : List Task

-- What callers and handlers see: Enqueue with the task it returns, a delivery to a handler, a look at
-- the queue that delivers nothing, the end of a delivery with its error, and the calls on dead tasks
-- with their results.
pub data Event : Type 0 where
  enqueued : String → List ℕ → List EnqueueOption → Time → Task → Event
  delivered : Time → Task → Event
  idle : Time → Event
  ended : Task → Option String → ConsumeOptions → Time → Event
  listed : ℤ → ℤ → Option (List Task) → Event
  requeued : String → Time → Option Error → Event
  deleted : String → Option Error → Event

-- No task of the list has the identifier.
abbrev pub Lacks : String → List Task → Type 0
Lacks id [] = Unit {0}
Lacks id (t ∷ l) = (t.id ≢ id) × Lacks id l

-- `t` is the first task of `dead` with the identifier, and `left` is the rest in its order.
pub record IsFirst (id : String) (dead : List Task) (t : Task) (left : List Task) : Type 0 where
  pub before : List Task
  pub after : List Task
  pub whole : dead ≡ before ++ t ∷ after
  pub rest : left ≡ before ++ after
  pub named : t.id ≡ id
  pub first : Lacks id before

-- A task that failed on its last permitted attempt, as it stands among the dead letters.
abbrev pub dead_letter : Task → String → Time → Task
dead_letter t message now = record t { last_error = message; died_at = now }

-- A task that is to be tried again.
abbrev pub retry : Task → ConsumeOptions → Time → Task
retry t o now = record t {
  run_at = add now (retry_backoff o.backoff_base o.backoff_max t.attempts);
}

-- A dead task on its way back to the queue.
abbrev pub revived : Task → Time → Task
revived t now = record t { attempts = pos 0; last_error = ""; died_at = 0; run_at = now }

-- The queue gains a task, and its dead letters become `dead`.
abbrev pub Gets : Content → Content → Task → List Task → Type 0
Gets c c' t dead = (c'.waiting ≡ put t c.waiting) × (c'.dead ≡ dead)

abbrev pub Allows : Event → Content → Content → Type 0
Allows (enqueued name payload opts now t) c c' =
    Gets c c' t c.dead
    × (t.queue ≡ name)
    × (t.payload ≡ payload)
    × (t.metadata ≡ (new_enqueue_options opts).metadata)
    × (t.attempts ≡ pos 0)
    × (t.max_retries ≡ (new_enqueue_options opts).max_retries)
    × (t.run_at ≡ resolve_run_at (new_enqueue_options opts) now)
Allows (delivered now t) c c' =
    (u : Task) × (c.waiting ≡ put u c'.waiting)
    × (leb u.run_at now ≡ true)
    × (t ≡ record u { attempts = wrap64 (u.attempts +ℤ pos 1) })
    × (c'.dead ≡ c.dead)
Allows (idle now) c c' = (has_due now c.waiting ≡ false) × (c' ≡ c)
Allows (ended t none o now) c c' = c' ≡ c
Allows (ended t (some message) o now) c c' =
    ((t.attempts ≤ℤ t.max_retries) × Gets c c' (retry t o now) c.dead)
    ⊎ ((t.max_retries <ℤ t.attempts)
        × (c'.waiting ≡ c.waiting)
        × (c'.dead ≡ c.dead ++ dead_letter t message now ∷ []))
Allows (listed limit offset page) c c' =
    (length c.dead < slots_end
      → pos_part offset + pos_part limit < int64_end
      → page ≡ some (page_of limit (pos_part offset) c.dead))
    × (c' ≡ c)
Allows (requeued id now (some e)) c c' = Lacks id c.dead × (c' ≡ c)
Allows (requeued id now none) c c' =
    (t : Task) × (left : List Task) × IsFirst id c.dead t left × Gets c c' (revived t now) left
Allows (deleted id (some e)) c c' = Lacks id c.dead × (c' ≡ c)
Allows (deleted id none) c c' =
    (t : Task) × (left : List Task) × IsFirst id c.dead t left
    × (c'.waiting ≡ c.waiting)
    × (c'.dead ≡ left)

-- A run of the queue that the interface allows.
pub data Run : List Event → Content → Content → Type 0 where
  done : {c c' : Content} → c' ≡ c → Run [] c c'
  next :
      {e : Event} {es : List Event} {c c'' : Content} (c' : Content)
      → Allows e c c'
      → Run es c' c''
      → Run (e ∷ es) c c''
