-- ===== src/Memory/Calls/Isolation.antt =====
-- Queues are isolated: a call on one queue leaves every other as it is.
use workqueue_modules.Prelude.{
  ℕ, Bool, true, Option, none, inl, inr, Option-cases, ◌≡◌, ◌≢◌, ap, sym, some, refl, arith, ◌==◌,
  if◌then◌else◌, ◌∙◌, String, lookup, lookup-insert_ne,
}
use workqueue_modules.Memory.Store.{QueueState, MemoryWorkQueue, queue, put_queue}
use workqueue_modules.Memory.Store.Laws.{lookup-queue, lookup-queue_ne, lookup-put_queue_ne}
use workqueue_modules.Memory.Sound.{IsSound, queue-IsSound}
use workqueue_modules.Memory.Wakeup.{closed-queue, closed-push_and_wake}
use workqueue_modules.Memory.{push_and_wake}
use workqueue_modules.Memory.Calls.{
  Call, call, name_of, Acts, skips, finds, puts, pushes, call-Acts,
}
use workqueue_modules.Workqueue.{Task}

lookup-push_and_wake_ne :
    (m : MemoryWorkQueue) (name other : String) (q : QueueState) (t : Task)
    → name ≢ other
    → lookup other (push_and_wake m name q t).queues ≡ lookup other m.queues
unfolding push_and_wake
lookup-push_and_wake_ne m name other q t apart = lookup-insert_ne name other _ m.queues apart

Acts-isolated :
    {m m' : MemoryWorkQueue} {name : String} (other : String)
    → name ≢ other
    → Acts m name m'
    → lookup other m'.queues ≡ lookup other m.queues
Acts-isolated other apart (skips e) = ap (λ x. lookup other x.queues) e
Acts-isolated {m} {m'} {name} other apart (finds e) =
    ap (λ x. lookup other x.queues) e ∙ lookup-queue_ne m name other apart
Acts-isolated {m} {m'} {name} other apart (puts q _ _ _ e) =
    ap (λ x. lookup other x.queues) e
    ∙ lookup-put_queue_ne _ name other q apart
    ∙ lookup-queue_ne m name other apart
Acts-isolated {m} {m'} {name} other apart (pushes q t _ _ e) =
    ap (λ x. lookup other x.queues) e
    ∙ lookup-push_and_wake_ne _ name other q t apart
    ∙ lookup-queue_ne m name other apart

closed-put_queue :
    (m : MemoryWorkQueue) (name : String) (q : QueueState) (ch : ℕ)
    → (put_queue m name q).closed ch ≡ m.closed ch
unfolding put_queue
closed-put_queue m name q ch = refl

other_channel :
    (c ch : ℕ) (closed : ℕ → Bool) → c ≢ ch → (if c == ch then true else closed c) ≡ closed c
other_channel c ch closed apart = ground arith

-- Whether the channel of a queue is closed, if there is the queue.
abbrev pub channel_closed : (ℕ → Bool) → Option QueueState → Option Bool
channel_closed closed none = none
channel_closed closed (some r) = some (closed r.notify)

-- The channel of another queue is neither closed nor opened.
Acts-closed :
    {m m' : MemoryWorkQueue} {name : String} (other : String) (r : QueueState)
    → IsSound m
    → name ≢ other
    → lookup other m.queues ≡ some r
    → Acts m name m'
    → m'.closed r.notify ≡ m.closed r.notify
Acts-closed other r v apart there (skips e) = ap (λ x. x.closed r.notify) e
Acts-closed {m} {m'} {name} other r v apart there (finds e) =
    ap (λ x. x.closed r.notify) e ∙ closed-queue m name r.notify
Acts-closed {m} {m'} {name} other r v apart there (puts q _ _ _ e) =
    ap (λ x. x.closed r.notify) e
    ∙ closed-put_queue (queue m name).0 name q r.notify
    ∙ closed-queue m name r.notify
Acts-closed {m} {m'} {name} other r v apart there (pushes q t same _ e) =
    let found = lookup-queue_ne m name other apart ∙ there in
    let sound = queue-IsSound m name v in
    let distinct : r.notify ≢ q.notify =
      λ h. apart (sym (sound.distinct other name r _ found (lookup-queue m name) (h ∙ same))) in
    ap (λ x. x.closed r.notify) e
    ∙ closed-push_and_wake (queue m name).0 name q t r.notify
    ∙ other_channel r.notify q.notify (queue m name).0.closed distinct
    ∙ closed-queue m name r.notify

-- A call on one queue changes nothing of any other: not its pending tasks, its dead letters, its
-- numbering or its wake channel, nor whether it exists, nor whether that channel is closed.
pub call_isolated :
    (m : MemoryWorkQueue) (c : Call) (other : String)
    → IsSound m
    → name_of c ≢ other
    → (lookup other (call m c).queues ≡ lookup other m.queues)
      × (channel_closed (call m c).closed (lookup other (call m c).queues)
          ≡ channel_closed m.closed (lookup other m.queues))
call_isolated m c other v apart =
    let same = Acts-isolated other apart (call-Acts m c v) in
    (
      same,
      elim (Option-cases (lookup other m.queues)) [
        | inl e ↦ rw (same, e) refl
        | inr (r, e) ↦ rw (same, e) (ap some (Acts-closed other r v apart e (call-Acts m c v)))
      ],
    )
