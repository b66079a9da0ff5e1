-- ===== src/Memory/Wakeup.antt =====
-- Sleeping workers: what a worker knows of its queue while its wake channel stays open.
use mathlib.Core.List.{not-mem-nil}
use native.Mathlib.Decide.{dec_lt}
use workqueue_modules.Prelude.{
  ℕ, ◌≤◌, ◌≡◌, ◌≢◌, refl, sym, ap, subst, ◌∙◌, ◌⊎◌, inl, inr, String, true, false, some, List, [],
  ◌∷◌, Mem, arith, ◌==◌, length, lookup, insert, lookup-insert_self, lookup-insert_ne,
  if◌then◌else◌, Bool-cases, str_eq, eq_iff,
}
use workqueue_modules.Workqueue.{Time, Duration, Task, add, sub}
use workqueue_modules.Memory.Heap.Order.{root_least_mem}
use workqueue_modules.Memory.Pending.{PendingItem, less, zero_item, less-IsWeakOrder}
use workqueue_modules.Memory.Store.{QueueState, MemoryWorkQueue, put_queue, queue, at}
use workqueue_modules.Memory.Store.Laws.{lookup-queue, queue_hit, lookup-queue_ne}
use workqueue_modules.Memory.Sound.{IsSound, queue-IsSound}
use workqueue_modules.Memory.Calls.{
  Call, call, run, Acts, skips, finds, puts, pushes, call-Acts, call-IsSound, at-IsHeap,
}
use workqueue_modules.Memory.Cases.{next, claim_empty, claim_early, claim_due}
use workqueue_modules.Memory.{take_next, push_and_wake, claim, waits}

-- Channel `ch` has been closed, or it still is the channel of the queue, and every pending item
-- there satisfies `P`.
abbrev pub Watched : (PendingItem → Type 0) → ℕ → String → MemoryWorkQueue → Type 0
Watched P ch name m =
    (m.closed ch ≡ true)
    ⊎ ((q : QueueState) × (lookup name m.queues ≡ some q)
        × (q.notify ≡ ch)
        × ((x : PendingItem) → Mem x q.pending → P x))

pub closed-queue :
    (m : MemoryWorkQueue) (name : String) (ch : ℕ) → (queue m name).0.closed ch ≡ m.closed ch
unfolding queue put_queue
closed-queue m name ch = ground arith

pub closed-push_and_wake :
    (m : MemoryWorkQueue) (name : String) (q : QueueState) (t : Task) (ch : ℕ)
    → (push_and_wake m name q t).closed ch ≡ (if ch == q.notify then true else m.closed ch)
unfolding push_and_wake
closed-push_and_wake m name q t ch = refl

names_cases : (j k : String) → (j ≡ k) ⊎ (j ≢ k)
names_cases j k = elim (Bool-cases (str_eq j k)) [
  | inl same ↦ inl ((eq_iff j k).0 same)
  | inr apart ↦ inr (λ e. cc ((eq_iff j k).1 e))
]

module _ (P : PendingItem → Type 0) (ch : ℕ) (name : String) where
  -- A queue's state after it has been found.
  Watched-queue :
      (m : MemoryWorkQueue) (other : String)
      → Watched P ch name m
      → Watched P ch name (queue m other).0
  Watched-queue m other (inl closed) = inl (closed-queue m other ch ∙ closed)
  Watched-queue m other (inr (q, found, same, all)) = elim (names_cases other name) [
    | inl e ↦ inr (
      q,
      subst (λ k. lookup name (queue m k).0.queues ≡ some q) (sym e)
          (subst (λ p. lookup name p.0.queues ≡ some q) (sym (queue_hit m name q found)) found),
      same,
      all,
    )
    | inr apart ↦ inr (q, lookup-queue_ne m other name apart ∙ found, same, all)
  ]

  module _ (m : MemoryWorkQueue) (other : String) (old q : QueueState)
      (found : lookup other m.queues ≡ some old) (kept : q.notify ≡ old.notify) where
    -- A write that takes items away.
    Watched-put_queue :
        ((x : PendingItem) → Mem x q.pending → Mem x old.pending)
        → Watched P ch name m
        → Watched P ch name (put_queue m other q)
    unfolding put_queue
    Watched-put_queue fewer (inl closed) = inl closed
    Watched-put_queue fewer (inr (r, there, same, all)) = elim (names_cases other name) [
      | inl e ↦
          let r-is-old : r ≡ old = cc (subst (λ k. lookup k m.queues ≡ some old) e found) in
          inr (
            q,
            subst (λ k. lookup k (insert other q m.queues) ≡ some q) e
                (lookup-insert_self other q m.queues),
            kept ∙ ap (λ x. x.notify) (sym r-is-old) ∙ same,
            λ x h. all x (subst (λ o. Mem x o.pending) (sym r-is-old) (fewer x h)),
          )
      | inr apart ↦ inr (r, lookup-insert_ne other name q m.queues apart ∙ there, same, all)
    ]

    -- A push closes the channel of its queue.
    Watched-push_and_wake :
        (t : Task) → Watched P ch name m → Watched P ch name (push_and_wake m other q t)
    unfolding push_and_wake
    Watched-push_and_wake t (inl closed) = inl (ground arith)
    Watched-push_and_wake t (inr (r, there, same, all)) = elim (names_cases other name) [
      | inl e ↦
          let r-is-old : r ≡ old = cc (subst (λ k. lookup k m.queues ≡ some old) e found) in
          let it : ch ≡ q.notify = sym same ∙ ap (λ x. x.notify) r-is-old ∙ sym kept in
          inl (ground arith)
      | inr apart ↦ inr (r, lookup-insert_ne other name _ m.queues apart ∙ there, same, all)
    ]

  Watched-Acts :
      {m m' : MemoryWorkQueue} {other : String}
      → Acts m other m'
      → Watched P ch name m
      → Watched P ch name m'
  Watched-Acts (skips e) w = subst (Watched P ch name) (sym e) w
  Watched-Acts {m} {m'} {other} (finds e) w =
      subst (Watched P ch name) (sym e) (Watched-queue m other w)
  Watched-Acts {m} {m'} {other} (puts q same heap fewer e) w =
      subst (Watched P ch name) (sym e)
        (Watched-put_queue _ other _ q (lookup-queue m other) same fewer (Watched-queue m other w))
  Watched-Acts {m} {m'} {other} (pushes q t same kept e) w =
      subst (Watched P ch name) (sym e)
        (Watched-push_and_wake _ other _ q (lookup-queue m other) same t (Watched-queue m other w))

  -- Whatever calls follow, the channel of a queue is closed before anything is pushed onto it.
  pub Watched-run :
      (m : MemoryWorkQueue) (cs : List Call)
      → IsSound m
      → Watched P ch name m
      → Watched P ch name (run m cs)
  unfolding run
  Watched-run m [] v w = w
  Watched-run m (c ∷ cs) v w =
      Watched-run (call m c) cs (call-IsSound m c v) (Watched-Acts (call-Acts m c v) w)

-- An item that is not less than another is due no earlier.
pub less-run_at : (x r : PendingItem) → less x r ≡ false → r.task.run_at ≤ x.task.run_at
unfolding less
less-run_at x r h = ground arith

pub empty_mem : (a : List PendingItem) (x : PendingItem) → length a ≡ 0 → ¬ Mem x a
empty_mem [] x e m = not-mem-nil m
empty_mem (y ∷ a) x e m = absurd (omega arith)

-- The item is not due before the end of the wait.
abbrev Later : Time → Duration → PendingItem → Type 0
Later now wait x = add now wait ≤ x.task.run_at

-- A worker that is told to wait is given the channel of the queue and a time before which no pending
-- task is due.
pub claim_waits :
    (m : MemoryWorkQueue) (name : String) (now : Time) (wait : Duration) (ch : ℕ)
    → IsSound m
    → (claim m name now).1 ≡ waits wait ch
    → ((claim m name now).0 ≡ (queue m name).0)
      × ((at m name).notify ≡ ch)
      × ((x : PendingItem) → Mem x (at m name).pending → add now wait ≤ x.task.run_at)
unfolding take_next
claim_waits m name now wait ch v h = elim (dec_lt 0 (length (at m name).pending)) [
  | no empty ↦
      let e = claim_empty m name now (omega arith) in
      (ap (λ r. r.0) e, cc (ap (λ r. r.1) e), λ x there. absurd (empty_mem _ x (omega arith) there))
  | yes some_item ↦ elim (dec_lt now (next m name).run_at) [
    | no due ↦ absurd (cc (h, ap (λ r. r.1) (claim_due m name now some_item (omega arith))))
    | yes early ↦
        let e = claim_early m name now some_item early in
        (
          ap (λ r. r.0) e,
          cc (ap (λ r. r.1) e),
          λ x there.
              let w : sub (next m name).run_at now ≡ wait = cc (ap (λ r. r.1) e) in
              let least =
                root_least_mem zero_item less less-IsWeakOrder _ x (at-IsHeap m name v) there in
              rw (← w) (omega (arith, less-run_at x _ least)),
        )
  ]
]

-- A worker whose claim at time `now` found nothing due sleeps for `wait`, or until its channel is
-- closed. Whatever calls the other goroutines make in the meantime, as long as the channel is open
-- no pending task of the queue is due before `now + wait`: no wake-up is lost.
pub no_lost_wakeup :
    (m : MemoryWorkQueue) (name : String) (now : Time) (wait : Duration) (ch : ℕ) (cs : List Call)
    → IsSound m
    → (claim m name now).1 ≡ waits wait ch
    → ((run (claim m name now).0 cs).closed ch ≡ true)
      ⊎ ((x : PendingItem)
          → Mem x (at (run (claim m name now).0 cs) name).pending
          → add now wait ≤ x.task.run_at)
no_lost_wakeup m name now wait ch cs v h =
    let (same, notify, later) = claim_waits m name now wait ch v h in
    let start : Watched (Later now wait) ch name (claim m name now).0 =
      inr (at m name, rw same (lookup-queue m name), notify, later) in
    elim (Watched-run (Later now wait) ch name _ cs (rw same (queue-IsSound m name v)) start) [
      | inl closed ↦ inl closed
      | inr (q, found, _, all) ↦ inr (
          subst (λ p. (x : PendingItem) → Mem x p.1.pending → Later now wait x)
            (sym (queue_hit _ name q found)) all)
    ]
