-- ===== src/Memory/Life/Fates.antt =====
-- memory_workqueue/workqueue.go: how the life of a task ends under a worker, by its retry budget and the
-- attempts that its handler fails.
use workqueue_modules.Prelude.{
  ℕ, zero, suc, ◌+◌, ◌≤◌, ◌<◌, ◌≡◌, refl, subst, ap, ◌∙◌, inl, inr, String, false, none, some, List,
  [], ◌∷◌, arith, lookup,
}
use workqueue_modules.Prelude.Int.{
  pos, pos_part, neg_part, ◌+ℤ◌, ◌≤ℤ◌, ◌<ℤ◌, wrap64, wrap64_in_range, int64_end,
}
use workqueue_modules.Workqueue.{Time, Task, Handler}
use workqueue_modules.Workqueue.Options.{ConsumeOptions, EnqueueOption, new_enqueue_options}
use workqueue_modules.Workqueue.Contract.{retry, dead_letter}
use workqueue_modules.Memory.Store.{queue, new, MemoryWorkQueue}
use workqueue_modules.Memory.Sound.{new-IsSound}
use workqueue_modules.Memory.Calls.{call-IsSound, call, enqueues}
use workqueue_modules.Memory.Pushes.{enqueue-Gains}
use workqueue_modules.Memory.{enqueue, invoke_handler, worker_turn}
use native.Mathlib.Nat.{zero-add}
use workqueue_modules.Memory.Life.{Waits, attempted, single, Holds, round_succeeds, round_fails}

-- Rounds of a worker that is not stopped, each with the clock at its claim and at its completion.
unfoldable pub rounds :
    MemoryWorkQueue → String → Handler → ConsumeOptions → List (Time × Time) → MemoryWorkQueue
rounds m name h o [] = m
rounds m name h o ((now, later) ∷ clock) =
    rounds (worker_turn m name h o false now later).0 name h o clock

-- There are so many rounds, and each comes when the task is due, a failed one being followed by the
-- backoff.
abbrev pub Timely : ℕ → Task → ConsumeOptions → List (Time × Time) → Type 0
Timely zero t o [] = Unit {0}
Timely (suc k) t o ((now, later) ∷ clock) =
    (t.run_at ≤ now) × Timely k (retry (attempted t) o later) o clock
Timely zero t o (_ ∷ _) = ⊥
Timely (suc k) t o [] = ⊥

-- The handler fails every attempt below `n`.
abbrev pub FailsBelow : ℕ → Handler → Type 0
FailsBelow n h =
    (u : Task) → u.attempts <ℤ pos n → (message : String) × (invoke_handler h u ≡ some message)

-- A dead letter of the task, which died on its n-th attempt.
pub record IsLetter (t : Task) (n : ℕ) (u : Task) : Type 0 where
  pub id : u.id ≡ t.id
  pub queue : u.queue ≡ t.queue
  pub payload : u.payload ≡ t.payload
  pub metadata : u.metadata ≡ t.metadata
  pub attempts : u.attempts ≡ pos n

next_attempt :
    (t : Task) (a : ℕ)
    → t.attempts ≡ pos a
    → a + 1 < int64_end
    → (attempted t).attempts ≡ pos (a + 1)
next_attempt t a e h =
    let one_more : pos a +ℤ pos 1 ≡ pos (a + 1) = ground arith in
    ap (λ z. wrap64 (z +ℤ pos 1)) e
    ∙ ap wrap64 one_more
    ∙ wrap64_in_range (pos (a + 1)) (h, omega arith)

module _ (name : String) (h : Handler) (o : ConsumeOptions) where
  dies :
      (k a : ℕ) (m : MemoryWorkQueue) (t : Task) (clock : List (Time × Time))
      → Waits m name t
      → t.attempts ≡ pos a
      → t.max_retries ≡ pos (a + k)
      → a + k + 1 < int64_end
      → FailsBelow (a + k + 2) h
      → Timely (suc k) t o clock
      → (u : Task) × Holds (rounds m name h o clock) name (u ∷ []) × IsLetter t (a + k + 1) u
  unfolding rounds
  dies k a m t [] w at_a budget fits fails timely = absurd timely
  dies zero a m t (_ ∷ _ ∷ _) w at_a budget fits fails timely = absurd (timely.1)
  dies zero a m t ((now, later) ∷ []) w at_a budget fits fails (due, _) =
      let now_at = next_attempt t a at_a (omega arith) in
      let (message, e) = fails (attempted t) (rw now_at (omega arith)) in
      elim (round_fails m name t h o now later w due message e) [
        | inl (within, _) ↦ absurd (ground (arith, within))
        | inr (over, held) ↦ (
          dead_letter (attempted t) message later,
          held,
          record {
            id = refl;
            queue = refl;
            payload = refl;
            metadata = refl;
            attempts = now_at ∙ ap pos (omega arith);
          },
        )
      ]
  dies (suc k) a m t ((now, later) ∷ clock) w at_a budget fits fails (due, timely) =
      let now_at = next_attempt t a at_a (omega arith) in
      let (message, e) = fails (attempted t) (rw now_at (omega arith)) in
      elim (round_fails m name t h o now later w due message e) [
        | inl (_, waits) ↦
            let (u, held, letter) =
              dies k (a + 1) (worker_turn m name h o false now later).0
                (retry (attempted t) o later) clock waits now_at (budget ∙ ap pos (omega arith))
                (omega arith) (λ v low. fails v (omega (arith, low))) timely in
            (
              u,
              held,
              record {
                id = letter.id;
                queue = letter.queue;
                payload = letter.payload;
                metadata = letter.metadata;
                attempts = letter.attempts ∙ ap pos (omega arith);
              },
            )
        | inr (over, _) ↦ absurd (ground (arith, over))
      ]

  succeeds_at :
      (k a : ℕ) (m : MemoryWorkQueue) (t : Task) (clock : List (Time × Time))
      → Waits m name t
      → t.attempts ≡ pos a
      → pos (a + k) ≤ℤ t.max_retries
      → a + k + 1 < int64_end
      → FailsBelow (a + k + 1) h
      → ((u : Task) → u.attempts ≡ pos (a + k + 1) → invoke_handler h u ≡ none)
      → Timely (suc k) t o clock
      → Holds (rounds m name h o clock) name []
  unfolding rounds
  succeeds_at k a m t [] w at_a budget fits fails wins timely = absurd timely
  succeeds_at zero a m t (_ ∷ _ ∷ _) w at_a budget fits fails wins timely = absurd (timely.1)
  succeeds_at zero a m t ((now, later) ∷ []) w at_a budget fits fails wins (due, _) =
      let now_at = next_attempt t a at_a (omega arith) in
      round_succeeds m name t h o now later w due
        (wins (attempted t) (now_at ∙ ap pos (omega arith)))
  succeeds_at (suc k) a m t ((now, later) ∷ clock) w at_a budget fits fails wins (due, timely) =
      let now_at = next_attempt t a at_a (omega arith) in
      let (message, e) = fails (attempted t) (rw now_at (omega arith)) in
      elim (round_fails m name t h o now later w due message e) [
        | inl (_, waits) ↦
            succeeds_at k (a + 1) (worker_turn m name h o false now later).0
              (retry (attempted t) o later) clock waits now_at (omega arith) (omega arith)
              (λ v low. fails v (omega (arith, low)))
              (λ v same. wins v (same ∙ ap pos (omega arith))) timely
        | inr (over, _) ↦ absurd (omega (arith, over, ap pos_part now_at, ap neg_part now_at))
      ]

add-one : (n : ℕ) → n + 1 ≡ suc n
add-one n = omega arith

module _ (name : String) (payload : List ℕ) (opts : List EnqueueOption) (id : String)
    (start : Time) where
  abbrev pub backend : MemoryWorkQueue
  backend = (enqueue new name payload opts id start).0

  abbrev pub task : Task
  task = (enqueue new name payload opts id start).1

-- A task that has just been enqueued in a new backend.
enqueued-Waits :
    (name : String) (payload : List ℕ) (opts : List EnqueueOption) (id : String) (start : Time)
    → let (m, t) = enqueue new name payload opts id start in Waits m name t
unfolding enqueue call queue lookup new
enqueued-Waits name payload opts id start =
    let gains = (enqueue-Gains new name payload opts id start new-IsSound).0 in
    record {
      sound = call-IsSound new (enqueues name payload opts id start) new-IsSound;
      alone = single _ _ gains.gained;
      no_dead = gains.buried;
    }

module _ (name : String) (payload : List ℕ) (opts : List EnqueueOption) (id : String) (start : Time)
    (h : Handler) (o : ConsumeOptions) (clock : List (Time × Time)) (budget : ℕ)
    (retries : (new_enqueue_options opts).max_retries ≡ pos budget)
    (fits : budget + 1 < int64_end) where
  -- A task that is enqueued in a new backend with the retry budget `b`, and whose handler fails every
  -- attempt up to `b + 1`, is dead after exactly `b + 1` rounds of a worker, on its attempt `b + 1`, and
  -- no task waits: each round comes when the task is due. `b + 1` fits 64 bits.
  pub task_dies :
      FailsBelow (budget + 2) h
      → Timely (budget + 1) (task name payload opts id start) o clock
      → (u : Task) × Holds
          (rounds (backend name payload opts id start) name h o clock)
          name
          (u ∷ [])
        × IsLetter (task name payload opts id start) (budget + 1) u
  unfolding enqueue
  task_dies fails timely =
      subst
        (λ n.
          (u : Task) × Holds (rounds (backend name payload opts id start) name h o clock) name
            (u ∷ [])
          × IsLetter (task name payload opts id start) (n + 1) u)
        (zero-add budget)
        (dies name h o budget 0 (backend name payload opts id start)
          (task name payload opts id start) clock (enqueued-Waits name payload opts id start) refl
          (retries ∙ ap pos (omega arith)) (omega arith) (λ v low. fails v (omega (arith, low)))
          (subst (λ k. Timely k (task name payload opts id start) o clock) (add-one budget) timely))

  -- A task that is enqueued in a new backend with the retry budget `b`, and whose handler fails every
  -- attempt up to `n`, at most `b` of them, and succeeds on the next, is gone after exactly `n + 1`
  -- rounds of a worker: no task waits, and none is dead. Each round comes when the task is due, and
  -- `b + 1` fits 64 bits.
  pub task_succeeds :
      (n : ℕ)
      → n ≤ budget
      → FailsBelow (n + 1) h
      → ((u : Task) → u.attempts ≡ pos (n + 1) → invoke_handler h u ≡ none)
      → Timely (n + 1) (task name payload opts id start) o clock
      → Holds (rounds (backend name payload opts id start) name h o clock) name []
  unfolding enqueue
  task_succeeds n within fails wins timely =
      succeeds_at name h o n 0 (backend name payload opts id start)
        (task name payload opts id start) clock (enqueued-Waits name payload opts id start) refl
        (omega (arith, ap pos_part retries, ap neg_part retries)) (omega arith)
        (λ v low. fails v (omega (arith, low))) (λ v same. wins v (same ∙ ap pos (omega arith)))
        (subst (λ k. Timely k (task name payload opts id start) o clock) (add-one n) timely)
