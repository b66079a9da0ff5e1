-- ===== src/Postgres/Wakeup.antt =====
-- postgres_workqueue/workqueue.go and listener.go: which calls and notifications wake the workers
-- that wait on a queue.
use workqueue_modules.Prelude.{
  ℕ, ◌≡◌, ◌⊎◌, inl, inr, refl, sym, subst, String, Bool, true, false, Option, none, List, [], ◌∷◌,
  str_eq, if_intro, eq_iff, Option-cases,
}
use workqueue_modules.Workqueue.{Task}
use workqueue_modules.Sql.{Json}
use workqueue_modules.Postgres.Store.{Postgres}
use workqueue_modules.Postgres.State.{
  PostgresWorkQueue, notify, broadcast_local, Config, new, broadcast_local-keeps,
  broadcast_all-keeps,
}
use workqueue_modules.Postgres.Listener.{on_wake}
use workqueue_modules.Postgres.Calls.{
  Call, enqueues, claims, reaps, completes, requeues, deletes, call, on_table, completed,
}
use workqueue_modules.Postgres.Channels.{
  AllOpen, Waits, new-AllOpen, broadcast_local-AllOpen, broadcast_all-AllOpen, notify-AllOpen,
  notify-opened, notify-keeps, notify-Waits, broadcast_local-wakes, broadcast_all-wakes,
  broadcast_local-Waits,
}
use workqueue_modules.Postgres.{ok, enqueue, complete, requeue_dead_task}
use workqueue_modules.Postgres.Ends.{
  Alike, Retries, complete-ends, requeue-ends, delete-ends, enqueue-ends, Ends, Ends-AllOpen,
  Ends-Waits, woken,
}

-- A call, a worker that takes the channel of a queue, or a payload that the listener hands on, ""
-- when it has connected.
pub data Event : Type 0 where
  calls : Call → Event
  looks : String → Event
  hears : String → Event

module _ (S : Postgres) (j : Json) where
  open S use {table}

  unfoldable pub step : PostgresWorkQueue table.Db → Event → PostgresWorkQueue table.Db
  step q (calls c) = call S j q c
  step q (looks name) = (notify q name).0
  step q (hears payload) = on_wake q payload

  unfoldable pub steps : PostgresWorkQueue table.Db → List Event → PostgresWorkQueue table.Db
  steps q [] = q
  steps q (e ∷ es) = steps (step q e) es

  -- The event gives the queue a task that can be claimed, as far as this process can tell: an Enqueue
  -- or a RequeueDeadTask that succeeds, a retry that is scheduled, a notification of the queue, or
  -- the listener's connecting.
  abbrev pub Announces : PostgresWorkQueue table.Db → String → Event → Type 0
  Announces q name (calls (enqueues other payload opts id now)) =
      (other ≡ name) × ((t : Task) × ((enqueue S j q other payload opts id now).1 ≡ ok t))
  Announces q name (calls (requeues other id now)) =
      (other ≡ name) × ((requeue_dead_task S q other id now).1 ≡ none)
  Announces q name (calls (completes r failure o now)) =
      (r.queue ≡ name) × Retries S q r failure o now
  Announces q name (hears payload) = (payload ≡ "") ⊎ (payload ≡ name)
  Announces q name _ = ⊥

  -- Some event of the history does.
  abbrev pub Announced : PostgresWorkQueue table.Db → String → List Event → Type 0
  Announced q name [] = ⊥
  Announced q name (e ∷ es) = Announces q name e ⊎ Announced (step q e) name es

  call-Ends :
      (q : PostgresWorkQueue table.Db) (c : Call) → (name : String) × Ends S name q (call S j q c)
  unfolding call on_table complete broadcast_local
  call-Ends q (enqueues name payload opts id now) = (
    name,
    elim (enqueue-ends S j q name payload opts id now) [ inl (same, _) ↦ inl same | inr w ↦ inr w ],
  )
  call-Ends q (claims locked name now later) = elim (Option-cases q.db) [
    | inl e ↦ (name, inl (rw e (refl, refl, refl)))
    | inr (d, e) ↦ (name, inl (rw e (refl, refl, refl)))
  ]
  call-Ends q (reaps name now) = elim (Option-cases q.db) [
    | inl e ↦ (name, inl (rw e (refl, refl, refl)))
    | inr (d, e) ↦ (name, inl (rw e (refl, refl, refl)))
  ]
  call-Ends q (completes r failure o now) = elim (Option-cases q.db) [
    | inl e ↦ (r.queue, inl (rw e (refl, refl, refl)))
    | inr (d, e) ↦ (
      r.queue,
      rw e (elim (complete-ends S q d r failure o now e) [
        | inl (same, _) ↦ inl same
        | inr w ↦ inr w
      ]),
    )
  ]
  call-Ends q (requeues name id now) =
      (name, elim (requeue-ends S q name id now) [ inl (same, _) ↦ inl same | inr w ↦ inr w ])
  call-Ends q (deletes name id) = (name, inl (delete-ends S q name id))

  step-AllOpen : (q : PostgresWorkQueue table.Db) (e : Event) → AllOpen q → AllOpen (step q e)
  unfolding step on_wake
  step-AllOpen q (calls c) v =
      let (name, ends) = call-Ends q c in Ends-AllOpen S q (call S j q c) name ends v
  step-AllOpen q (looks name) v = notify-AllOpen q name v
  step-AllOpen q (hears payload) v =
      if_intro (λ r. AllOpen {D = table.Db} r) (str_eq payload "") (λ t. broadcast_all-AllOpen q v)
        (λ t. broadcast_local-AllOpen q payload v)

  pub steps-AllOpen :
      (q : PostgresWorkQueue table.Db) (es : List Event) → AllOpen q → AllOpen (steps q es)
  unfolding steps
  steps-AllOpen q [] v = v
  steps-AllOpen q (e ∷ es) v = steps-AllOpen (step q e) es (step-AllOpen q e v)

  step-Waits :
      (q : PostgresWorkQueue table.Db) (name : String) (ch : ℕ) (e : Event)
      → Waits name ch q
      → Waits name ch (step q e)
  unfolding step on_wake
  step-Waits q name ch (calls c) w =
      let (other, ends) = call-Ends q c in Ends-Waits S q (call S j q c) other name ch ends w
  step-Waits q name ch (looks other) w = notify-Waits q other name ch w
  step-Waits q name ch (hears payload) w =
      if_intro (λ r. Waits {D = table.Db} name ch r) (str_eq payload "")
        (λ t. inl (broadcast_all-wakes q name ch w))
        (λ t. broadcast_local-Waits q payload name ch w)

  step-wakes :
      (q : PostgresWorkQueue table.Db) (name : String) (ch : ℕ) (e : Event)
      → Waits name ch q
      → Announces q name e
      → (step q e).closed ch ≡ true
  unfolding step call on_wake
  step-wakes q name ch (calls (enqueues other payload opts id now)) w (same, (t, returned)) =
      let q' = (enqueue S j q other payload opts id now).0 in
      elim (enqueue-ends S j q other payload opts id now) [
        | inl (_, never) ↦ absurd (never t returned)
        | inr ends ↦
            woken S q q' name ch (subst (λ k. Alike S (broadcast_local q k) q') same ends) w
      ]
  step-wakes q name ch (calls (requeues other id now)) w (same, returned) =
      let q' = (requeue_dead_task S q other id now).0 in
      elim (requeue-ends S q other id now) [
        | inl (_, never) ↦ absurd (never returned)
        | inr ends ↦
            woken S q q' name ch (subst (λ k. Alike S (broadcast_local q k) q') same ends) w
      ]
  step-wakes q name ch (calls (completes r failure o now)) w (same, retried) =
      let (d, _, _, handle, _, _, _) = retried in
      let q' = completed S j r failure o now q in
      let runs : q' ≡ complete S q d r failure o now = rw handle refl in
      elim (complete-ends S q d r failure o now handle) [
        | inl (_, never) ↦ absurd (never retried)
        | inr ends ↦
            woken S q q' name ch
              (subst (λ k. Alike S (broadcast_local q k) q') same
                (subst (Alike S (broadcast_local q r.queue)) (sym runs) ends))
              w
      ]
  step-wakes q name ch (calls (claims _ _ _ _)) w a = absurd a
  step-wakes q name ch (calls (reaps _ _)) w a = absurd a
  step-wakes q name ch (calls (deletes _ _)) w a = absurd a
  step-wakes q name ch (looks other) w a = absurd a
  step-wakes q name ch (hears payload) w a =
      if_intro (λ r. ◌≡◌ {A = Bool} (PostgresWorkQueue.closed {D = table.Db} r ch) true)
        (str_eq payload "") (λ t. broadcast_all-wakes q name ch w)
        (λ t. elim a [
          | inl e ↦ absurd (cc ((eq_iff payload "").1 e, t))
          | inr e ↦
              subst (λ k. (broadcast_local q k).closed ch ≡ true) (sym e)
                (broadcast_local-wakes q name ch w)
        ])

  step-keeps :
      (q : PostgresWorkQueue table.Db) (ch : ℕ) (e : Event)
      → q.closed ch ≡ true
      → (step q e).closed ch ≡ true
  unfolding step on_wake
  step-keeps q ch (calls c) h =
      let (name, ends) = call-Ends q c in
      elim ends [
        | inl (_, _, closed) ↦ rw closed h
        | inr (_, _, closed) ↦ rw closed (broadcast_local-keeps q name ch h)
      ]
  step-keeps q ch (looks name) h = notify-keeps q name ch h
  step-keeps q ch (hears payload) h =
      if_intro (λ r. ◌≡◌ {A = Bool} (PostgresWorkQueue.closed {D = table.Db} r ch) true)
        (str_eq payload "") (λ t. broadcast_all-keeps q ch h)
        (λ t. broadcast_local-keeps q payload ch h)

  steps-keeps :
      (q : PostgresWorkQueue table.Db) (ch : ℕ) (es : List Event)
      → q.closed ch ≡ true
      → (steps q es).closed ch ≡ true
  unfolding steps
  steps-keeps q ch [] h = h
  steps-keeps q ch (e ∷ es) h = steps-keeps (step q e) ch es (step-keeps q ch e h)

  steps-wakes :
      (q : PostgresWorkQueue table.Db) (name : String) (ch : ℕ) (es : List Event)
      → Waits name ch q
      → Announced q name es
      → (steps q es).closed ch ≡ true
  unfolding steps
  steps-wakes q name ch [] w a = absurd a
  steps-wakes q name ch (e ∷ es) w (inl now) =
      steps-keeps (step q e) ch es (step-wakes q name ch e w now)
  steps-wakes q name ch (e ∷ es) w (inr later) =
      steps-wakes (step q e) name ch es (step-Waits q name ch e w) later

  -- In every history of a new backend, the wake channel of every queue has been made, is open and is
  -- no other queue's, so that no broadcast closes a closed channel. A worker that then takes the
  -- channel of its queue has an open one, and it is closed when, in whatever happens next, an Enqueue
  -- or a RequeueDeadTask of this process on the queue succeeds, a failed delivery of the queue
  -- schedules its retry, the listener hears the queue's name, or the listener connects.
  pub announced_wakes :
      (db : Option table.Db) (config : Config) (before : List Event) (name : String)
      (after : List Event)
      → Announced (notify (steps (new db config) before) name).0 name after
      → let q = steps (new db config) before in
        let (waiting, ch) = notify q name in
        AllOpen q × (waiting.closed ch ≡ false) × ((steps waiting after).closed ch ≡ true)
  announced_wakes db config before name after announced =
      let q = steps (new db config) before in
      let v = steps-AllOpen (new db config) before (new-AllOpen db config) in
      let (opened, found) = notify-opened q name v in
      (v, opened, steps-wakes (notify q name).0 name (notify q name).1 after (inr found) announced)
