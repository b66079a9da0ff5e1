-- ===== src/Postgres/Ends.antt =====
-- postgres_workqueue/workqueue.go: which endings of a call broadcast to the workers of its queue.
use workqueue_modules.Prelude.{
  ℕ, ◌≡◌, ◌≢◌, ◌⊎◌, inl, inr, refl, subst, String, true, false, Option, none, some, List,
  Bool-cases, Option-cases,
}
use workqueue_modules.Prelude.Int.{ltb_ℤ}
use workqueue_modules.Workqueue.{Time, Task, add}
use workqueue_modules.Workqueue.Backoff.{retry_backoff}
use workqueue_modules.Workqueue.Options.{ConsumeOptions, EnqueueOption, new_enqueue_options}
use workqueue_modules.Sql.{running, Json}
use workqueue_modules.Postgres.Model.{TaskRecord}
use workqueue_modules.Postgres.Store.{Postgres}
use workqueue_modules.Postgres.State.{PostgresWorkQueue, broadcast_local}
use workqueue_modules.Postgres.Channels.{
  AllOpen, Waits, broadcast_local-AllOpen, broadcast_local-wakes, broadcast_local-Waits,
}
use workqueue_modules.Postgres.{
  ok, database, enqueue, insert_task, insert_and_notify, encode_metadata, new_record, complete,
  fail, requeue_dead_task, revive_and_notify, delete_dead_task, is_attempt, rescheduled,
}

module _ (S : Postgres) where
  open S use {table}

  -- Two states with the same wake channels.
  abbrev pub Alike : PostgresWorkQueue table.Db → PostgresWorkQueue table.Db → Type 0
  Alike q q' = (q'.notifies ≡ q.notifies) × (q'.channels ≡ q.channels) × (q'.closed ≡ q.closed)

  -- The failed delivery whose retry was scheduled.
  abbrev pub Retries :
      PostgresWorkQueue table.Db → TaskRecord → Option String → ConsumeOptions → Time → Type 0
  Retries q r failure o now =
      let run_at = add now (retry_backoff o.backoff_base o.backoff_max r.attempts) in
      (d : table.Db) × (message : String) × (n : ℕ) × (q.db ≡ some d)
      × (failure ≡ some message)
      × (ltb_ℤ r.max_retries r.attempts ≡ false)
      × ((table.update d (is_attempt r running) (rescheduled message run_at)).1 ≡ some n)

  pub complete-ends :
      (q : PostgresWorkQueue table.Db) (d : table.Db) (r : TaskRecord) (failure : Option String)
      (o : ConsumeOptions) (now : Time)
      → q.db ≡ some d
      → let q' = complete S q d r failure o now in
        (Alike q q' × ¬ Retries q r failure o now) ⊎ Alike (broadcast_local q r.queue) q'
  unfolding complete fail broadcast_local
  complete-ends q d r none o now handle =
      inl ((refl, refl, refl), λ (_, _, _, _, f, _, _). absurd (cc f))
  complete-ends q d r (some message) o now handle =
      let run_at = add now (retry_backoff o.backoff_base o.backoff_max r.attempts) in
      elim (Bool-cases (ltb_ℤ r.max_retries r.attempts)) [
        | inl t ↦ inl (rw (fail, t) (refl, refl, refl), λ (_, _, _, _, _, low, _). cc (low, t))
        | inr t ↦
            elim (Option-cases
              ((table.update d (is_attempt r running) (rescheduled message run_at)).1)) [
                | inl e ↦ inl (
                  rw (fail, t, e) (refl, refl, refl),
                  λ (d', m, n, h, f, _, g).
                      let same_d : d' ≡ d = cc (h, handle) in
                      let same_m : m ≡ message = cc f in
                      let g' : (table.update d (is_attempt r running)
                            (rescheduled message run_at)).1
                          ≡ some n =
                        subst
                          (λ x.
                            (table.update x (is_attempt r running) (rescheduled message run_at)).1
                            ≡ some n)
                          same_d
                          (subst
                            (λ x.
                              (table.update d' (is_attempt r running) (rescheduled x run_at)).1
                              ≡ some n)
                            same_m g) in
                      cc (e, g'),
                )
                | inr (n, e) ↦ inr (rw (fail, t, e) (refl, refl, refl))
              ]
      ]

  pub requeue-ends :
      (q : PostgresWorkQueue table.Db) (name id : String) (now : Time)
      → let (q', failed) = requeue_dead_task S q name id now in
        (Alike q q' × (failed ≢ none)) ⊎ Alike (broadcast_local q name) q'
  unfolding requeue_dead_task broadcast_local
  requeue-ends q name id now = elim (Option-cases q.db) [
    | inl e ↦ inl (rw (requeue_dead_task, e) ((refl, refl, refl), λ h. absurd (cc h)))
    | inr (d, e) ↦
        elim (Option-cases (
          (S.transaction d database (revive_and_notify S q.config.notify_channel name id now)).1)) [
            | inl f ↦ inr (rw (requeue_dead_task, e, f) (refl, refl, refl))
            | inr (_, f) ↦
                inl (rw (requeue_dead_task, e, f) ((refl, refl, refl), λ h. absurd (cc h)))
          ]
  ]

  pub delete-ends :
      (q : PostgresWorkQueue table.Db) (name id : String) → Alike q (delete_dead_task S q name id).0
  unfolding delete_dead_task
  delete-ends q name id = elim (Option-cases q.db) [
    | inl e ↦ rw (delete_dead_task, e) (refl, refl, refl)
    | inr (d, e) ↦ rw (delete_dead_task, e) (refl, refl, refl)
  ]

  pub enqueue-ends :
      (j : Json) (q : PostgresWorkQueue table.Db) (name : String) (payload : List ℕ)
      (opts : List EnqueueOption) (id : String) (now : Time)
      → let (q', result) = enqueue S j q name payload opts id now in
        (Alike q q' × ((t : Task) → result ≢ ok t)) ⊎ Alike (broadcast_local q name) q'
  unfolding enqueue insert_task new_record broadcast_local
  enqueue-ends j q name payload opts id now =
      let o = new_enqueue_options opts in
      elim (Option-cases q.db) [
        | inl e ↦ inl (rw (enqueue, e) ((refl, refl, refl), λ t h. absurd (cc h)))
        | inr (d, e) ↦ elim (Option-cases (encode_metadata j o.metadata)) [
          | inl f ↦ inl (rw (enqueue, e, f) ((refl, refl, refl), λ t h. absurd (cc h)))
          | inr (metadata, f) ↦
              let r = new_record id name payload metadata o now in
              elim (Option-cases
                ((S.transaction d database (insert_and_notify S q.config.notify_channel r)).1)) [
                  | inl g ↦ inr (rw (enqueue, insert_task, e, f, g) (refl, refl, refl))
                  | inr (_, g) ↦ inl (
                      rw (enqueue, insert_task, e, f, g) ((refl, refl, refl), λ t h. absurd (cc h)))
                ]
        ]
      ]

  pub Alike-AllOpen : (q q' : PostgresWorkQueue table.Db) → Alike q q' → AllOpen q → AllOpen q'
  Alike-AllOpen q q' (entries, count, closed) v = record {
    live = rw (entries, count, closed) v.live;
    unmade = rw (count, closed) v.unmade;
  }

  pub Alike-Waits :
      (q q' : PostgresWorkQueue table.Db) (name : String) (ch : ℕ)
      → Alike q q'
      → Waits name ch q
      → Waits name ch q'
  Alike-Waits q q' name ch (entries, _, closed) w = rw (entries, closed) w

  -- A state with the channels of `q`, or with those that a broadcast leaves.
  abbrev pub Ends : String → PostgresWorkQueue table.Db → PostgresWorkQueue table.Db → Type 0
  Ends name q q' = Alike q q' ⊎ Alike (broadcast_local q name) q'

  pub Ends-AllOpen :
      (q q' : PostgresWorkQueue table.Db) (name : String) → Ends name q q' → AllOpen q → AllOpen q'
  Ends-AllOpen q q' name (inl same) v = Alike-AllOpen q q' same v
  Ends-AllOpen q q' name (inr woken) v =
      Alike-AllOpen (broadcast_local q name) q' woken (broadcast_local-AllOpen q name v)

  pub Ends-Waits :
      (q q' : PostgresWorkQueue table.Db) (other name : String) (ch : ℕ)
      → Ends other q q'
      → Waits name ch q
      → Waits name ch q'
  Ends-Waits q q' other name ch (inl same) w = Alike-Waits q q' name ch same w
  Ends-Waits q q' other name ch (inr woken) w =
      Alike-Waits (broadcast_local q other) q' name ch woken
        (broadcast_local-Waits q other name ch w)

  pub woken :
      (q q' : PostgresWorkQueue table.Db) (name : String) (ch : ℕ)
      → Alike (broadcast_local q name) q'
      → Waits name ch q
      → q'.closed ch ≡ true
  woken q q' name ch (_, _, closed) w = rw closed (broadcast_local-wakes q name ch w)
