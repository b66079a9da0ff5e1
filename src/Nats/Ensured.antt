-- ===== src/Nats/Ensured.antt =====
-- nats_workqueue/workqueue.go: Enqueue behind ensureQueue.
use mathlib.Core.Option.{some-injective}
use workqueue_modules.Prelude.{
  ℕ, ◌≡◌, ◌⊎◌, inl, inr, refl, ap, subst, ◌∙◌, false, List, some, String, Option-cases,
}
use workqueue_modules.Prelude.Int.{pos}
use workqueue_modules.Workqueue.{Time, Task}
use workqueue_modules.Workqueue.Options.{EnqueueOption, new_enqueue_options, resolve_run_at}
use workqueue_modules.Nats.Names.{stream_name, tasks_subject}
use workqueue_modules.Nats.Broker.{JetStream, TaskCodec}
use workqueue_modules.Nats.State.{attempt_msg_id}
use workqueue_modules.Nats.Streams.{Error, ok, err, Queue, ensure_queue, publish_task}
use workqueue_modules.Nats.Handling.{new_task, publish_new, enqueue}
use workqueue_modules.Nats.HandOff.{IsProvisioned, Appends, publish_task-Appends}

-- A call that resolved its handle and passed ensureQueue.
pub record IsEnsured (J : JetStream) (q : Queue J) (name : String) : Type 0 where
  pub before : J.Server
  pub after : J.Server
  pub next : Queue J
  pub tasks_stream : String
  pub started : q.js ≡ some before
  pub ensures : ensure_queue J q before name ≡ (next, ok tasks_stream)
  pub still : next.js ≡ some after

module _ (J : JetStream) (j : TaskCodec) (q : Queue J) (s : J.Server) (task : Task) where
  open J use {is_duplicate}

  abbrev tasks : String
  tasks = stream_name q.config.stream_prefix task.queue

  -- Publishing a new task appends it, or is an error.
  publish_new-cases :
      IsProvisioned J q.config task.queue s
      → is_duplicate s tasks (attempt_msg_id task.id (pos 0)) ≡ false
      → (after : J.Server) × (((publish_new J j q s task ≡ (record q { js = some after }, ok task))
            × Appends J j s after tasks task)
          ⊎ ((e : Error) × (publish_new J j q s task ≡ (record q { js = some after }, err e))))
  unfolding publish_new
  publish_new-cases provisioned fresh =
      let id = attempt_msg_id task.id (pos 0) in
      let p =
        publish_task J j s (tasks_subject q.config.subject_prefix task.queue) task (some id) in
      (
        p.0,
        elim (Option-cases p.1) [
          | inl sent ↦ inl (
            rw (publish_new, sent) refl,
            publish_task-Appends J j s _ tasks task (some id) provisioned.tasks
                (λ i e. subst (λ k. is_duplicate s tasks k ≡ false) (some-injective _ _ e) fresh)
                sent,
          )
          | inr (f, failed) ↦ inr (f, rw (publish_new, failed) refl)
        ],
      )

module _ (J : JetStream) (j : TaskCodec) (q : Queue J) (name : String)
    (v : IsEnsured J q name) where
  open J use {is_duplicate}

  -- The task that an Enqueue makes of its arguments.
  abbrev pub asked : List ℕ → List EnqueueOption → String → Time → Task
  asked payload opts id now =
      let o = new_enqueue_options opts in
      record {
        id = id;
        queue = name;
        payload = payload;
        metadata = o.metadata;
        attempts = pos 0;
        max_retries = o.max_retries;
        enqueued_at = now;
        run_at = resolve_run_at o now;
        last_error = "";
        died_at = 0;
      }

  -- Enqueue under an identifier that the tasks stream has not seen returns the task with the payload,
  -- with the metadata and the retry budget of the options, no attempts and the due time that the
  -- options give at `now`, and appends one message to the tasks stream, which decodes to that task; or
  -- it returns an error. The queue is ensured and its streams take its subjects.
  pub enqueue-Appends :
      IsProvisioned J v.next.config name v.after
      → (payload : List ℕ) (opts : List EnqueueOption) (id : String) (now : Time)
      → is_duplicate v.after
          (stream_name v.next.config.stream_prefix name)
          (attempt_msg_id id (pos 0))
        ≡ false
      → (after : J.Server) × (((enqueue J j q name payload opts id now
              ≡ (record v.next { js = some after }, ok (asked payload opts id now)))
            × Appends J j v.after after
                (stream_name v.next.config.stream_prefix name)
                (asked payload opts id now))
          ⊎ ((e : Error) × (enqueue J j q name payload opts id now
                ≡ (record v.next { js = some after }, err e))))
  unfolding enqueue new_task
  enqueue-Appends provisioned payload opts id now fresh =
      let task = new_task id name payload (new_enqueue_options opts) now in
      let here : (ensure_queue J q v.before name).0 ≡ v.next = ap (λ x. x.0) v.ensures in
      let ensured : (ensure_queue J q v.before name).1 ≡ ok v.tasks_stream =
        ap (λ x. x.1) v.ensures in
      let still : (ensure_queue J q v.before name).0.js ≡ some v.after =
        ap (λ x. x.js) here ∙ v.still in
      let run : enqueue J j q name payload opts id now ≡ publish_new J j v.next v.after task =
        simp (enqueue, v.started, ensured, still) (ap (λ x. publish_new J j x v.after task) here) in
      let (after, ends) = publish_new-cases J j v.next v.after task provisioned fresh in
      (
        after,
        elim ends [
          | inl (done, appends) ↦ inl (run ∙ done, appends)
          | inr (e, failed) ↦ inr (e, run ∙ failed)
        ],
      )
