-- ===== src/Nats/Duplicates.antt =====
-- nats_workqueue/workqueue.go: the retry of a delivery under an identifier that the stream has seen.
use workqueue_modules.Prelude.{
  ◌≤◌, ◌≡◌, ◌≢◌, ◌⊎◌, inl, inr, refl, sym, ap, ◌∙◌, String, true, false, none, some, arith, ltb,
  Option-cases,
}
use workqueue_modules.Prelude.Int.{◌≤ℤ◌, ltb_ℤ}
use workqueue_modules.Workqueue.{Time, Task, Handler}
use workqueue_modules.Workqueue.Options.{ConsumeOptions}
use workqueue_modules.Nats.Names.{stream_name, dlq_stream_name, tasks_subject}
use workqueue_modules.Nats.Broker.{Msg, ack, JetStream, TaskCodec, without_seq}
use workqueue_modules.Nats.State.{Config, attempt_msg_id}
use workqueue_modules.Nats.Streams.{publish_task}
use workqueue_modules.Nats.Handling.{
  invoke_handler, retried, hand_off, handle_failure, deliver, handle_msg,
}
use workqueue_modules.Nats.HandOff.{IsProvisioned, stream-ne-dlq}
use workqueue_modules.Nats.Requeue.{publish_task-elsewhere}
use workqueue_modules.Nats.Outcomes.{counted}

module _ (J : JetStream) (j : TaskCodec) (c : Config) (s : J.Server) (m : Msg) (name : String)
    (handler : Handler) (o : ConsumeOptions) (now later : Time) where
  open J use {Server, stored, is_duplicate}

  publish-duplicate :
      (subject id : String) (t : Task)
      → J.owner s subject ≡ some m.stream
      → is_duplicate s m.stream id ≡ true
      → stored (publish_task J j s subject t (some id)).0 m.stream ≡ stored s m.stream
  unfolding publish_task
  publish-duplicate subject id t owns duplicate = elim (Option-cases (j.marshal t)) [
    | inl e ↦ rw (publish_task, e) refl
    | inr (body, e) ↦
        rw (publish_task, e) (J.publish_duplicate s subject m.stream body id owns duplicate)
  ]

  -- A failed delivery with retries left loses its task when the identifier of the attempt is a
  -- duplicate on the tasks stream and the server acknowledges the publish: the message that is handled
  -- is acknowledged, so the tasks stream is as before or, once the acknowledgement takes effect,
  -- without that message, and the dead-letter stream is as before. The streams of the queue take its
  -- subjects.
  pub duplicate_retry_lost :
      (t t' : Task) (message : String)
      → IsProvisioned J c name s
      → m.stream ≡ stream_name c.stream_prefix name
      → j.unmarshal m.entry.body ≡ some t
      → t.run_at ≤ now
      → invoke_handler handler (counted t) ≡ (t', some message)
      → t'.attempts ≤ℤ t'.max_retries
      → is_duplicate s m.stream (attempt_msg_id t'.id t'.attempts) ≡ true
      → (publish_task J j s
          (tasks_subject c.subject_prefix name)
          (retried t' message o later)
          (some (attempt_msg_id t'.id t'.attempts))).1
        ≡ none
      → let s' = handle_msg J j c s m name handler o now later in
        ((s1 : Server) × (s' ≡ (J.reply s1 m ack).0))
        × ((stored s' m.stream ≡ stored s m.stream)
            ⊎ (stored s' m.stream ≡ without_seq m.entry.seq (stored s m.stream)))
        × (stored s' (dlq_stream_name c.stream_prefix name)
            ≡ stored s (dlq_stream_name c.stream_prefix name))
  unfolding handle_msg deliver handle_failure hand_off
  duplicate_retry_lost t t' message provisioned stands e due fails within duplicate sent =
      let subject = tasks_subject c.subject_prefix name in
      let id = attempt_msg_id t'.id t'.attempts in
      let u = retried t' message o later in
      let not_early : ltb now t.run_at ≡ false = ground arith in
      let not_over : ltb_ℤ t'.max_retries t'.attempts ≡ false = ground arith in
      let s1 = (publish_task J j s subject u (some id)).0 in
      let left = invoke_handler handler (counted t) in
      let result : left.1 ≡ some message = ap (λ y. y.1) fails in
      let due_run : handle_msg J j c s m name handler o now later
          ≡ deliver J j c s m name handler o t later =
        rw (handle_msg, e, not_early) refl in
      let failed_run : deliver J j c s m name handler o t later
          ≡ handle_failure J j c s m name t' message o later =
        rw (deliver, result)
          (ap (λ v. handle_failure J j c s m name v message o later) (ap (λ y. y.0) fails)) in
      let handed_on : handle_failure J j c s m name t' message o later ≡ (J.reply s1 m ack).0 =
        rw (handle_failure, not_over, hand_off, sent) refl in
      let dead = dlq_stream_name c.stream_prefix name in
      let apart : m.stream ≢ dead = λ e. stream-ne-dlq c.stream_prefix name (sym stands ∙ e) in
      let owns = provisioned.tasks ∙ ap some (sym stands) in
      let same : stored s1 m.stream ≡ stored s m.stream =
        publish-duplicate subject id u owns duplicate in
      let ends = due_run ∙ failed_run ∙ handed_on in
      (
        (s1, ends),
        elim (J.reply_takes s1 m ack) [
          | inl kept ↦ inl (ap (λ x. stored x m.stream) ends ∙ kept ∙ same)
          | inr taken ↦
              inr (ap (λ x. stored x m.stream) ends ∙ taken ∙ ap (without_seq m.entry.seq) same)
        ],
        ap (λ x. stored x dead) ends
            ∙ J.reply_elsewhere s1 m ack dead apart
            ∙ publish_task-elsewhere J j s subject m.stream dead u (some id) owns apart,
      )
