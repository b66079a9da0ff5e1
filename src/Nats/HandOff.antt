-- ===== src/Nats/HandOff.antt =====
-- nats_workqueue/workqueue.go: publishing a task, and acknowledging the message that it came from.
use Prim.Native.String.{count}
use text.Mathlib.TextLemmas.{length-append, append_cancel_left}
use workqueue_modules.Prelude.{
  ◌≡◌, ◌≢◌, ◌⊎◌, inl, inr, sym, ap, subst, String, false, Option, none, some, [], ◌∷◌, ◌++◌, Mem,
  arith, Bool-cases, Option-cases,
}
use workqueue_modules.Workqueue.{Task}
use workqueue_modules.Nats.Names.{stream_name, dlq_stream_name, tasks_subject, dead_subject}
use workqueue_modules.Nats.Broker.{Entry, Msg, Reply, ack, JetStream, TaskCodec, IsAscending}
use workqueue_modules.Nats.Entries.{mem-without_seq, mem-appended, appended_later}
use workqueue_modules.Nats.State.{Config}
use workqueue_modules.Nats.Streams.{server, encoding, publish_task}
use workqueue_modules.Nats.Handling.{hand_off}

pub stream-ne-dlq :
    (prefix queue : String) → stream_name prefix queue ≢ dlq_stream_name prefix queue
unfolding stream_name dlq_stream_name
stream-ne-dlq prefix queue e =
    let same = append_cancel_left "_" _ _ (append_cancel_left prefix _ _ e) in
    omega (arith, ap count same, length-append queue "_DLQ")

module _ (J : JetStream) (j : TaskCodec) where
  open J use {Server, stored, owner, is_duplicate}

  -- The task stands in a stream.
  pub record Stands (s : Server) (stream : String) (t : Task) : Type 0 where
    pub entry : Entry
    pub decodes : j.unmarshal entry.body ≡ some t
    pub inside : Mem entry (stored s stream)

  -- A publish that succeeds puts the task on the stream, behind what was there.
  pub record Appends (s s' : Server) (stream : String) (t : Task) : Type 0 where
    pub entry : Entry
    pub decodes : j.unmarshal entry.body ≡ some t
    pub appended : stored s' stream ≡ stored s stream ++ entry ∷ []

  pub publish_task-Appends :
      (s : Server) (subject stream : String) (t : Task) (id : Option String)
      → owner s subject ≡ some stream
      → ((i : String) → id ≡ some i → is_duplicate s stream i ≡ false)
      → (publish_task J j s subject t id).1 ≡ none
      → Appends s (publish_task J j s subject t id).0 stream t
  unfolding publish_task
  publish_task-Appends s subject stream t id owns fresh h = elim (Option-cases (j.marshal t)) [
    | inl e ↦ absurd (let h' : some encoding ≡ none = rw (publish_task, e) at h in ground arith)
    | inr (body, e) ↦ elim (Bool-cases ((J.publish s subject body id).1)) [
      | inl sent ↦
          let (k, appended) = J.publish_appends s subject stream body id owns sent fresh in
          record {
            entry = record { seq = k; body = body };
            decodes = j.round_trip t body e;
            appended = rw (publish_task, e) appended;
          }
      | inr lost ↦
          absurd (let h' : some server ≡ none = rw (publish_task, e, lost) at h in ground arith)
    ]
  ]

  pub publish_task-keeps :
      (s : Server) (subject stream : String) (t : Task) (id : Option String) (e : Entry)
      → Mem e (stored s stream)
      → Mem e (stored (publish_task J j s subject t id).0 stream)
  unfolding publish_task
  publish_task-keeps s subject stream t id e m = elim (Option-cases (j.marshal t)) [
    | inl k ↦ rw (publish_task, k) m
    | inr (body, k) ↦ rw (publish_task, k) (J.publish_keeps s subject stream body id e m)
  ]

  -- A reply leaves every other message of the stream.
  reply-keeps :
      (s : Server) (m : Msg) (r : Reply) (e : Entry)
      → Mem e (stored s m.stream)
      → e.seq ≢ m.entry.seq
      → Mem e (stored (J.reply s m r).0 m.stream)
  reply-keeps s m r e inside other = elim (J.reply_takes s m r) [
    | inl same ↦ subst (Mem e) (sym same) inside
    | inr taken ↦
        subst (Mem e) (sym taken) (mem-without_seq m.entry.seq (stored s m.stream) e inside other)
  ]

module _ (J : JetStream) (j : TaskCodec) (s : J.Server) (m : Msg) where
  open J use {Server, stored, owner, is_duplicate}

  -- What was appended outlives the acknowledgement of the message that is handled.
  acked-Stands :
      (s1 : Server) (stream : String) (t : Task)
      → Mem m.entry (stored s m.stream)
      → (m.stream ≡ stream) ⊎ (m.stream ≢ stream)
      → Appends J j s s1 stream t
      → Stands J j (J.reply s1 m ack).0 stream t
  acked-Stands s1 stream t inside (inr apart) a = record {
    entry = a.entry;
    decodes = a.decodes;
    inside =
        subst (Mem a.entry) (sym (J.reply_elsewhere s1 m ack stream apart))
          (subst (Mem a.entry) (sym a.appended) (mem-appended (stored s stream) a.entry));
  }
  acked-Stands s1 stream t inside (inl same) a =
      let there = subst (λ n. Mem m.entry (stored s n)) same inside in
      let later =
        appended_later (stored s stream) a.entry m.entry
          (subst IsAscending a.appended (J.ascending s1 stream)) there in
      let appended =
        subst (Mem a.entry) (sym a.appended) (mem-appended (stored s stream) a.entry) in
      record {
        entry = a.entry;
        decodes = a.decodes;
        inside =
            subst (λ n. Mem a.entry (stored (J.reply s1 m ack).0 n)) same
              (reply-keeps J j s1 m ack a.entry
                (subst (λ n. Mem a.entry (stored s1 n)) (sym same) appended)
                (λ e. omega (arith, later, e)));
      }

  -- A hand-off leaves the task on its stream, or it failed and the message is where it was.
  pub hand_off-Stands :
      (subject stream : String) (t : Task) (id : Option String)
      → Mem m.entry (stored s m.stream)
      → (m.stream ≡ stream) ⊎ (m.stream ≢ stream)
      → owner s subject ≡ some stream
      → ((i : String) → id ≡ some i → is_duplicate s stream i ≡ false)
      → Stands J j (hand_off J j m (publish_task J j s subject t id)) stream t
        ⊎ (((publish_task J j s subject t id).1 ≢ none)
            × Mem m.entry (stored (hand_off J j m (publish_task J j s subject t id)) m.stream))
  unfolding hand_off
  hand_off-Stands subject stream t id inside side owns fresh =
      let x = publish_task J j s subject t id in
      elim (Option-cases x.1) [
        | inl e ↦ inl (
            rw (hand_off, e)
              (acked-Stands x.0 stream t inside side
                (publish_task-Appends J j s subject stream t id owns fresh e)))
        | inr (f, e) ↦ inr (
          λ h. absurd (cc (h, e)),
          rw (hand_off, e) (publish_task-keeps J j s subject m.stream t id m.entry inside),
        )
      ]

-- The streams of a queue take its subjects.
pub record IsProvisioned (J : JetStream) (c : Config) (name : String) (s : J.Server) : Type 0 where
  pub tasks :
      J.owner s (tasks_subject c.subject_prefix name) ≡ some (stream_name c.stream_prefix name)
  pub dead :
      J.owner s (dead_subject c.subject_prefix name) ≡ some (dlq_stream_name c.stream_prefix name)
