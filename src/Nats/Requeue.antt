-- ===== src/Nats/Requeue.antt =====
-- nats_workqueue/workqueue.go: RequeueDeadTask on the two streams of a queue.
use workqueue_modules.Prelude.{
  ℕ, ◌≡◌, ◌≢◌, ◌⊎◌, inl, inr, refl, sym, ap, subst, ◌∙◌, Bool-cases, Mem, arith, Option, some, none,
  String, Option-cases,
}
use workqueue_modules.Prelude.Int.{pos}
use workqueue_modules.Workqueue.{Time, Task}
use workqueue_modules.Nats.Names.{stream_name, dlq_stream_name, tasks_subject}
use workqueue_modules.Nats.Broker.{
  Deleted, deleted, no_message, delete_failed, JetStream, TaskCodec, without_seq,
}
use workqueue_modules.Nats.State.{Config}
use workqueue_modules.Nats.Streams.{Error, server, task_not_found, ok, Queue, publish_task}
use workqueue_modules.Nats.Handling.{revived}
use workqueue_modules.Nats.Scan.{
  DeadEntry, found_or, at_entry, find_dead_task, delete_dead_seq, requeue_entry, requeue_dead_task,
}
use workqueue_modules.Nats.Listing.{first_with_id}
use workqueue_modules.Nats.Entries.{mem-appended}
use workqueue_modules.Nats.Ensured.{IsEnsured}
use workqueue_modules.Nats.HandOff.{Stands, IsProvisioned, stream-ne-dlq, publish_task-Appends}
use workqueue_modules.Nats.DeadLetters.{IsReadable, dead_letters, find_dead_task_lem}

Deleted-cases : (d : Deleted) → (d ≡ deleted) ⊎ ((d ≡ no_message) ⊎ (d ≡ delete_failed))
Deleted-cases deleted = inl refl
Deleted-cases no_message = inr (inl refl)
Deleted-cases delete_failed = inr (inr refl)

module _ (J : JetStream) (j : TaskCodec) where
  open J use {Server, stored, owner, has_stream, delete_msg}

  pub publish_task-elsewhere :
      (s : Server) (subject stream other : String) (t : Task) (id : Option String)
      → owner s subject ≡ some stream
      → stream ≢ other
      → stored (publish_task J j s subject t id).0 other ≡ stored s other
  unfolding publish_task
  publish_task-elsewhere s subject stream other t id owns apart =
      elim (Option-cases (j.marshal t)) [
        | inl k ↦ rw (publish_task, k) refl
        | inr (body, k) ↦
            rw (publish_task, k) (J.publish_elsewhere s subject stream other body id owns apart)
      ]

module _ (J : JetStream) (j : TaskCodec) (c : Config) (s : J.Server) (name : String) (k : ℕ) where
  open J use {Server, stored, has_stream, delete_msg}

  abbrev dlq : String
  dlq = dlq_stream_name c.stream_prefix name

  -- The call does not reach DeleteMsg, or ends on the server that DeleteMsg left.
  delete_dead_seq-cases :
      (delete_dead_seq J j c s name k ≡ (s, some server))
      ⊎ (((delete_dead_seq J j c s name k).0 ≡ (delete_msg s dlq k).0)
          × ((delete_dead_seq J j c s name k).1 ≡ none → (delete_msg s dlq k).1 ≡ deleted))
  unfolding delete_dead_seq
  delete_dead_seq-cases = elim (Bool-cases (has_stream s dlq)) [
    | inr f ↦ inl (rw (delete_dead_seq, f) refl)
    | inl t ↦ elim (Deleted-cases (delete_msg s dlq k).1) [
      | inl d ↦ inr (rw (delete_dead_seq, t, d) refl, λ _. d)
      | inr (inl d) ↦ inr (
        rw (delete_dead_seq, t, d) refl,
        λ h.
            absurd (
              let h' : some task_not_found ≡ none = rw (delete_dead_seq, t, d) at h in
              ground arith),
      )
      | inr (inr d) ↦ inr (
        rw (delete_dead_seq, t, d) refl,
        λ h. absurd (let h' : some server ≡ none = rw (delete_dead_seq, t, d) at h in ground arith),
      )
    ]
  ]

  delete_dead_seq-elsewhere :
      (other : String)
      → dlq ≢ other
      → stored (delete_dead_seq J j c s name k).0 other ≡ stored s other
  delete_dead_seq-elsewhere other apart = elim delete_dead_seq-cases [
    | inl same ↦ ap (λ x. stored x.0 other) same
    | inr (left, _) ↦ ap (λ x. stored x other) left ∙ J.delete_elsewhere s dlq other k apart
  ]

  -- A deletion that reports no error has taken the message.
  delete_dead_seq-takes :
      (delete_dead_seq J j c s name k).1 ≡ none
      → stored (delete_dead_seq J j c s name k).0 dlq ≡ without_seq k (stored s dlq)
  delete_dead_seq-takes h = elim delete_dead_seq-cases [
    | inl same ↦ absurd (let h' : some server ≡ none = sym (ap (λ x. x.1) same) ∙ h in ground arith)
    | inr (left, taken) ↦ ap (λ x. stored x dlq) left ∙ J.delete_takes s dlq k (taken h)
  ]

module _ (J : JetStream) (j : TaskCodec) (c : Config) (name : String) (e : DeadEntry)
    (now : Time) where
  open J use {Server, stored}

  -- The outcome of a requeue on the streams of the queue.
  pub record Requeues (before after : Server) (failed : Option Error) : Type 0 where
    pub success :
        failed ≡ none
        → Stands J j after
            (stream_name c.stream_prefix name)
            (record e.task { attempts = pos 0; last_error = ""; died_at = 0; run_at = now })
          × (stored after (dlq_stream_name c.stream_prefix name)
              ≡ without_seq e.seq (stored before (dlq_stream_name c.stream_prefix name)))
    pub kept :
        (stored after (dlq_stream_name c.stream_prefix name)
          ≡ stored before (dlq_stream_name c.stream_prefix name))
        ⊎ Stands J j after
            (stream_name c.stream_prefix name)
            (record e.task { attempts = pos 0; last_error = ""; died_at = 0; run_at = now })

  requeue_entry-Requeues :
      (s : Server)
      → IsProvisioned J c name s
      → Requeues s (requeue_entry J j c s name e now).0 (requeue_entry J j c s name e now).1
  unfolding requeue_entry
  requeue_entry-Requeues s provisioned =
      let tasks = stream_name c.stream_prefix name in
      let dead = dlq_stream_name c.stream_prefix name in
      let subject = tasks_subject c.subject_prefix name in
      let p = publish_task J j s subject (revived e.task now) none in
      let apart = stream-ne-dlq c.stream_prefix name in
      let same : stored p.0 dead ≡ stored s dead =
        publish_task-elsewhere J j s subject tasks dead (revived e.task now) none provisioned.tasks
          apart in
      elim (Option-cases p.1) [
        | inr (f, failed) ↦
            let run : requeue_entry J j c s name e now ≡ (p.0, some f) =
              rw (requeue_entry, failed) refl in
            subst (λ x. Requeues s x.0 x.1) (sym run)
              (record { success = λ h. absurd (ground (arith, h)); kept = inl same })
        | inl sent ↦
            let run : requeue_entry J j c s name e now ≡ delete_dead_seq J j c p.0 name e.seq =
              rw (requeue_entry, sent) refl in
            let a =
              publish_task-Appends J j s subject tasks (revived e.task now) none provisioned.tasks
                (λ i h. absurd (ground (arith, h))) sent in
            let d = delete_dead_seq J j c p.0 name e.seq in
            let stands : Stands J j d.0 tasks (revived e.task now) = record {
              entry = a.entry;
              decodes = a.decodes;
              inside =
                  subst (Mem a.entry)
                    (sym (
                      delete_dead_seq-elsewhere J j c p.0 name e.seq tasks (λ h. apart (sym h))
                      ∙ a.appended))
                    (mem-appended (stored s tasks) a.entry);
            } in
            subst (λ x. Requeues s x.0 x.1) (sym run)
              (record {
                success = λ h. (
                  stands,
                  delete_dead_seq-takes J j c p.0 name e.seq h ∙ ap (without_seq e.seq) same,
                );
                kept = inr stands;
              })
      ]

at_entry-found :
    (J : JetStream) (j : TaskCodec) (act : J.Server → DeadEntry → J.Server × Option Error)
    (q : Queue J) (s : J.Server) (e : DeadEntry)
    → q.js ≡ some s
    → at_entry J j act (q, ok e) ≡ (record q { js = some (act s e).0 }, (act s e).1)
unfolding at_entry
at_entry-found J j act q s e h = rw h refl

-- RequeueDeadTask of the first dead letter with the identifier publishes the task, with its
-- attempts, error and time of death reset and due now, before it deletes the dead letter: after
-- success the task stands on the tasks stream and the dead letters are the others, and after an
-- error the dead letters are as they were or the task stands on the tasks stream. Without such a
-- dead letter the call changes nothing more and returns ErrTaskNotFound. The queue is ensured, the
-- server answers each read of the dead-letter stream, and the two streams take the queue's subjects.
pub requeue_dead_task_moves :
    (J : JetStream) (j : TaskCodec) (q : Queue J) (name : String) (v : IsEnsured J q name)
    → IsReadable J v.after (dlq_stream_name q.config.stream_prefix name)
    → IsProvisioned J q.config name v.after
    → (id : String) (now : Time)
    → ((first_with_id id (dead_letters J j q name v) ≡ none)
        × (requeue_dead_task J j q name id now ≡ (v.next, some task_not_found)))
      ⊎ ((e : DeadEntry) × (after : J.Server) × (failed : Option Error) × (first_with_id id
              (dead_letters J j q name v)
            ≡ some e)
          × (requeue_dead_task J j q name id now ≡ (record v.next { js = some after }, failed))
          × Requeues J j q.config name e now v.after after failed)
unfolding requeue_dead_task at_entry
requeue_dead_task_moves J j q name v r provisioned id now =
    let act : J.Server → DeadEntry → J.Server × Option Error =
      λ s' e. requeue_entry J j q.config s' name e now in
    let run : requeue_dead_task J j q name id now
        ≡ at_entry J j act (find_dead_task J j q v.before name id) =
      simp (requeue_dead_task, v.started) refl in
    let found = run ∙ ap (at_entry J j act) (find_dead_task_lem J j q name v r id) in
    elim (Option-cases (first_with_id id (dead_letters J j q name v))) [
      | inl nothing ↦
          inl (nothing, found ∙ ap (λ o. at_entry J j act (v.next, found_or J j (ok o))) nothing)
      | inr (e, there) ↦ inr (
        e,
        (act v.after e).0,
        (act v.after e).1,
        there,
        found
            ∙ ap (λ o. at_entry J j act (v.next, found_or J j (ok o))) there
            ∙ at_entry-found J j act v.next v.after e v.still,
        requeue_entry-Requeues J j q.config name e now v.after provisioned,
      )
    ]
