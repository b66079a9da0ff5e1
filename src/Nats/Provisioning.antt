-- ===== src/Nats/Provisioning.antt =====
-- nats_workqueue/workqueue.go: what ensureQueue leaves on the server and in its cache.
use Prim.Native.String.{count}
use text.Mathlib.TextLemmas.{append_cancel_left}
use workqueue_modules.Prelude.{
  ◌≡◌, ◌≢◌, inl, inr, refl, sym, ap, ◌∙◌, true, Bool-cases, arith, some, none, String, lookup,
  insert, lookup-insert_self, Bool,
}
use workqueue_modules.Nats.Names.{stream_name, tasks_subject, dead_subject, validate_queue}
use workqueue_modules.Nats.Broker.{JetStream}
use workqueue_modules.Nats.Streams.{
  Error, server, invalid_queue, Result, ok, err, Queue, tasks_config, dead_config, provision,
  ensure_queue,
}
use workqueue_modules.Nats.HandOff.{IsProvisioned, stream-ne-dlq}

subject-ne-dead : (prefix queue : String) → tasks_subject prefix queue ≢ dead_subject prefix queue
unfolding tasks_subject dead_subject
subject-ne-dead prefix queue e =
    let same =
      append_cancel_left queue _ _ (append_cancel_left "." _ _ (append_cancel_left prefix _ _ e)) in
    let counts : count ".tasks" ≡ count ".dead" = ap count same in absurd (ground (arith, counts))

err-ne-ok : (e : Error) (stream : String) → Path (Result String) (err e) (ok stream) → ⊥
err-ne-ok e stream h = absurd (ground (arith, h))

module _ (J : JetStream) (q : Queue J) (s : J.Server) (name : String) where
  open J use {Server, ensure_stream, stored}

  abbrev first : Server × Bool
  first = ensure_stream s (tasks_config q.config name)

  abbrev second : Server × Bool
  second = ensure_stream first.0 (dead_config q.config name)

  abbrev provisioned : Queue J
  provisioned = record q {
    js = some second.0;
    ensured = insert name (stream_name q.config.stream_prefix name) q.ensured;
  }

  -- Both streams are there, when no error is reported.
  provision-ok :
      (stream : String)
      → (provision J q s name).1 ≡ ok stream
      → (first.1 ≡ true)
        × (second.1 ≡ true)
        × (provision J q s name ≡ (provisioned, ok stream))
        × (stream ≡ stream_name q.config.stream_prefix name)
  unfolding provision
  provision-ok stream h = elim (Bool-cases first.1) [
    | inr f ↦ absurd (err-ne-ok server stream (rw (provision, f) at h))
    | inl t ↦ elim (Bool-cases second.1) [
      | inr f ↦ absurd (err-ne-ok server stream (rw (provision, t, f) at h))
      | inl t' ↦
          let h' : ok (stream_name q.config.stream_prefix name) ≡ ok stream =
            rw (provision, t, t') at h in
          (t, t', rw (provision, t, t') (ap (λ r. (provisioned, r)) h'), ground (arith, h'))
    ]
  ]

  second-IsProvisioned : first.1 ≡ true → second.1 ≡ true → IsProvisioned J q.config name second.0
  second-IsProvisioned t t' = record {
    tasks =
        J.ensure_keeps_owner first.0 (dead_config q.config name) _ _
          (stream-ne-dlq q.config.stream_prefix name) (subject-ne-dead q.config.subject_prefix name)
          (J.ensure_owns s (tasks_config q.config name) t);
    dead = J.ensure_owns first.0 (dead_config q.config name) t';
  }

  remembered :
      (later : Server)
      → validate_queue name ≡ true
      → ensure_queue J provisioned later name
        ≡ (provisioned, ok (stream_name q.config.stream_prefix name))
  unfolding ensure_queue
  remembered later valid =
      rw
        (
          ensure_queue,
          valid,
          lookup-insert_self name (stream_name q.config.stream_prefix name) q.ensured,
        )
        refl

  ensure_queue-valid :
      (stream : String) → (ensure_queue J q s name).1 ≡ ok stream → validate_queue name ≡ true
  unfolding ensure_queue
  ensure_queue-valid stream h = elim (Bool-cases (validate_queue name)) [
    | inl t ↦ t
    | inr f ↦ absurd (err-ne-ok invalid_queue stream (rw (ensure_queue, f) at h))
  ]

  ensure_queue-provision :
      validate_queue name ≡ true
      → lookup name q.ensured ≡ none
      → ensure_queue J q s name ≡ provision J q s name
  unfolding ensure_queue
  ensure_queue-provision valid new = rw (ensure_queue, valid, new) refl

-- The first ensureQueue of a queue that succeeds leaves a server on which both streams take the
-- queue's subjects, and remembers the queue: it had a valid name, all streams keep what they
-- stored, and the next call for it asks the server nothing.
pub ensure_queue_provisions :
    (J : JetStream) (q : Queue J) (s : J.Server) (name stream : String)
    → lookup name q.ensured ≡ none
    → (ensure_queue J q s name).1 ≡ ok stream
    → (validate_queue name ≡ true)
      × ((q' : Queue J) × (s' : J.Server) × (ensure_queue J q s name ≡ (q', ok stream))
          × (q'.js ≡ some s')
          × IsProvisioned J q.config name s'
          × ((n : String) → J.stored s' n ≡ J.stored s n)
          × ((later : J.Server) → ensure_queue J q' later name ≡ (q', ok stream)))
ensure_queue_provisions J q s name stream new done =
    let valid = ensure_queue-valid J q s name stream done in
    let run = ensure_queue-provision J q s name valid new in
    let (t, t', ends, named) = provision-ok J q s name stream (sym (ap (λ x. x.1) run) ∙ done) in
    (
      valid,
      (
        provisioned J q s name,
        (second J q s name).0,
        run ∙ ends,
        refl,
        second-IsProvisioned J q s name t t',
        (λ n.
            J.ensure_keeps_stored (first J q s name).0 (dead_config q.config name) n
            ∙ J.ensure_keeps_stored s (tasks_config q.config name) n),
        λ later.
            remembered J q s name later valid
            ∙ ap (λ n. (provisioned J q s name, ok n)) (sym named),
      ),
    )
