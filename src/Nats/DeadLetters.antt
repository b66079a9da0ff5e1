-- ===== src/Nats/DeadLetters.antt =====
-- nats_workqueue/workqueue.go: ListDeadTasks, findDeadTask and RequeueDeadTask, against the messages
-- of the dead-letter stream.
use mathlib.Core.List.{mem-cons_self}
use native.Mathlib.Decide.{ℕ_discrete}
use workqueue_modules.Prelude.{
  ℕ, suc, ◌-◌, ◌<◌, ◌≡◌, ◌≢◌, refl, ap, subst, ◌∙◌, true, false, Bool, List, [], ◌∷◌, Mem, arith,
  some, none, String,
}
use workqueue_modules.Prelude.Int.{ℤ, pos_part}
use workqueue_modules.Workqueue.Pages.{page_of}
use workqueue_modules.Nats.Names.{dlq_stream_name}
use workqueue_modules.Nats.Broker.{Entry, JetStream, TaskCodec, fetch_failed}
use workqueue_modules.Nats.Streams.{ok, Queue, ensure_queue}
use workqueue_modules.Nats.Scan.{
  DeadEntry, page_visit, find_visit, scan_goes_on, scan_loop, scan_stream, scan_dead_tasks,
  list_dead_tasks, find_dead_task, found_or,
}
use workqueue_modules.Nats.Walk.{visit_all, decoded, scan_stops, scan-visit_all}
use workqueue_modules.Nats.Listing.{tasks_of, visits_page, first_with_id, finds_first}
use workqueue_modules.Nats.Ensured.{IsEnsured}

-- The server answers on a stream.
pub record IsReadable (J : JetStream) (s : J.Server) (stream : String) : Type 0 where
  pub first : ℕ
  pub last : ℕ
  pub present : J.has_stream s stream ≡ true
  pub counted : J.info s stream ≡ some (first, last)
  pub answers : (k : ℕ) → J.get_msg s stream k ≢ fetch_failed

module _ (J : JetStream) (j : TaskCodec) (s : J.Server) (stream : String) where
  open J use {stored, info}

  -- With a first number of 0 the stream is empty.
  none_stored : (last : ℕ) (es : List Entry) → ((e : Entry) → Mem e es → 0 < 0) → es ≡ []
  none_stored last [] h = refl
  none_stored last (e ∷ es) h = absurd (omega (arith, h e mem-cons_self))

  module _ {A : Type 0} (visit : A → DeadEntry → A × Bool) (r : IsReadable J s stream) where
    scan_loop-visit_all :
        (a : A)
        → scan_loop J j s stream visit (suc r.last - r.first) r.first r.last a
          ≡ some (visit_all visit a (decoded j (stored s stream)))
    unfolding visit_all decoded
    scan_loop-visit_all a =
        let (small, bounds) = J.info_bounds s stream r.first r.last r.counted in
        elim (ℕ_discrete r.first 0) [
          | yes empty ↦
              let ends : scan_goes_on r.first r.last ≡ false = ground arith in
              let nothing =
                none_stored r.last (stored s stream)
                  (λ e m. subst (λ k. 0 < k) empty (bounds e m).0) in
              rw nothing (scan_stops J j s stream visit _ r.first r.last a ends)
          | no starts ↦
              scan-visit_all J j s stream visit (suc r.last - r.first) r.last small r.answers
                r.first a (stored s stream) (omega arith) (omega arith)
                (record {
                  up = J.ascending s stream;
                  inside = λ e m. let (p, low, high) = bounds e m in (low, high);
                  finds = λ k b h f. J.get_finds s stream k b f;
                  misses = λ k e f m. J.get_misses s stream k e f m;
                })
        ]

    pub scan_stream_lem :
        (a : A)
        → scan_stream J j s stream visit a ≡ ok (visit_all visit a (decoded j (stored s stream)))
    unfolding scan_stream
    scan_stream_lem a = rw (scan_stream, r.present, r.counted, scan_loop-visit_all a) refl

module _ (J : JetStream) (j : TaskCodec) (q : Queue J) (name : String)
    (v : IsEnsured J q name) where
  open J use {stored}

  -- The dead letters of the queue, oldest first.
  abbrev pub dead_letters : List DeadEntry
  dead_letters = decoded j (stored v.after (dlq_stream_name q.config.stream_prefix name))

  module _ (r : IsReadable J v.after (dlq_stream_name q.config.stream_prefix name)) where
    scan_dead_tasks_lem :
        {A : Type 0} (visit : A → DeadEntry → A × Bool) (a : A)
        → scan_dead_tasks J j q v.before name visit a
          ≡ (v.next, ok (visit_all visit a dead_letters))
    unfolding scan_dead_tasks
    scan_dead_tasks_lem visit a =
        let here : (ensure_queue J q v.before name).0 ≡ v.next = ap (λ x. x.0) v.ensures in
        let ensured : (ensure_queue J q v.before name).1 ≡ ok v.tasks_stream =
          ap (λ x. x.1) v.ensures in
        let still : (ensure_queue J q v.before name).0.js ≡ some v.after =
          ap (λ x. x.js) here ∙ v.still in
        rw (scan_dead_tasks, ensured, still, scan_stream_lem J j v.after _ visit r a)
          (ap (λ x. (x, ok (visit_all visit a dead_letters))) here)

    -- ListDeadTasks skips `offset` dead letters, none if the offset is negative, and returns the next
    -- `limit` in the order of their sequence numbers, all of them if the limit is not positive; a
    -- message that does not decode does not count. The queue is ensured and the server answers each
    -- read of the dead-letter stream.
    pub list_dead_tasks_walks :
        (limit offset : ℤ)
        → list_dead_tasks J j q name limit offset
          ≡ (v.next, ok (page_of limit (pos_part offset) (tasks_of dead_letters)))
    unfolding list_dead_tasks
    list_dead_tasks_walks limit offset =
        rw
          (
            list_dead_tasks,
            v.started,
            scan_dead_tasks_lem (page_visit (pos_part offset) limit) (0, []),
          )
          (ap (λ l. (v.next, ok l))
            (visits_page limit (pos_part offset) 0 (pos_part offset) dead_letters (omega arith)))

    pub find_dead_task_lem :
        (id : String)
        → find_dead_task J j q v.before name id
          ≡ (v.next, found_or J j (ok (first_with_id id dead_letters)))
    unfolding find_dead_task
    find_dead_task_lem id =
        rw (find_dead_task, scan_dead_tasks_lem (find_visit id) none)
          (ap (λ o. (v.next, found_or J j (ok o))) (finds_first id dead_letters))
