-- ===== src/Nats/Scan.antt =====
-- nats_workqueue/workqueue.go: the walk over the dead-letter stream, and the calls on dead tasks.
use workqueue_modules.Nats.Names.{tasks_subject, dlq_stream_name}
use workqueue_modules.Nats.Broker.{
  JetStream, TaskCodec, found, not_found, fetch_failed, deleted, no_message, delete_failed,
}
use workqueue_modules.Nats.State.{Config}
use workqueue_modules.Nats.Streams.{
  Error, not_started, server, task_not_found, Result, ok, err, Queue, ensure_queue, publish_task,
}
use workqueue_modules.Prelude.{
  ℕ, zero, suc, ◌+◌, ◌-◌, ◌%◌, ◌^◌, String, Bool, true, false, ◌&&◌, ◌||◌, Option, none, some, List,
  [], ◌∷◌, ◌++◌, str_eq, ltb, leb, if◌then◌else◌, length,
}
use workqueue_modules.Prelude.Int.{ℤ, pos, pos_part, ltb_ℤ, leb_ℤ}
use workqueue_modules.Workqueue.{Time, Task}
use workqueue_modules.Nats.Handling.{revived}

-- A dead task, with its sequence number in the dead-letter stream.
pub record DeadEntry : Type 0 where
  pub task : Task
  pub seq : ℕ

-- The visitor of ListDeadTasks: how many it skipped, what it collected, and whether to go on.
unfoldable pub page_visit : ℕ → ℤ → ℕ × List Task → DeadEntry → (ℕ × List Task) × Bool
page_visit offset limit (skipped, out) e =
    if ltb skipped offset
    then ((suc skipped, out), true)
    else let out' = out ++ e.task ∷ [] in
      ((skipped, out'), leb_ℤ limit (pos 0) || ltb_ℤ (pos (length out')) limit)

-- The visitor of findDeadTask.
unfoldable pub find_visit : String → Option DeadEntry → DeadEntry → Option DeadEntry × Bool
find_visit id before e = if str_eq e.task.id id then (some e, false) else (before, true)

-- The condition of the scan's loop, and its next sequence number, in 64 bits.
abbrev pub scan_goes_on : ℕ → ℕ → Bool
scan_goes_on seq last = leb seq last && ltb 0 seq

abbrev pub next_seq : ℕ → ℕ
next_seq seq = (seq + 1) % 2 ^ 64

module _ (J : JetStream) (j : TaskCodec) where
  open J use {Server, has_stream, info, get_msg, delete_msg}

  -- A round of the loop of scanDeadTasks, before the `rest` of the loop; a round that the visitor
  -- ends leaves the loop, and `none` is an error of GetMsg.
  unfoldable pub scan_round :
      {A : Type 0}
      → Server
      → String
      → (A → DeadEntry → A × Bool)
      → (A → Option A)
      → ℕ
      → ℕ
      → A
      → Option A
  scan_round s stream visit rest seq last a =
      if scan_goes_on seq last
      then elim (get_msg s stream seq) [
        | not_found ↦ rest a
        | fetch_failed ↦ none
        | found body ↦ elim (j.unmarshal body) [
          | none ↦ rest a
          | some task ↦
              let (a', goes_on) = visit a (record { task = task; seq = seq }) in
              if goes_on then rest a' else some a'
        ]
      ]
      else some a

  -- The loop, with the rounds that are left.
  unfoldable pub scan_loop :
      {A : Type 0} → Server → String → (A → DeadEntry → A × Bool) → ℕ → ℕ → ℕ → A → Option A
  scan_loop s stream visit zero seq last a = some a
  scan_loop s stream visit (suc rounds) seq last a =
      scan_round s stream visit (scan_loop s stream visit rounds (next_seq seq) last) seq last a

  -- The rounds that the loop can take from the first sequence number on.
  unfoldable pub scan_stream :
      {A : Type 0} → Server → String → (A → DeadEntry → A × Bool) → A → Result A
  scan_stream s stream visit a =
      if has_stream s stream
      then elim (info s stream) [
        | none ↦ err server
        | some (first, last) ↦ elim (scan_loop s stream visit (suc last - first) first last a) [
          | none ↦ err server
          | some a' ↦ ok a'
        ]
      ]
      else err server

  unfoldable pub scan_dead_tasks :
      {A : Type 0} → Queue J → Server → String → (A → DeadEntry → A × Bool) → A → Queue J × Result A
  scan_dead_tasks q s name visit a =
      let (q', ensured) = ensure_queue J q s name in
      elim ensured [
        | err e ↦ (q', err e)
        | ok _ ↦ elim q'.js [
          | none ↦ (q', err not_started)
          | some s' ↦ (q', scan_stream s' (dlq_stream_name q.config.stream_prefix name) visit a)
        ]
      ]

  abbrev pub out_of : Result (ℕ × List Task) → Result (List Task)
  out_of (ok (skipped, out)) = ok out
  out_of (err e) = err e

  unfoldable pub list_dead_tasks : Queue J → String → ℤ → ℤ → Queue J × Result (List Task)
  list_dead_tasks q name limit offset = elim q.js [
    | none ↦ (q, err not_started)
    | some s ↦
        let (q', result) = scan_dead_tasks q s name (page_visit (pos_part offset) limit) (0, []) in
        (q', out_of result)
  ]

  abbrev pub found_or : Result (Option DeadEntry) → Result DeadEntry
  found_or (ok none) = err task_not_found
  found_or (ok (some e)) = ok e
  found_or (err e) = err e

  unfoldable pub find_dead_task : Queue J → Server → String → String → Queue J × Result DeadEntry
  find_dead_task q s name id =
      let (q', result) = scan_dead_tasks q s name (find_visit id) none in (q', found_or result)

  unfoldable pub delete_dead_seq : Config → Server → String → ℕ → Server × Option Error
  delete_dead_seq c s name seq =
      let stream = dlq_stream_name c.stream_prefix name in
      let (s', result) = delete_msg s stream seq in
      if has_stream s stream
      then elim result [
        | deleted ↦ (s', none)
        | no_message ↦ (s', some task_not_found)
        | delete_failed ↦ (s', some server)
      ]
      else (s, some server)

  -- RequeueDeadTask once the entry is found: publish, then delete.
  unfoldable pub requeue_entry : Config → Server → String → DeadEntry → Time → Server × Option Error
  requeue_entry c s name e now =
      let (s', failed) =
        publish_task J j s (tasks_subject c.subject_prefix name) (revived e.task now) none in
      elim failed [ some f ↦ (s', some f) | none ↦ delete_dead_seq c s' name e.seq ]

  -- A call on the server of a queue that has found its dead entry.
  unfoldable pub at_entry :
      (Server → DeadEntry → Server × Option Error)
      → Queue J × Result DeadEntry
      → Queue J × Option Error
  at_entry act (q, err e) = (q, some e)
  at_entry act (q, ok e) = elim q.js [
    | none ↦ (q, some not_started)
    | some s ↦ let (s', failed) = act s e in (record q { js = some s' }, failed)
  ]

  unfoldable pub requeue_dead_task : Queue J → String → String → Time → Queue J × Option Error
  unfolding at_entry requeue_entry
  requeue_dead_task q name id now = elim q.js [
    | none ↦ (q, some not_started)
    | some s ↦ at_entry (λ s' e. requeue_entry q.config s' name e now) (find_dead_task q s name id)
  ]

  unfoldable pub delete_dead_task : Queue J → String → String → Queue J × Option Error
  unfolding at_entry
  delete_dead_task q name id = elim q.js [
    | none ↦ (q, some not_started)
    | some s ↦
        at_entry (λ s' e. delete_dead_seq q.config s' name e.seq) (find_dead_task q s name id)
  ]
