-- ===== src/Gorm/Once.antt =====
-- gorm_workqueue/workqueue.go: claims of the same attempt of a task, over histories of calls.
use mathlib.Core.List.Perm
use mathlib.Core.List.{mem-cons, mem-cons_self}
use mathlib.Core.Logic.Or
use mathlib.Core.Bool.{Bool-set}
use workqueue_modules.Prelude.{
  ℕ, zero, suc, ◌≡◌, ◌≢◌, inl, inr, refl, sym, subst, ap, ◌∙◌, String, Bool, true, Option, none,
  some, List, [], ◌∷◌, Mem, arith, str_eq, eq_iff, Bool-cases, Option-cases, length,
}
use workqueue_modules.Workqueue.{Time}
use workqueue_modules.Workqueue.Options.{EnqueueOption, new_enqueue_options}
use workqueue_modules.Sql.{TaskRecord, pending, running, Table, Json, where_rows}
use workqueue_modules.Sql.Membership.{where_rows-mem}
use workqueue_modules.Sql.Keys.{IsKeyed, one_row}
use workqueue_modules.Gorm.Rows.{is_attempt, is_expired, is_dead, started, reaped, revived}
use workqueue_modules.Gorm.State.{GormWorkQueue, broadcast_local}
use workqueue_modules.Gorm.Claim.{try_claim, reap_expired_leases}
use workqueue_modules.Gorm.Calls.{
  Call, enqueues, claims, reaps, completes, requeues, deletes, call, run, Spares, AllSpare,
  complete-db,
}
use workqueue_modules.Gorm.Passed.{
  Passed, Keeps, Passed-updated, Passed-deleted, Passed-claimed, Passed-none,
}
use workqueue_modules.Gorm.{
  enqueue, insert_task, encode_metadata, new_record, complete, requeue_dead_task, delete_dead_task,
}

module _ (T : Table) where
  open T use {Db, rows}

  Passed-update :
      (c : TaskRecord) (d : Db) (p : TaskRecord → Bool) (f : TaskRecord → TaskRecord)
      → Keeps c p f
      → Passed c (rows d)
      → Passed c (rows (T.update d p f).0)
  Passed-update c d p f keeps h = elim (Option-cases ((T.update d p f).1)) [
    | inl e ↦ subst (Passed c) (sym (T.update_fails d p f e)) h
    | inr (n, e) ↦
        subst (Passed c) (sym (T.update_sets d p f n e).0) (Passed-updated c p f (rows d) keeps h)
  ]

  Passed-delete :
      (c : TaskRecord) (d : Db) (p : TaskRecord → Bool)
      → Passed c (rows d)
      → Passed c (rows (T.delete d p).0)
  Passed-delete c d p h = elim (Option-cases ((T.delete d p).1)) [
    | inl e ↦ subst (Passed c) (sym (T.delete_fails d p e)) h
    | inr (n, e) ↦ subst (Passed c) (sym (T.delete_drops d p n e).0) (Passed-deleted c p (rows d) h)
  ]

  Passed-create :
      (c : TaskRecord) (d : Db) (r : TaskRecord)
      → r.id ≢ c.id
      → Passed c (rows d)
      → Passed c (rows (T.create d r).0)
  Passed-create c d r other h = elim (Bool-cases ((T.create d r).1)) [
    | inr e ↦ subst (Passed c) (sym (T.create_fails d r e)) h
    | inl e ↦ λ s m same.
        Or.elim (Bool-set _ _) (mem-cons.0 ((Perm.mem_iff (T.create_adds d r e).0).0 m))
          (λ k. absurd (other (ap (λ x. x.id) (sym k) ∙ same))) (λ k. h s k same)
  ]

  -- The table, when there is a handle, has passed the attempt.
  abbrev pub TablePassed : TaskRecord → Option Db → Type 0
  TablePassed c none = ◌≡◌ {A = Bool} true true
  TablePassed c (some d) = Passed c (rows d)

pub first_of : (l : List TaskRecord) (n : ℕ) → suc n ≡ length l → (w : TaskRecord) × Mem w l
first_of [] n h = absurd (omega arith)
first_of (w ∷ l) n h = (w, mem-cons_self)

module _ (T : Table) (j : Json) (c : TaskRecord) where
  open T use {Db, rows}

  -- A call that runs one UPDATE which keeps rows past the attempt.
  Passed-by_update :
      (o : Option Db) (d : Db) (p : TaskRecord → Bool) (f : TaskRecord → TaskRecord)
      → o ≡ some (T.update d p f).0
      → Keeps c p f
      → Passed c (rows d)
      → TablePassed T c o
  Passed-by_update o d p f e keeps h =
      subst (TablePassed T c) (sym e) (Passed-update T c d p f keeps h)

  -- A queue with its handle.
  abbrev with_db : GormWorkQueue Db → Option Db → GormWorkQueue Db
  with_db q o = record q { db = o }

  Passed-enqueue :
      (q : GormWorkQueue Db) (d : Db) (name : String) (payload : List ℕ) (opts : List EnqueueOption)
      (id : String) (now : Time)
      → id ≢ c.id
      → Passed c (rows d)
      → TablePassed T c (enqueue T j (with_db q (some d)) name payload opts id now).0.db
  unfolding enqueue insert_task new_record broadcast_local
  Passed-enqueue q d name payload opts id now other h =
      let o = new_enqueue_options opts in
      elim (Option-cases (encode_metadata j o.metadata)) [
        | inl k ↦ rw (enqueue, k) h
        | inr (metadata, k) ↦
            let r = new_record id name payload metadata o now in
            let kept = Passed-create T c d r other h in
            elim (Bool-cases ((T.create d r).1)) [
              | inl t ↦ rw (enqueue, k, insert_task, t) kept
              | inr t ↦ rw (enqueue, k, insert_task, t) kept
            ]
      ]

  revived-Keeps :
      (id name : String) (now : Time) → id ≢ c.id → Keeps c (is_dead id name) (revived now)
  revived-Keeps id name now other r t u k =
      let same : str_eq r.id id ≡ true = ground arith in
      absurd (other (sym ((eq_iff r.id id).0 same) ∙ u))

  Passed-requeue :
      (q : GormWorkQueue Db) (d : Db) (name id : String) (now : Time)
      → id ≢ c.id
      → Passed c (rows d)
      → TablePassed T c (requeue_dead_task T (with_db q (some d)) name id now).0.db
  unfolding requeue_dead_task broadcast_local
  Passed-requeue q d name id now other h =
      let p = is_dead id name in
      let kept = Passed-update T c d p (revived now) (revived-Keeps id name now other) h in
      elim (Option-cases ((T.update d p (revived now)).1)) [
        | inl e ↦ rw (requeue_dead_task, e) kept
        | inr (zero, e) ↦ rw (requeue_dead_task, e) kept
        | inr (suc n, e) ↦ rw (requeue_dead_task, e) kept
      ]

  Passed-call-some :
      (q : GormWorkQueue Db) (d : Db) (op : Call)
      → Spares c.id op
      → Passed c (rows d)
      → TablePassed T c (call T j (with_db q (some d)) op).db
  unfolding call delete_dead_task try_claim reap_expired_leases complete
  Passed-call-some q d (enqueues name payload opts id now) spares h =
      Passed-enqueue q d name payload opts id now spares h
  Passed-call-some q d (claims c' lease) spares h =
      Passed-update T c d (is_attempt c' pending) (started lease)
        (λ r t u k. let k' = k u in ground arith) h
  Passed-call-some q d (reaps name now) spares h =
      Passed-update T c d (is_expired name now) reaped (λ r t u k. k u) h
  Passed-call-some q d (completes r none o now) spares h =
      Passed-delete T c d (λ s. str_eq s.id r.id) h
  Passed-call-some q d (completes r (some message) o now) spares h =
      let (f, ends, same, _) = complete-db T (with_db q (some d)) d r message o now in
      Passed-by_update _ d (is_attempt r running) f ends
        (λ s t u k. let k' = k (sym (same s).0 ∙ u) in rw ((same s).1) k') h
  Passed-call-some q d (requeues name id now) spares h = Passed-requeue q d name id now spares h
  Passed-call-some q d (deletes name id) spares h = Passed-delete T c d (is_dead id name) h

  Passed-call-none :
      (q : GormWorkQueue Db) (op : Call) → TablePassed T c (call T j (with_db q none) op).db
  unfolding call enqueue requeue_dead_task delete_dead_task
  Passed-call-none q (enqueues name payload opts id now) = refl
  Passed-call-none q (claims c' lease) = refl
  Passed-call-none q (reaps name now) = refl
  Passed-call-none q (completes r failure o now) = refl
  Passed-call-none q (requeues name id now) = refl
  Passed-call-none q (deletes name id) = refl

  Passed-call :
      (q : GormWorkQueue Db) (op : Call)
      → Spares c.id op
      → TablePassed T c q.db
      → TablePassed T c (call T j q op).db
  Passed-call q op spares h =
      let at = λ (x : GormWorkQueue Db). TablePassed T c (call T j x op).db in
      elim (Option-cases q.db) [
        | inl e ↦ subst at (sym (ap (with_db q) e)) (Passed-call-none q op)
        | inr (d, e) ↦
            subst at (sym (ap (with_db q) e))
              (Passed-call-some q d op spares (subst (TablePassed T c) e h))
      ]

  Passed-run :
      (q : GormWorkQueue Db) (ops : List Call)
      → AllSpare c.id ops
      → TablePassed T c q.db
      → TablePassed T c (run T j q ops).db
  unfolding run
  Passed-run q [] spare h = h
  Passed-run q (op ∷ ops) (spares, spare) h =
      Passed-run (call T j q op) ops spare (Passed-call q op spares h)

  -- After the UPDATE that claims an attempt has succeeded, no UPDATE that claims the same attempt
  -- succeeds again, whatever enqueues, claims, lease reapings, completions, requeues and deletions
  -- run in between, in this process or in others, and however they fail, as long as none enqueues a
  -- task with the identifier or requeues it from the dead letters. Identifiers are
  -- unique in the table when the attempt is claimed.
  pub claimed_once :
      (q : GormWorkQueue Db) (d : Db) (lease : Time) (n : ℕ) (ops : List Call) (last : Db)
      (later : Time) (m : ℕ)
      → IsKeyed (rows d)
      → (try_claim T d c lease).1 ≡ some (suc n)
      → AllSpare c.id ops
      → (run T j (record q { db = some (try_claim T d c lease).0 }) ops).db ≡ some last
      → (try_claim T last c later).1 ≢ some (suc m)
  unfolding try_claim
  claimed_once q d lease n ops last later m keyed won spare ends again =
      let p = is_attempt c pending in
      let (sets, count) = T.update_sets d p (started lease) (suc n) won in
      let (w, inside) = first_of (where_rows p (rows d)) n count in
      let (in_rows, is_c) = where_rows-mem p (rows d) w inside in
      let same_id : w.id ≡ c.id = (eq_iff w.id c.id).0 (ground arith) in
      let claimed =
        Passed-claimed c lease (rows d)
          (λ r k e. one_row p (rows d) r w keyed k in_rows (e ∙ sym same_id) is_c) in
      let start = subst (Passed c) (sym sets) claimed in
      let passed = Passed-run (with_db q (some (try_claim T d c lease).0)) ops spare start in
      let empty = Passed-none c (rows last) (subst (TablePassed T c) ends passed) in
      let (_, again_count) = T.update_sets last p (started later) (suc m) again in
      ground (arith, again_count, ap length empty)
