-- ===== src/Shared/Attempts.antt =====
-- The attempts that the claims of both database backends deliver from a shared table.
use mathlib.Core.List.{mem-cons}
use mathlib.Core.List.Perm
use mathlib.Core.Logic.{∥∥₁_elim}
use mathlib.Core.Logic.Or
use native.Mathlib.Bridge.{le_prop}
use workqueue_modules.Prelude.{
  ℕ, suc, ◌≡◌, ◌≢◌, refl, sym, subst, ap, ◌∙◌, inl, inr, String, Bool, true, some, List, Mem, arith,
  str_eq, eq_iff, if_intro,
}
use workqueue_modules.Prelude.Int.{ℤ, pos, ◌+ℤ◌, ◌≤ℤ◌, ◌<ℤ◌}
use workqueue_modules.Workqueue.{Time, add}
use workqueue_modules.Sql.{TaskRecord, Json, pending, running, updated, where_rows}
use workqueue_modules.Sql.Membership.{updated-mem, deleted-mem, where_rows-mem}
use workqueue_modules.Sql.Keys.{IsKeyed, one_row}
use workqueue_modules.Gorm.Rows.{is_attempt, is_expired, is_dead, started, reaped, revived}
use workqueue_modules.Gorm.Claim.{try_claim}
use workqueue_modules.Gorm.Calls
use workqueue_modules.Gorm.Calls.{IsFailure}
use workqueue_modules.Postgres.Store.{Postgres}
use workqueue_modules.Postgres.State.{Config}
use workqueue_modules.Postgres.Claim.{claimed, claim, is_ready}
use workqueue_modules.Sql.Meaning.{IsDue-ready}
use workqueue_modules.Postgres.Deliveries.{claim-IsTaken}
use workqueue_modules.Gorm.Once.{first_of}
use workqueue_modules.Shared.FromPostgres.{updated-congr, at_attempt}
use workqueue_modules.Postgres.Calls as PostgresCalls
use workqueue_modules.Shared.Protocol.{
  Act, enqueues, completes, requeues, deletes, claims, reaps, fails, Step,
}
use workqueue_modules.Shared.History.{
  Move, by_gorm, by_postgres, All, move, run, move-IsKeyed, run_keeps,
}

-- Every row with the identifier is at the attempt or past it.
abbrev pub Past : String → ℤ → List TaskRecord → Type 0
Past id k rs = (r : TaskRecord) → Mem r rs → r.id ≡ id → k ≤ℤ r.attempts

-- The call neither makes a task with the identifier nor gives one back from the dead letters.
abbrev pub NeverRenews : String → Act → Type 0
NeverRenews id (enqueues other) = other ≢ id
NeverRenews id (requeues other name now) = other ≢ id
NeverRenews id _ = Unit {0}

-- An assignment that leaves the identifiers and takes no attempt back.
abbrev Advances : (TaskRecord → TaskRecord) → Type 0
Advances f = (r : TaskRecord) → ((f r).id ≡ r.id) × (r.attempts ≤ℤ (f r).attempts)

failure-Advances : (f : TaskRecord → TaskRecord) → IsFailure f → Advances f
failure-Advances f (message, at, inl e) r =
    let same = ap (λ (g : TaskRecord → TaskRecord). g r) e in ground (arith, same)
failure-Advances f (message, at, inr e) r =
    let same = ap (λ (g : TaskRecord → TaskRecord). g r) e in ground (arith, same)

module _ (id : String) (k : ℤ) where
  updated-Past :
      (p : TaskRecord → Bool) (f : TaskRecord → TaskRecord) (rs rs' : List TaskRecord)
      → rs' ≡ updated p f rs
      → ((r : TaskRecord)
          → p r ≡ true
          → (f r).id ≡ id
          → (r.id ≡ id → k ≤ℤ r.attempts)
          → k ≤ℤ (f r).attempts)
      → Past id k rs
      → Past id k rs'
  updated-Past p f rs rs' e keeps h s m same =
      ∥∥₁_elim (updated-mem p f rs s (subst (Mem s) e m)) le_prop (λ found.
        let r = found.0 in
        subst (λ (x : TaskRecord). x.id ≡ id → k ≤ℤ x.attempts) (sym found.2)
          (if_intro (λ (x : TaskRecord). x.id ≡ id → k ≤ℤ x.attempts) (p r)
            (λ t u. keeps r t u (h r found.1)) (λ t u. h r found.1 u))
          same)

  advanced-Past :
      (p : TaskRecord → Bool) (f : TaskRecord → TaskRecord) (rs rs' : List TaskRecord)
      → rs' ≡ updated p f rs
      → Advances f
      → Past id k rs
      → Past id k rs'
  advanced-Past p f rs rs' e advances h =
      updated-Past p f rs rs' e
        (λ r t u before. omega (arith, before (sym (advances r).0 ∙ u), (advances r).1)) h

  Step-Past :
      (a : Act) (rs rs' : List TaskRecord)
      → NeverRenews id a
      → IsKeyed rs
      → Step a rs rs'
      → Past id k rs
      → Past id k rs'
  Step-Past a rs rs' other keyed (inl e) h = subst (Past id k) (sym e) h
  Step-Past (enqueues new) rs rs' other keyed (inr (x, made, same, _)) h = λ s m e.
      Or.elim le_prop (mem-cons.0 ((Perm.mem_iff same).0 m))
        (λ here. absurd (other (sym made ∙ ap (λ t. t.id) (sym here) ∙ e))) (λ rest. h s rest e)
  Step-Past (completes j) rs rs' other keyed (inr e) h =
      λ s m same. h s (deleted-mem (λ x. str_eq x.id j) rs s (subst (Mem s) e m)) same
  Step-Past (requeues j name now) rs rs' other keyed (inr e) h =
      updated-Past (is_dead j name) (revived now) rs rs' e
        (λ r t u before. absurd (other (sym ((eq_iff r.id j).0 (ground arith)) ∙ u))) h
  Step-Past (deletes j name) rs rs' other keyed (inr e) h =
      λ s m same. h s (deleted-mem (is_dead j name) rs s (subst (Mem s) e m)) same
  Step-Past claims rs rs' other keyed (inr (c, lease, e)) h =
      advanced-Past (is_attempt c pending) (started lease) rs rs' e (λ r. (refl, ground arith)) h
  Step-Past (reaps name now) rs rs' other keyed (inr e) h =
      advanced-Past (is_expired name now) reaped rs rs' e (λ r. (refl, omega arith)) h
  Step-Past fails rs rs' other keyed (inr (c, f, is_failure, e)) h =
      advanced-Past (is_attempt c running) f rs rs' e (failure-Advances f is_failure) h

ready-attempt :
    (c : TaskRecord) (name : String) (now : Time)
    → is_ready name now c ≡ true
    → is_attempt c pending c ≡ true
ready-attempt c name now ready = ground (arith, eq_iff c.id c.id)

-- A claim takes the one row of the task, at the attempt before.
record Takes (rs rs' : List TaskRecord) (id : String) (k : ℤ) : Type 0 where
  candidate : TaskRecord
  lease : Time
  row : TaskRecord
  inside : Mem row rs
  at : is_attempt candidate pending row ≡ true
  after : rs' ≡ updated (is_attempt candidate pending) (started lease) rs
  named : candidate.id ≡ id
  counted : candidate.attempts +ℤ pos 1 ≡ k

Takes-Past :
    (rs rs' : List TaskRecord) (id : String) (k : ℤ)
    → IsKeyed rs
    → Takes rs rs' id k
    → Past id k rs'
Takes-Past rs rs' id k keyed t s m same =
    let c = t.candidate in
    let p = is_attempt c pending in
    let w = t.row in
    let w_id : w.id ≡ c.id = (eq_iff w.id c.id).0 (ground (arith, t.at)) in
    ∥∥₁_elim (updated-mem p (started t.lease) rs s (subst (Mem s) t.after m)) le_prop (λ found.
      let r = found.0 in
      subst (λ (x : TaskRecord). x.id ≡ id → k ≤ℤ x.attempts) (sym found.2)
        (if_intro (λ (x : TaskRecord). x.id ≡ id → k ≤ℤ x.attempts) (p r)
          (λ e u. ground (arith, t.counted))
          (λ e u.
            let taken = one_row p rs r w keyed found.1 t.inside (u ∙ sym t.named ∙ sym w_id) t.at in
            absurd (ground (arith, taken))))
        same)

Past-Takes :
    (rs rs' : List TaskRecord) (id : String) (k k' : ℤ)
    → Past id k rs
    → Takes rs rs' id k'
    → k <ℤ k'
Past-Takes rs rs' id k k' past t =
    let c = t.candidate in
    let w = t.row in
    let w_id : w.id ≡ c.id = (eq_iff w.id c.id).0 (ground (arith, t.at)) in
    let reached = past w t.inside (w_id ∙ t.named) in ground (arith, reached, t.at, t.counted)

module _ (S : Postgres) (j : Json) where
  open S use {table}

  -- The call is a claim that delivers the attempt of the number `k` of the task.
  abbrev pub Delivers : table.Db → Move table.Db → String → ℤ → Type 0
  Delivers d (by_gorm q (Calls.claims c lease)) id k =
      (n : ℕ) × ((try_claim table d c lease).1 ≡ some (suc n))
      × (c.id ≡ id)
      × (c.attempts +ℤ pos 1 ≡ k)
  Delivers d (by_postgres q (PostgresCalls.claims locked name now later)) id k =
      (r : TaskRecord) × ((claim S q.config locked (λ x. x) d name now later).1 ≡ claimed r)
      × (r.id ≡ id)
      × (r.attempts ≡ k)
  Delivers d _ id k = ⊥

  gorm-Takes :
      (d : table.Db) (c : TaskRecord) (lease : Time) (id : String) (k : ℤ) (n : ℕ)
      → (try_claim table d c lease).1 ≡ some (suc n)
      → c.id ≡ id
      → c.attempts +ℤ pos 1 ≡ k
      → Takes (table.rows d) (table.rows (try_claim table d c lease).0) id k
  unfolding try_claim
  gorm-Takes d c lease id k n won named counted =
      let p = is_attempt c pending in
      let (sets, count) = S.table.update_sets d p (started lease) (suc n) won in
      let (w, inside) = first_of (where_rows p (table.rows d)) n count in
      let (in_rows, at) = where_rows-mem p (table.rows d) w inside in
      record {
        candidate = c;
        lease = lease;
        row = w;
        inside = in_rows;
        at = at;
        after = sets;
        named = named;
        counted = counted;
      }

  postgres-Takes :
      (config : Config) (locked : TaskRecord → Bool) (d : table.Db) (name : String)
      (now later : Time) (id : String) (k : ℤ) (r : TaskRecord)
      → IsKeyed (table.rows d)
      → (claim S config locked (λ x. x) d name now later).1 ≡ claimed r
      → r.id ≡ id
      → r.attempts ≡ k
      → Takes (table.rows d) (table.rows (claim S config locked (λ x. x) d name now later).0) id k
  postgres-Takes config locked d name now later id k r keyed gives named counted =
      let t = claim-IsTaken S config locked (λ x. x) d name now later r gives in
      let c = t.candidate in
      let ready = IsDue-ready name now c t.ready in
      let f = started (add now config.lease_duration) in
      record {
        candidate = c;
        lease = add now config.lease_duration;
        row = c;
        inside = t.inside;
        at = ready-attempt c name now ready;
        after =
            t.after
            ∙ updated-congr (λ s. str_eq s.id c.id) (is_attempt c pending) f (table.rows d)
                (at_attempt c name now (table.rows d) keyed t.inside ready);
        named = ap (λ y. y.id) (sym t.given) ∙ named;
        counted = ap (λ y. y.attempts) (sym t.given) ∙ counted;
      }

  Delivers-Takes :
      (d : table.Db) (m : Move table.Db) (id : String) (k : ℤ)
      → IsKeyed (table.rows d)
      → Delivers d m id k
      → Takes (table.rows d) (table.rows (move S j d m)) id k
  unfolding move Calls.call PostgresCalls.call
  Delivers-Takes d (by_gorm q (Calls.claims c lease)) id k keyed (n, won, named, counted) =
      gorm-Takes d c lease id k n won named counted
  Delivers-Takes d (by_postgres q (PostgresCalls.claims locked name now later)) id k keyed
        (r, gives, named, counted) =
      postgres-Takes q.config locked d name now later id k r keyed gives named counted
  Delivers-Takes d _ id k keyed h = elim h [ ]

  -- No attempt of a task is delivered twice from a shared table. After a claim of either backend has
  -- delivered an attempt of a task, every attempt of it that a later claim of either backend delivers
  -- has a higher number, whatever calls of both backends run in between, as long as none enqueues a
  -- task with the identifier or requeues it from the dead letters. Identifiers are unique in
  -- the table at the start.
  pub attempts_increase :
      (d : table.Db) (m : Move table.Db) (ms : List (Move table.Db)) (m' : Move table.Db)
      (id : String) (k k' : ℤ)
      → IsKeyed (table.rows d)
      → Delivers d m id k
      → All (NeverRenews id) ms
      → Delivers (run S j (move S j d m) ms) m' id k'
      → k <ℤ k'
  attempts_increase d m ms m' id k k' keyed delivers spares again =
      let first = Delivers-Takes d m id k keyed delivers in
      let d1 = move S j d m in
      let (keyed', past) =
        run_keeps S j (NeverRenews id) (Past id k) (Step-Past id k) d1 ms spares
          (move-IsKeyed S j d m keyed)
          (Takes-Past (table.rows d) (table.rows d1) id k keyed first) in
      let d2 = run S j d1 ms in
      Past-Takes (table.rows d2) (table.rows (move S j d2 m')) id k k' past
        (Delivers-Takes d2 m' id k' keyed' again)
