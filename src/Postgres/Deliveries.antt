-- ===== src/Postgres/Deliveries.antt =====
-- postgres_workqueue/workqueue.go: what a claim gives a worker.
use workqueue_modules.Prelude.{
  ◌≡◌, ◌≢◌, refl, sym, ◌∙◌, inl, inr, String, Bool, true, false, none, some, [], ◌∷◌, Mem, arith,
  str_eq, Option-cases,
}
use workqueue_modules.Prelude.Int.{◌≤ℤ◌, ◌+ℤ◌, pos, sub_ℕ}
use workqueue_modules.Workqueue.{Time, Duration, add}
use workqueue_modules.Sql.{pending, running, updated}
use workqueue_modules.Sql.Meaning.{IsDue, ready-IsDue, IsDue-ready, ComesFirst, order-ComesFirst}
use workqueue_modules.Postgres.Model.{TaskRecord}
use workqueue_modules.Gorm.Deliveries.{IsWait, capped-IsWait}
use workqueue_modules.Postgres.Store.{Postgres}
use workqueue_modules.Postgres.State.{Config}
use workqueue_modules.Postgres.Claim.{
  Claimed, claimed, waits, broken, claim, next_wait, in_queue, is_ready, by_run_at,
  by_run_at_then_enqueued, started,
}

claimed-injective : (r s : TaskRecord) → claimed r ≡ claimed s → r ≡ s
claimed-injective r s e = cc e

module _ (S : Postgres) where
  open S use {table}

  -- The record `r` is the first row of the queue that is due and that no transaction has locked, and
  -- the one row that changed, to running, with one attempt more and the lease.
  pub record IsTaken (d d' : table.Db) (locked : TaskRecord → Bool) (name : String)
      (now lease : Time) (r : TaskRecord) : Type 0 where
    pub candidate : TaskRecord
    pub inside : Mem candidate (table.rows d)
    pub ready : IsDue name now candidate
    pub unlocked : locked candidate ≡ false
    pub given : r ≡ record candidate {
      status = running;
      attempts = candidate.attempts +ℤ pos 1;
      lease_expires_at = some lease;
    }
    pub first :
        (s : TaskRecord)
        → Mem s (table.rows d)
        → IsDue name now s
        → locked s ≡ false
        → ComesFirst candidate s
    pub after :
        table.rows d'
        ≡ updated
            (λ s. str_eq s.id candidate.id)
            (λ s. record s {
              status = running;
              attempts = s.attempts +ℤ pos 1;
              lease_expires_at = some lease;
            })
            (table.rows d)

  -- How a claim ends, `d'` being the table and `c` the answer.
  abbrev pub ClaimEnds :
      Config
      → (TaskRecord → Bool)
      → (table.Db → table.Db)
      → table.Db
      → String
      → Time
      → table.Db
      → Claimed
      → Type 0
  ClaimEnds config locked others d name now d' (claimed r) =
      IsTaken d d' locked name now (add now config.lease_duration) r
  ClaimEnds config locked others d name now d' (waits w) =
      IsWait table config.poll_interval w
      × ((s : TaskRecord) → Mem s (table.rows d) → IsDue name now s → locked s ≡ true)
  ClaimEnds config locked others d name now d' (broken w) = w ≡ config.poll_interval

  next_wait-ends :
      (config : Config) (locked : TaskRecord → Bool) (others : table.Db → table.Db)
      (d d' : table.Db) (name : String) (now later : Time)
      → pos 1 ≤ℤ config.poll_interval
      → ((s : TaskRecord) → Mem s (table.rows d) → IsDue name now s → locked s ≡ true)
      → ClaimEnds config locked others d name now d'
          (next_wait S config.poll_interval d' name later)
  unfolding next_wait
  next_wait-ends config locked others d d' name now later h none_free =
      let poll = config.poll_interval in
      elim (Option-cases (table.select d' (in_queue name pending) by_run_at (some 1) 0)) [
        | inl e ↦ rw (next_wait, e) refl
        | inr ([], e) ↦ rw (next_wait, e) ((h, inl (omega arith)), none_free)
        | inr (r ∷ rs, e) ↦
            rw (next_wait, e) (capped-IsWait table (sub_ℕ r.run_at later) poll h, none_free)
      ]

  -- A claim, whatever other processes do before it looks for the next task, ends in one of three ways.
  -- It returns the first row of the queue that is due and not locked, by due time and then time of
  -- enqueueing, and exactly the row with its identifier is changed: to running, with one attempt more
  -- and the lease. Or every row that is due is locked, and it returns a wait that is positive and at
  -- most the poll interval, or 1 ms when that is longer. Or the database failed, and it returns the
  -- poll interval. The poll interval is positive.
  pub skip_locked_claim :
      (config : Config) (locked : TaskRecord → Bool) (others : table.Db → table.Db) (d : table.Db)
      (name : String) (now later : Time)
      → pos 1 ≤ℤ config.poll_interval
      → let (d', c) = claim S config locked others d name now later in
        ClaimEnds config locked others d name now d' c
  unfolding claim
  skip_locked_claim config locked others d name now later h =
      let p = is_ready name now in
      let f = started (add now config.lease_duration) in
      let d' = (S.update_first d locked p by_run_at_then_enqueued f).0 in
      elim (Option-cases ((S.update_first d locked p by_run_at_then_enqueued f).1)) [
        | inl e ↦ rw (claim, e) refl
        | inr (none, e) ↦
            rw (claim, e)
              (next_wait-ends config locked others d (others d') name now later h (λ s m due.
                (S.first_misses d locked p by_run_at_then_enqueued f e).1 s m
                  (IsDue-ready name now s due)))
        | inr (some r, e) ↦
            let (c, inside, ready, unlocked, given, first, sets) =
              S.first_sets d locked p by_run_at_then_enqueued f r e in
            rw (claim, e)
              record {
                candidate = c;
                inside = inside;
                ready = ready-IsDue name now c ready;
                unlocked = unlocked;
                given = given;
                first = λ s m due free.
                    order-ComesFirst c s (first s m (IsDue-ready name now s due) free);
                after = sets;
              }
      ]

  next_wait-ne-claimed :
      (poll : Duration) (d : table.Db) (name : String) (now : Time) (r : TaskRecord)
      → next_wait S poll d name now ≢ claimed r
  unfolding next_wait
  next_wait-ne-claimed poll d name now r h =
      elim (Option-cases (table.select d (in_queue name pending) by_run_at (some 1) 0)) [
        | inl e ↦ let h' : broken poll ≡ claimed r = rw (next_wait, e) at h in ground arith
        | inr ([], e) ↦ let h' : waits poll ≡ claimed r = rw (next_wait, e) at h in ground arith
        | inr (x ∷ xs, e) ↦ let h' : waits _ ≡ claimed r = rw (next_wait, e) at h in ground arith
      ]

  -- A record that a claim returns is the row that it took, whatever the poll interval.
  pub claim-IsTaken :
      (config : Config) (locked : TaskRecord → Bool) (others : table.Db → table.Db) (d : table.Db)
      (name : String) (now later : Time) (r : TaskRecord)
      → (claim S config locked others d name now later).1 ≡ claimed r
      → IsTaken d
          (claim S config locked others d name now later).0
          locked
          name
          now
          (add now config.lease_duration)
          r
  unfolding claim
  claim-IsTaken config locked others d name now later r h =
      let p = is_ready name now in
      let lease = add now config.lease_duration in
      let f = started lease in
      let d' = (S.update_first d locked p by_run_at_then_enqueued f).0 in
      elim (Option-cases ((S.update_first d locked p by_run_at_then_enqueued f).1)) [
        | inl e ↦
            let h' : broken config.poll_interval ≡ claimed r = rw (claim, e) at h in
            absurd (ground arith)
        | inr (none, e) ↦
            let h' : next_wait S config.poll_interval (others d') name later ≡ claimed r =
              rw (claim, e) at h in
            absurd (next_wait-ne-claimed config.poll_interval (others d') name later r h')
        | inr (some x, e) ↦
            let (c, inside, ready, unlocked, given, first, sets) =
              S.first_sets d locked p by_run_at_then_enqueued f x e in
            let h' : claimed x ≡ claimed r = rw (claim, e) at h in
            rw (claim, e)
              record {
                candidate = c;
                inside = inside;
                ready = ready-IsDue name now c ready;
                unlocked = unlocked;
                given = sym (claimed-injective x r h') ∙ given;
                first = λ s m due free.
                    order-ComesFirst c s (first s m (IsDue-ready name now s due) free);
                after = sets;
              }
      ]
