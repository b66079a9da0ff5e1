-- ===== src/Gorm/Deliveries.antt =====
-- gorm_workqueue/workqueue.go: what a claim gives a worker.
use mathlib.Core.List.{mem-cons, not-mem-nil, mem-cons_self, mem-cons_of_mem, Mem-prop}
use mathlib.Core.List.Perm
use mathlib.Core.Logic.Or
use workqueue_modules.Prelude.{
  ℕ, zero, suc, ◌<◌, Bool, str_eq, ◌&&◌, ◌≡◌, refl, sym, subst, ap, ◌∙◌, ◌⊎◌, inl, inr, String,
  some, List, [], ◌∷◌, Mem, arith, if◌then◌else◌, if_intro, Option-cases, length, take,
}
use workqueue_modules.Prelude.Int.{◌≤ℤ◌, ◌+ℤ◌, pos, ltb_ℤ, eqb_ℤ, sub_ℕ, wrap64}
use workqueue_modules.Workqueue.{Time, Duration, add}
use workqueue_modules.Sql.{TaskRecord, pending, running, has_status, Table, where_rows, updated}
use workqueue_modules.Sql.Meaning.{IsDue, ready-IsDue}
use workqueue_modules.Sql.Membership.{where_rows-mem}
use workqueue_modules.Gorm.Rows.{is_ready, in_queue, by_run_at, by_run_at_then_enqueued, started}
use workqueue_modules.Gorm.State.{Config}
use workqueue_modules.Gorm.Claim.{
  millisecond, Claimed, claimed, waits, broken, Race, won, lost, failed, taken, try_claim,
  claim_loop, next_wait, after_race, claim,
}

take-mem : (n : ℕ) (l : List TaskRecord) (x : TaskRecord) → Mem x (take n l) → Mem x l
take-mem zero l x m = absurd (not-mem-nil m)
take-mem (suc n) [] x m = m
take-mem (suc n) (y ∷ l) x m =
    Or.elim Mem-prop (mem-cons.0 m) (λ e. rw e mem-cons_self)
      (λ k. mem-cons_of_mem y (take-mem n l x k))

won-injective : (a b : TaskRecord) → won a ≡ won b → a ≡ b
won-injective a b e = cc e

-- The row of the candidate, unless it was claimed, taken back or dropped since.
abbrev pub still_pending : TaskRecord → TaskRecord → Bool
still_pending c s = str_eq s.id c.id && has_status pending s.status && eqb_ℤ s.attempts c.attempts

module _ (T : Table) where
  open T use {Db, rows}

  -- The record `r` is a candidate that satisfies `P`, whose UPDATE found the row still pending at the
  -- attempt that the candidate has, and moved it to running with one attempt more and the lease.
  pub record Wins (P : TaskRecord → Type 0) (lease : Time) (d' : Db) (r : TaskRecord) : Type 0 where
    pub candidate : TaskRecord
    pub before : Db
    pub fits : P candidate
    pub hit : 0 < length (where_rows (still_pending candidate) (rows before))
    pub after :
        rows d'
        ≡ updated
            (still_pending candidate)
            (λ s. record s {
              status = running;
              attempts = s.attempts +ℤ pos 1;
              lease_expires_at = some lease;
            })
            (rows before)
    pub given : r ≡ record candidate {
      status = running;
      attempts = wrap64 (candidate.attempts +ℤ pos 1);
      lease_expires_at = some lease;
    }

  loop_won :
      (P : TaskRecord → Type 0) (others : ℕ → Db → Db) (lease : Time) (k : ℕ) (cs : List TaskRecord)
      (d : Db) (r : TaskRecord)
      → ((c : TaskRecord) → Mem c cs → P c)
      → (claim_loop T others lease k cs d).1 ≡ won r
      → Wins P lease (claim_loop T others lease k cs d).0 r
  unfolding claim_loop try_claim
  loop_won P others lease k [] d r fits h = absurd (ground arith)
  loop_won P others lease k (c ∷ cs) d r fits h =
      let d0 = others k d in
      elim (Option-cases ((try_claim T d0 c lease).1)) [
        | inl e ↦ let h' : failed ≡ won r = rw (claim_loop, e) at h in absurd (ground arith)
        | inr (zero, e) ↦
            let next = claim_loop T others lease (suc k) cs (try_claim T d0 c lease).0 in
            let same : claim_loop T others lease k (c ∷ cs) d ≡ next = rw (claim_loop, e) refl in
            subst (λ x. Wins P lease x.0 r) (sym same)
              (loop_won P others lease (suc k) cs (try_claim T d0 c lease).0 r
                (λ x m. fits x (mem-cons_of_mem c m)) (ap (λ x. x.1) (sym same) ∙ h))
        | inr (suc n, e) ↦
            let ends : claim_loop T others lease k (c ∷ cs) d
                ≡ ((try_claim T d0 c lease).0, won (taken lease c)) =
              rw (claim_loop, e) refl in
            record {
              candidate = c;
              before = d0;
              fits = fits c mem-cons_self;
              hit = omega (arith, (T.update_sets d0 (still_pending c) (started lease) (suc n) e).1);
              after =
                  ap (λ x. rows x.0) ends
                  ∙ (T.update_sets d0 (still_pending c) (started lease) (suc n) e).0;
              given = won-injective r (taken lease c) (sym h ∙ ap (λ x. x.1) ends);
            }
      ]

  -- A wait is positive, and it is at most the poll interval, or 1 ms when that is longer.
  abbrev pub IsWait : Duration → Duration → Type 0
  IsWait poll w = (pos 1 ≤ℤ w) × ((w ≤ℤ poll) ⊎ (w ≡ millisecond))

  pub capped-IsWait :
      (wait poll : Duration)
      → pos 1 ≤ℤ poll
      → IsWait poll
          (if ltb_ℤ wait poll then (if ltb_ℤ wait millisecond then millisecond else wait) else poll)
  capped-IsWait wait poll h =
      if_intro (IsWait poll) (ltb_ℤ wait poll)
        (λ e.
          if_intro (IsWait poll) (ltb_ℤ wait millisecond) (λ k. (omega arith, inr refl))
            (λ k. (ground arith, inl (ground arith))))
        (λ e. (h, inl (omega arith)))

  abbrev pub ClaimEnds : Config → String → Time → Db → Claimed → Type 0
  ClaimEnds config name now d' (claimed r) =
      Wins (IsDue name now) (add now config.lease_duration) d' r
  ClaimEnds config name now d' (waits w) = IsWait config.poll_interval w
  ClaimEnds config name now d' (broken w) = IsWait config.poll_interval w

  next_wait-ClaimEnds :
      (config : Config) (d : Db) (name : String) (now later : Time)
      → pos 1 ≤ℤ config.poll_interval
      → ClaimEnds config name now d (next_wait T config.poll_interval d name later)
  unfolding next_wait
  next_wait-ClaimEnds config d name now later h =
      let poll = config.poll_interval in
      elim (Option-cases (T.select d (in_queue name pending) by_run_at (some 1) 0)) [
        | inl e ↦ rw (next_wait, e) (h, inl (omega arith))
        | inr ([], e) ↦ rw (next_wait, e) (h, inl (omega arith))
        | inr (r ∷ rs, e) ↦ rw (next_wait, e) (capped-IsWait (sub_ℕ r.run_at later) poll h)
      ]

  after_race-ClaimEnds :
      (config : Config) (others : ℕ → Db → Db) (name : String) (now later : Time) (n : ℕ)
      (x : Db × Race)
      → pos 1 ≤ℤ config.poll_interval
      → ((r : TaskRecord)
          → x.1 ≡ won r
          → Wins (IsDue name now) (add now config.lease_duration) x.0 r)
      → let (d', c) = after_race T config.poll_interval others name later n x in
        ClaimEnds config name now d' c
  unfolding after_race
  after_race-ClaimEnds config others name now later n (d, won r) h wins = wins r refl
  after_race-ClaimEnds config others name now later n (d, failed) h wins = (h, inl (omega arith))
  after_race-ClaimEnds config others name now later n (d, lost) h wins =
      next_wait-ClaimEnds config (others n d) name now later h

  selected_ready :
      (d : Db) (name : String) (now : Time) (l : List TaskRecord)
      → T.select d (is_ready name now) by_run_at_then_enqueued (some 5) 0 ≡ some l
      → (c : TaskRecord) → Mem c l
      → IsDue name now c
  selected_ready d name now l e c m =
      let (s, same, ordered, given) =
        T.select_reads d (is_ready name now) by_run_at_then_enqueued (some 5) 0 l e in
      ready-IsDue name now c
        (where_rows-mem (is_ready name now) (rows d) c
          ((Perm.mem_iff same).0 (take-mem 5 s c (subst (Mem c) given m)))).1

  -- A claim, whatever other processes do to the table before each of its statements, ends in one of
  -- two ways. Either it returns a record that was selected as pending in the worker's queue and due at
  -- `now`, with status running, one attempt more and the lease, and its own UPDATE found the row with
  -- that identifier still pending at the selected attempt count and changed exactly such rows, to
  -- running with one attempt more and the lease; or it returns a wait, after an error of the database too, that is positive and at most the poll interval, or 1 ms
  -- when that is longer. The poll interval is positive.
  pub claim_ends :
      (config : Config) (others : ℕ → Db → Db) (d : Db) (name : String) (now later : Time)
      → pos 1 ≤ℤ config.poll_interval
      → let (d', c) = claim T config others d name now later in ClaimEnds config name now d' c
  unfolding claim
  claim_ends config others d name now later h =
      let d' = others 0 d in
      let lease = add now config.lease_duration in
      elim (Option-cases (T.select d' (is_ready name now) by_run_at_then_enqueued (some 5) 0)) [
        | inl e ↦ rw (claim, e) (h, inl (omega arith))
        | inr (l, e) ↦
            let race = claim_loop T others lease 1 l d' in
            let ends =
              after_race-ClaimEnds config others name now later (suc (length l)) race h (λ r w.
                loop_won (IsDue name now) others lease 1 l d' r (selected_ready d' name now l e)
                  w) in
            rw (claim, e) ends
      ]
