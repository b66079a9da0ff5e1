-- ===== src/Gorm/Claim.antt =====
-- gorm_workqueue/workqueue.go: the statements of a claim. What other processes do to the table before
-- each statement is an argument.
use workqueue_modules.Gorm.State.{Config}
use workqueue_modules.Gorm.Rows.{
  is_ready, in_queue, is_expired, is_attempt, by_run_at, by_run_at_then_enqueued, started, reaped,
}
use workqueue_modules.Prelude.{
  ℕ, zero, suc, String, Option, none, some, List, [], ◌∷◌, if◌then◌else◌, length,
}
use workqueue_modules.Prelude.Int.{pos, ◌+ℤ◌, sub_ℕ, ltb_ℤ, wrap64}
use workqueue_modules.Workqueue.{Time, Duration, add}
use workqueue_modules.Sql.{pending, running, TaskRecord, Table}

-- What a claim returns: a record, or how long to wait, after an error or not.
pub data Claimed : Type 0 where
  claimed : TaskRecord → Claimed
  waits : Duration → Claimed
  broken : Duration → Claimed

-- How the loop over the candidates ends.
pub data Race : Type 0 where
  won : TaskRecord → Race
  lost failed : Race

abbrev pub millisecond : Duration
millisecond = pos 1_000_000

-- `time.Until(t)` at the time `now`.
abbrev until : Time → Time → Duration
until t now = sub_ℕ t now

-- The claimed candidate, as the worker is given it.
abbrev pub taken : Time → TaskRecord → TaskRecord
taken lease c = record c {
  status = running;
  attempts = wrap64 (c.attempts +ℤ pos 1);
  lease_expires_at = some lease;
}

module _ (T : Table) where
  open T use {Db, update, select}

  -- A failure is logged and left.
  unfoldable pub reap_expired_leases : Db → String → Time → Db
  reap_expired_leases d name now = (update d (is_expired name now) reaped).0

  -- The UPDATE that claims a candidate.
  unfoldable pub try_claim : Db → TaskRecord → Time → Db × Option ℕ
  try_claim d c lease = update d (is_attempt c pending) (started lease)

  -- The loop over the candidates; `others n` is what other processes do before the n-th statement.
  unfoldable pub claim_loop : (ℕ → Db → Db) → Time → ℕ → List TaskRecord → Db → Db × Race
  claim_loop others lease n [] d = (d, lost)
  claim_loop others lease n (c ∷ cs) d =
      let (d', changed) = try_claim (others n d) c lease in
      elim changed [
        | none ↦ (d', failed)
        | some zero ↦ claim_loop others lease (suc n) cs d'
        | some (suc _) ↦ (d', won (taken lease c))
      ]

  -- The wait when no candidate was won: until the next scheduled task, or for the poll interval.
  unfoldable pub next_wait : Duration → Db → String → Time → Claimed
  next_wait poll d name now = elim (select d (in_queue name pending) by_run_at (some 1) 0) [
    | none ↦ broken poll
    | some [] ↦ waits poll
    | some (r ∷ _) ↦
        let wait = until r.run_at now in
        waits
          (if ltb_ℤ wait poll then (if ltb_ℤ wait millisecond then millisecond else wait) else poll)
  ]

  unfoldable pub after_race :
      Duration → (ℕ → Db → Db) → String → Time → ℕ → Db × Race → Db × Claimed
  after_race poll others name now n (d, won c) = (d, claimed c)
  after_race poll others name now n (d, failed) = (d, broken poll)
  after_race poll others name now n (d, lost) =
      let d' = others n d in (d', next_wait poll d' name now)

  -- `now` is read at the start, `later` for the wait.
  unfoldable pub claim : Config → (ℕ → Db → Db) → Db → String → Time → Time → Db × Claimed
  unfolding after_race next_wait claim_loop
  claim config others d name now later =
      let d' = others 0 d in
      elim (select d' (is_ready name now) by_run_at_then_enqueued (some 5) 0) [
        | none ↦ (d', broken config.poll_interval)
        | some candidates ↦
            after_race config.poll_interval others name later (suc (length candidates))
              (claim_loop others (add now config.lease_duration) 1 candidates d')
      ]
