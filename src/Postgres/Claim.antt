-- ===== src/Postgres/Claim.antt =====
-- postgres_workqueue/workqueue.go: the claim and the reaping of leases. `locked` says which rows
-- other transactions hold, and `others` is what they do between the two statements of a claim.
use workqueue_modules.Sql.{pending, running, has_status}
use workqueue_modules.Postgres.Model.{TaskRecord, Status}
use workqueue_modules.Postgres.Store.{Postgres}
use workqueue_modules.Postgres.State.{Config}
use workqueue_modules.Prelude.{
  zero, suc, String, Bool, false, ◌&&◌, Option, none, some, [], ◌∷◌, str_eq, ltb, leb, ◌==◌,
  if◌then◌else◌,
}
use workqueue_modules.Prelude.Int.{pos, ◌+ℤ◌, sub_ℕ, ltb_ℤ}
use workqueue_modules.Workqueue.{Time, Duration, add}

-- What a claim returns: a record, or how long to wait, after an error or not.
pub data Claimed : Type 0 where
  claimed : TaskRecord → Claimed
  waits : Duration → Claimed
  broken : Duration → Claimed

abbrev millisecond : Duration
millisecond = pos 1_000_000

abbrev pub in_queue : String → Status → TaskRecord → Bool
in_queue name status r = str_eq r.queue name && has_status status r.status

abbrev pub is_ready : String → Time → TaskRecord → Bool
is_ready name now r = in_queue name pending r && leb r.run_at now

-- `ORDER BY run_at, enqueued_at`
abbrev pub by_run_at_then_enqueued : TaskRecord → TaskRecord → Bool
by_run_at_then_enqueued r s =
    if r.run_at == s.run_at then ltb r.enqueued_at s.enqueued_at else ltb r.run_at s.run_at

abbrev pub by_run_at : TaskRecord → TaskRecord → Bool
by_run_at r s = ltb r.run_at s.run_at

abbrev pub started : Time → TaskRecord → TaskRecord
started lease r = record r {
  status = running;
  attempts = r.attempts +ℤ pos 1;
  lease_expires_at = some lease;
}

-- `lease_expires_at < ?`, which is not true of NULL.
abbrev pub lease_before : Time → Option Time → Bool
lease_before now none = false
lease_before now (some t) = ltb t now

abbrev pub is_expired : String → Time → TaskRecord → Bool
is_expired name now r = in_queue name running r && lease_before now r.lease_expires_at

abbrev pub reaped : TaskRecord → TaskRecord
reaped r = record r { status = pending; lease_expires_at = none }

module _ (S : Postgres) where
  open S use {table, update_first, pg_notify}

  -- The wait when no row was claimed: until the next scheduled task, or for the poll interval.
  unfoldable pub next_wait : Duration → table.Db → String → Time → Claimed
  next_wait poll d name now = elim (table.select d (in_queue name pending) by_run_at (some 1) 0) [
    | none ↦ broken poll
    | some [] ↦ waits poll
    | some (r ∷ _) ↦
        let wait = sub_ℕ r.run_at now in
        waits
          (if ltb_ℤ wait poll then if ltb_ℤ wait millisecond then millisecond else wait else poll)
  ]

  -- `now` is read at the start, `later` for the wait.
  unfoldable pub claim :
      Config
      → (TaskRecord → Bool)
      → (table.Db → table.Db)
      → table.Db
      → String
      → Time
      → Time
      → table.Db × Claimed
  unfolding next_wait
  claim config locked others d name now later =
      let (d', result) =
        update_first d locked (is_ready name now) by_run_at_then_enqueued
          (started (add now config.lease_duration)) in
      elim result [
        | none ↦ (d', broken config.poll_interval)
        | some (some r) ↦ (d', claimed r)
        | some none ↦ let d'' = others d' in (d'', next_wait config.poll_interval d'' name later)
      ]

  -- Failures are logged and left; other processes hear of what was recovered.
  unfoldable pub reap_expired_leases : Config → table.Db → String → Time → table.Db
  reap_expired_leases config d name now =
      let (d', changed) = table.update d (is_expired name now) reaped in
      elim changed [
        | none ↦ d'
        | some zero ↦ d'
        | some (suc _) ↦ (pg_notify d' config.notify_channel name).0
      ]
