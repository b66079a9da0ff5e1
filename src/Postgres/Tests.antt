-- ===== src/Postgres/Tests.antt =====
-- The PostgreSQL backend on a table in memory, and the theorems at states of it.
use workqueue_modules.Sql.ListTable.{ListDb, list_create, one_map, marshal_one, english}
use workqueue_modules.Postgres.InMemory.{list_postgres, rolled_back}
use workqueue_modules.Sql.{pending, dead, where_rows}
use workqueue_modules.Postgres.Quoting.{codes, doubled, quoted}
use workqueue_modules.Postgres.Claim.{claim}
use workqueue_modules.Postgres.Deliveries.{skip_locked_claim, ClaimEnds}
use workqueue_modules.Postgres.Model.{TaskRecord, to_task}
use workqueue_modules.Prelude.{
  ℕ, ◌≡◌, refl, inl, inr, true, false, none, arith, some, List, [], ◌∷◌, ◌++◌, lookup, insert,
}
use workqueue_modules.Prelude.Int.{pos}
use workqueue_modules.Workqueue.{Task}
use workqueue_modules.Workqueue.Options.{EnqueueOption, with_metadata, new_enqueue_options}
use workqueue_modules.Postgres.State.{Config, PostgresWorkQueue, new, notify, broadcast_local}
use workqueue_modules.Postgres.Listener.{refused, receives, on_wake, delays, min_backoff}
use workqueue_modules.Postgres.Reconnect.{delays_lem, schedule}
use workqueue_modules.Postgres.Calls.{requeues}
use workqueue_modules.Postgres.Channels.{AllOpen}
use workqueue_modules.Postgres.Wakeup.{
  Event, calls, looks, hears, step, steps, Announced, announced_wakes,
}
use workqueue_modules.Postgres.Atomic.{
  enqueue_atomic, EnqueueEnds, Describes, requeue_atomic, RequeueEnds,
}
use workqueue_modules.Postgres.{enqueue, requeue_dead_task, encode_metadata, new_record}

abbrev config : Config
config = record {
  table_name = "";
  poll_interval = pos 0;
  lease_duration = pos 0;
  notify_channel = "";
  listen_dsn = "";
}

abbrev fresh : PostgresWorkQueue ListDb
fresh = new (some record { rows = []; sent = [] }) config

delays_lem_example : delays fresh min_backoff (receives ("mail" ∷ []) ∷ refused ∷ []) ≡ schedule 0 2
delays_lem_example = delays_lem fresh (receives ("mail" ∷ []) ∷ refused ∷ [])

delays_test :
    schedule 0 6
    ≡ pos 1_000_000_000
      ∷ pos 2_000_000_000
      ∷ pos 4_000_000_000
      ∷ pos 8_000_000_000
      ∷ pos 16_000_000_000
      ∷ pos 30_000_000_000
      ∷ []
delays_test = refl

-- A worker waits on the channel 0 of "mail".
abbrev waiting : PostgresWorkQueue ListDb
waiting = (notify fresh "mail").0

code : ℕ
unfolding enqueue requeue_dead_task marshal_one new notify with_metadata new_enqueue_options
    encode_metadata insert lookup list_create to_task new_record
code = 0

abbrev emptied : ListDb
emptied = record { rows = []; sent = [] }

abbrev tagged : List EnqueueOption
tagged = with_metadata english ∷ []

tagged_encodes : encode_metadata one_map (new_enqueue_options tagged).metadata ≡ some (1 ∷ [])
unfolding code
tagged_encodes = refl

waiting_db : waiting.db ≡ some emptied
unfolding code
waiting_db = refl

enqueue_atomic_example :
    (t : Task) × Describes list_postgres one_map t "a" "mail"
      (7 ∷ [])
      (new_enqueue_options tagged)
      1000
    × EnqueueEnds list_postgres one_map waiting emptied
        (new_record "a" "mail" (7 ∷ []) (1 ∷ []) (new_enqueue_options tagged) 1000)
        t
        (enqueue list_postgres one_map waiting "mail" (7 ∷ []) tagged "a" 1000)
enqueue_atomic_example =
    enqueue_atomic list_postgres one_map waiting emptied "mail" (7 ∷ []) (1 ∷ []) tagged "a" 1000
      waiting_db tagged_encodes

-- A dead task "a" on the queue "mail".
abbrev dead_row : TaskRecord
dead_row = record {
  id = "a";
  queue = "mail";
  status = dead;
  run_at = 1000;
  payload = [];
  metadata = [];
  attempts = pos 4;
  max_retries = pos 3;
  enqueued_at = 1000;
  last_error = "boom";
  died_at = some 2000;
  lease_expires_at = none;
}

abbrev one_dead : ListDb
one_dead = record { rows = dead_row ∷ []; sent = [] }

abbrev with_dead : PostgresWorkQueue ListDb
with_dead = record waiting { db = some one_dead }

requeue_atomic_example :
    RequeueEnds list_postgres with_dead one_dead "mail" "a" 3000
      (requeue_dead_task list_postgres with_dead "mail" "a" 3000)
requeue_atomic_example = requeue_atomic list_postgres with_dead one_dead "mail" "a" 3000 refl

-- The listener hears of "audit"; a worker looks at "mail"; then the dead task is requeued.
earlier : List Event
earlier = hears "audit" ∷ []

later : List Event
later = looks "audit" ∷ calls (requeues "mail" "a" 3000) ∷ []

earlier_steps : PostgresWorkQueue ListDb
earlier_steps = steps list_postgres one_map (new (some one_dead) config) earlier

requeued : Announced list_postgres one_map (notify earlier_steps "mail").0 "mail" later
unfolding earlier later earlier_steps step steps on_wake broadcast_local notify new lookup insert
    requeue_dead_task rolled_back where_rows
requeued = inr (inl (refl, refl))

announced_wakes_example :
    let (q, ch) = notify earlier_steps "mail" in
    AllOpen earlier_steps
    × (q.closed ch ≡ false)
    × ((steps list_postgres one_map q later).closed ch ≡ true)
unfolding earlier_steps
announced_wakes_example =
    announced_wakes list_postgres one_map (some one_dead) config earlier "mail" later requeued

abbrev polling : Config
polling = record config { poll_interval = pos 1_000_000_000; lease_duration = pos 5_000_000_000 }

abbrev one_pending : ListDb
one_pending = record { rows = record dead_row { status = pending } ∷ []; sent = [] }

-- No transaction holds a lock, and none writes to the table.
skip_locked_claim_example :
    let (d', c) = claim list_postgres polling (λ r. false) (λ d. d) one_pending "mail" 2000 2001 in
    ClaimEnds list_postgres polling (λ r. false) (λ d. d) one_pending "mail" 2000 d' c
skip_locked_claim_example =
    skip_locked_claim list_postgres polling (λ r. false) (λ d. d) one_pending "mail" 2000 2001
      (omega arith)

-- The quote in the middle is doubled.
quoted_test : quoted (codes "a" ++ 34 ∷ codes "b") ≡ 34 ∷ 97 ∷ 34 ∷ 34 ∷ 98 ∷ 34 ∷ []
unfolding quoted doubled
quoted_test = refl
