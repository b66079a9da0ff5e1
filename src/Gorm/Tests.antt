-- ===== src/Gorm/Tests.antt =====
-- The database backend on a table in memory, and the theorems at states of it.
use workqueue_modules.Prelude.{◌≡◌, ◌≢◌, refl, sym, ap, ◌∙◌, none, some, List, [], ◌∷◌, Mem}
use mathlib.Core.List.{not-mem-nil, mem-cons}
use mathlib.Core.Logic.Or
use mathlib.Core.HLevel.{⊥_prop}
use workqueue_modules.Prelude.{arith}
use workqueue_modules.Gorm.Guard.{stale_failure_keeps}
use workqueue_modules.Prelude.Int.{pos, pos_part}
use workqueue_modules.Workqueue.Options.{ConsumeOptions, new_enqueue_options}
use workqueue_modules.Sql.{TaskRecord, pending, running, where_rows, updated}
use workqueue_modules.Sql.ListTable.{
  ListDb, list_table, one_map, list_select, select_sorted, is_ordered, sort, put_sorted,
  none_before, list_create, has_id,
}
use workqueue_modules.Gorm.State.{GormWorkQueue, Config, new, broadcast_local}
use workqueue_modules.Gorm.Claim.{try_claim, claim, claimed, taken}
use workqueue_modules.Gorm.Deliveries.{claim_ends, ClaimEnds}
use workqueue_modules.Gorm.{enqueue, complete, insert_task, encode_metadata}
use workqueue_modules.Gorm.Calls.{Call, enqueues, completes, reaps, run, call}

abbrev row : TaskRecord
row = record {
  id = "a";
  queue = "mail";
  status = pending;
  run_at = 1000;
  payload = [];
  metadata = [];
  attempts = pos 0;
  max_retries = pos 3;
  enqueued_at = 1000;
  last_error = "";
  died_at = none;
  lease_expires_at = none;
}

abbrev loaded : ListDb
loaded = record { rows = row ∷ []; sent = [] }

abbrev config : Config
config = record { table_name = ""; poll_interval = pos 0; lease_duration = pos 0 }

abbrev consuming : ConsumeOptions
consuming = record { concurrency = pos 2; backoff_base = pos 100; backoff_max = pos 1000 }

-- The worker fails the attempt, and another task is enqueued.
abbrev after_claim : List Call
after_claim =
    enqueues "mail" [] [] "b" 1002
    ∷ completes (record row { attempts = pos 1 }) (some "boom") consuming 1003
    ∷ reaps "mail" 5000
    ∷ []

abbrev queue : GormWorkQueue ListDb
queue = new (some loaded) config

abbrev claimed_queue : GormWorkQueue ListDb
claimed_queue = record queue { db = some (try_claim list_table loaded row 9000).0 }

-- The table at the end of a history.
abbrev table_after : GormWorkQueue ListDb → List Call → ListDb
table_after q calls = elim (run list_table one_map q calls).db [ none ↦ loaded | some d ↦ d ]

claims_row : (try_claim list_table loaded row 9000).1 ≡ some 1
unfolding try_claim where_rows
claims_row = refl

after_claim-ends :
    (run list_table one_map claimed_queue after_claim).db
    ≡ some (table_after claimed_queue after_claim)
unfolding run call enqueue complete new_enqueue_options insert_task encode_metadata new try_claim
    list_create where_rows has_id updated broadcast_local
after_claim-ends = refl

-- The second attempt is running when the first one's worker reports its failure.
abbrev second : TaskRecord
second = record row { status = running; attempts = pos 2; lease_expires_at = some 20000 }

abbrev retaken : ListDb
retaken = record { rows = second ∷ []; sent = [] }

abbrev first : TaskRecord
first = record row { status = running; attempts = pos 1; lease_expires_at = some 9000 }

is_stale :
    (s : TaskRecord)
    → Mem s retaken.rows
    → s.id ≡ first.id
    → s.status ≡ running
    → s.attempts ≢ first.attempts
is_stale s m named runs same =
    Or.elim ⊥_prop (mem-cons.0 m) (λ e. absurd (pos_ne (ap (λ r. r.attempts) (sym e) ∙ same)))
      (λ k. absurd (not-mem-nil k))
  where
    pos_ne : pos 2 ≢ pos 1
    pos_ne e = absurd (omega (arith, ap pos_part e))

stale_failure_keeps_example :
    (d' : ListDb) × ((complete list_table queue retaken first (some "boom") consuming 21000).db
      ≡ some d')
    × (d'.rows ≡ retaken.rows)
stale_failure_keeps_example =
    stale_failure_keeps list_table queue retaken first "boom" consuming 21000 is_stale

abbrev polling : Config
polling = record {
  table_name = "workqueue_tasks";
  poll_interval = pos 1_000_000_000;
  lease_duration = pos 5_000_000_000;
}

-- No other process writes to the table between the statements.
claim_ends_example :
    let (d', c) = claim list_table polling (λ n d. d) loaded "mail" 2000 2001 in
    ClaimEnds list_table polling "mail" 2000 d' c
claim_ends_example = claim_ends list_table polling (λ n d. d) loaded "mail" 2000 2001 (omega arith)

claim_test :
    (claim list_table polling (λ n d. d) loaded "mail" 2000 2001).1
    ≡ claimed (taken 5_000_002_000 row)
unfolding claim list_select select_sorted is_ordered sort where_rows put_sorted none_before
    try_claim
claim_test = refl
