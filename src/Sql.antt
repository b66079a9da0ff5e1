-- ===== src/Sql.antt =====
-- gorm_workqueue/model.go: the row of a task and its reading as a task; and what the backend takes
-- from outside the repository: the task table behind GORM, and encoding/json.
pub mod Meaning
pub mod Channels
pub mod Membership
pub mod Keys
pub mod Statements
pub mod ListTable
use workqueue_modules.Prelude.{
  ℕ, ◌≡◌, ◌≢◌, String, Bool, true, false, Option, none, some, List, [], ◌∷◌, Mem, Perm,
  if◌then◌else◌, length, take, drop,
}
use workqueue_modules.Prelude.Int.{ℤ}
use workqueue_modules.Workqueue.{Time, Task}

-- `StatusPending`, `StatusRunning`, `StatusDead`; the code writes no other status.
pub data Status : Type 0 where
  pending running dead : Status

-- The test `status = ?`.
abbrev pub has_status : Status → Status → Bool
has_status pending pending = true
has_status running running = true
has_status dead dead = true
has_status _ _ = false

pub record TaskRecord : Type 0 where
  pub id : String
  pub queue : String
  pub status : Status
  pub run_at : Time
  pub payload : List ℕ
  pub metadata : List ℕ
  pub attempts : ℤ
  pub max_retries : ℤ
  pub enqueued_at : Time
  pub last_error : String
  pub died_at : Option Time
  pub lease_expires_at : Option Time

-- `json.Marshal` of a string map and `json.Unmarshal` into one; `none` is an error.
pub record Json : Type 0 where
  pub marshal : List (String × String) → Option (List ℕ)
  pub unmarshal : List ℕ → Option (List (String × String))
  -- What was encoded is not empty, and decodes to the map that was encoded.
  pub round_trip :
      (md : List (String × String)) (b : List ℕ)
      → marshal md ≡ some b
      → (b ≢ []) × (unmarshal b ≡ some md)

-- `NULL` reads as the zero time.
abbrev pub time_or_zero : Option Time → Time
time_or_zero none = 0
time_or_zero (some t) = t

-- The metadata column: an empty one is the nil map.
abbrev pub decode_metadata : Json → List ℕ → Option (List (String × String))
decode_metadata j [] = some []
decode_metadata j (b ∷ bs) = j.unmarshal (b ∷ bs)

unfoldable pub task_of : TaskRecord → List (String × String) → Task
task_of r metadata = record {
  id = r.id;
  queue = r.queue;
  payload = r.payload;
  metadata = metadata;
  attempts = r.attempts;
  max_retries = r.max_retries;
  enqueued_at = r.enqueued_at;
  run_at = r.run_at;
  last_error = r.last_error;
  died_at = time_or_zero r.died_at;
}

-- `none` is the error of a metadata column that is no JSON map.
unfoldable pub to_task : Json → TaskRecord → Option Task
unfolding task_of
to_task j r = elim (decode_metadata j r.metadata) [
  | none ↦ none
  | some metadata ↦ some (task_of r metadata)
]

-- The rows that satisfy a condition, in their order.
unfoldable pub where_rows : (TaskRecord → Bool) → List TaskRecord → List TaskRecord
where_rows p [] = []
where_rows p (r ∷ rs) = if p r then r ∷ where_rows p rs else where_rows p rs

-- The table after `UPDATE … SET f WHERE p` and after `DELETE … WHERE p`.
unfoldable pub updated :
    (TaskRecord → Bool) → (TaskRecord → TaskRecord) → List TaskRecord → List TaskRecord
updated p f [] = []
updated p f (r ∷ rs) = (if p r then f r else r) ∷ updated p f rs

unfoldable pub deleted : (TaskRecord → Bool) → List TaskRecord → List TaskRecord
deleted p [] = []
deleted p (r ∷ rs) = if p r then deleted p rs else r ∷ deleted p rs

-- A list is in the order of a test `before`: no entry comes before one that stands above it.
abbrev pub IsOrdered : (TaskRecord → TaskRecord → Bool) → List TaskRecord → Type 0
IsOrdered before [] = Unit {0}
IsOrdered before (r ∷ rs) = ((s : TaskRecord) → Mem s rs → before s r ≡ false) × IsOrdered before rs

abbrev pub limited : Option ℕ → List TaskRecord → List TaskRecord
limited none rs = rs
limited (some n) rs = take n rs

-- The task table as the code reaches it through GORM: each statement is atomic, and either fails and
-- leaves the rows, or does what SQL says. A statement's result is the number of rows, or `none` for
-- an error.
pub record Table : Type 1 where
  pub Db : Type 0
  pub rows : Db → List TaskRecord
  pub create : Db → TaskRecord → Db × Bool
  pub update : Db → (TaskRecord → Bool) → (TaskRecord → TaskRecord) → Db × Option ℕ
  pub delete : Db → (TaskRecord → Bool) → Db × Option ℕ
  -- `SELECT … WHERE p ORDER BY before LIMIT n OFFSET m`
  pub select :
      Db
      → (TaskRecord → Bool)
      → (TaskRecord → TaskRecord → Bool)
      → Option ℕ
      → ℕ
      → Option (List TaskRecord)
  pub create_fails :
      (d : Db) (r : TaskRecord) → (create d r).1 ≡ false → rows (create d r).0 ≡ rows d
  -- The identifier is the primary key.
  pub create_adds :
      (d : Db) (r : TaskRecord)
      → (create d r).1 ≡ true
      → Perm (rows (create d r).0) (r ∷ rows d) × ((s : TaskRecord) → Mem s (rows d) → s.id ≢ r.id)
  pub update_fails :
      (d : Db) (p : TaskRecord → Bool) (f : TaskRecord → TaskRecord)
      → (update d p f).1 ≡ none
      → rows (update d p f).0 ≡ rows d
  pub update_sets :
      (d : Db) (p : TaskRecord → Bool) (f : TaskRecord → TaskRecord) (n : ℕ)
      → (update d p f).1 ≡ some n
      → (rows (update d p f).0 ≡ updated p f (rows d)) × (n ≡ length (where_rows p (rows d)))
  pub delete_fails :
      (d : Db) (p : TaskRecord → Bool) → (delete d p).1 ≡ none → rows (delete d p).0 ≡ rows d
  pub delete_drops :
      (d : Db) (p : TaskRecord → Bool) (n : ℕ)
      → (delete d p).1 ≡ some n
      → (rows (delete d p).0 ≡ deleted p (rows d)) × (n ≡ length (where_rows p (rows d)))
  pub select_reads :
      (d : Db) (p : TaskRecord → Bool) (before : TaskRecord → TaskRecord → Bool) (limit : Option ℕ)
      (offset : ℕ) (l : List TaskRecord)
      → select d p before limit offset ≡ some l
      → (s : List TaskRecord) × Perm s (where_rows p (rows d))
        × IsOrdered before s
        × (l ≡ limited limit (drop offset s))
