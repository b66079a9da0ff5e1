-- ===== src/Nats/Broker.antt =====
-- What nats_workqueue takes from outside the repository: a JetStream server, and encoding/json on
-- tasks.
use workqueue_modules.Prelude.{
  ℕ, ◌≤◌, ◌<◌, ◌^◌, ◌≡◌, ◌≢◌, ◌⊎◌, String, Bool, true, false, Option, some, List, [], ◌∷◌, ◌++◌,
  Mem, ◌==◌, if◌then◌else◌,
}
use workqueue_modules.Prelude.Int.{ℤ}
use workqueue_modules.Workqueue.{Duration, Task}

-- A message of a stream: its sequence number and its body.
pub record Entry : Type 0 where
  pub seq : ℕ
  pub body : List ℕ

pub data Retention : Type 0 where
  work_queue_policy limits_policy : Retention

-- The fields of jetstream.StreamConfig that the code chooses; each stream has one subject.
pub record StreamConfig : Type 0 where
  pub name : String
  pub subject : String
  pub retention : Retention
  pub replicas : ℤ

-- A delivery: where the message stands.
pub record Msg : Type 0 where
  pub stream : String
  pub entry : Entry

-- `GetMsg`: the body, jetstream.ErrMsgNotFound, or another error.
pub data Fetched : Type 0 where
  found : List ℕ → Fetched
  not_found fetch_failed : Fetched

-- `DeleteMsg`: done; ErrMsgDeleteUnsuccessful or ErrMsgNotFound; or another error.
pub data Deleted : Type 0 where
  deleted no_message delete_failed : Deleted

-- What a worker tells the server of a delivery.
pub data Reply : Type 0 where
  ack term : Reply
  nak_with_delay : Duration → Reply

-- The messages other than the one numbered `k`.
unfoldable pub without_seq : ℕ → List Entry → List Entry
without_seq k [] = []
without_seq k (e ∷ es) = if e.seq == k then without_seq k es else e ∷ without_seq k es

-- The sequence numbers go up.
abbrev pub IsAscending : List Entry → Type 0
IsAscending [] = Unit {0}
IsAscending (e ∷ es) = ((f : Entry) → Mem f es → e.seq < f.seq) × IsAscending es

-- A call is atomic on the server. Its Boolean says that it returned no error; after an error the
-- server may have acted or not.
pub record JetStream : Type 1 where
  pub Server : Type 0
  -- The messages of a stream, the stream that takes a subject, and whether an identifier stands in a
  -- stream's window of duplicates.
  pub stored : Server → String → List Entry
  pub owner : Server → String → Option String
  pub is_duplicate : Server → String → String → Bool
  -- nats_connector.EnsureStream
  pub ensure_stream : Server → StreamConfig → Server × Bool
  -- `Publish`, with jetstream.WithMsgID or not.
  pub publish : Server → String → List ℕ → Option String → Server × Bool
  -- `Ack`, `TermWithReason` and `NakWithDelay`
  pub reply : Server → Msg → Reply → Server × Bool
  -- `Stream`, then `Info`: the first and the last sequence number.
  pub has_stream : Server → String → Bool
  pub info : Server → String → Option (ℕ × ℕ)
  pub get_msg : Server → String → ℕ → Fetched
  pub delete_msg : Server → String → ℕ → Server × Deleted
  -- A stream that was ensured takes its subject. No other stream with another subject is touched.
  pub ensure_owns :
      (s : Server) (c : StreamConfig)
      → (ensure_stream s c).1 ≡ true
      → owner (ensure_stream s c).0 c.subject ≡ some c.name
  pub ensure_keeps_owner :
      (s : Server) (c : StreamConfig) (subject name : String)
      → name ≢ c.name
      → subject ≢ c.subject
      → owner s subject ≡ some name
      → owner (ensure_stream s c).0 subject ≡ some name
  pub ensure_keeps_stored :
      (s : Server) (c : StreamConfig) (name : String)
      → stored (ensure_stream s c).0 name ≡ stored s name
  -- A message that is published is appended to the stream of its subject, unless its identifier is a
  -- duplicate there; the acknowledgement is the same.
  pub publish_appends :
      (s : Server) (subject name : String) (body : List ℕ) (id : Option String)
      → owner s subject ≡ some name
      → (publish s subject body id).1 ≡ true
      → ((i : String) → id ≡ some i → is_duplicate s name i ≡ false)
      → (k : ℕ) × (stored (publish s subject body id).0 name
          ≡ stored s name ++ record { seq = k; body = body } ∷ [])
  pub publish_duplicate :
      (s : Server) (subject name : String) (body : List ℕ) (i : String)
      → owner s subject ≡ some name
      → is_duplicate s name i ≡ true
      → stored (publish s subject body (some i)).0 name ≡ stored s name
  pub publish_keeps :
      (s : Server) (subject name : String) (body : List ℕ) (id : Option String) (e : Entry)
      → Mem e (stored s name)
      → Mem e (stored (publish s subject body id).0 name)
  pub publish_elsewhere :
      (s : Server) (subject name other : String) (body : List ℕ) (id : Option String)
      → owner s subject ≡ some name
      → name ≢ other
      → stored (publish s subject body id).0 other ≡ stored s other
  -- An acknowledgement or a termination takes the message out of a work queue when it reaches the
  -- server; a negative one leaves it there.
  pub reply_takes :
      (s : Server) (m : Msg) (r : Reply)
      → (stored (reply s m r).0 m.stream ≡ stored s m.stream)
        ⊎ (stored (reply s m r).0 m.stream ≡ without_seq m.entry.seq (stored s m.stream))
  pub nak_keeps :
      (s : Server) (m : Msg) (d : Duration) (name : String)
      → stored (reply s m (nak_with_delay d)).0 name ≡ stored s name
  pub reply_elsewhere :
      (s : Server) (m : Msg) (r : Reply) (name : String)
      → m.stream ≢ name
      → stored (reply s m r).0 name ≡ stored s name
  pub ascending : (s : Server) (name : String) → IsAscending (stored s name)
  pub info_bounds :
      (s : Server) (name : String) (first last : ℕ)
      → info s name ≡ some (first, last)
      → (last < 2 ^ 64)
        × ((e : Entry) → Mem e (stored s name) → (0 < first) × (first ≤ e.seq) × (e.seq ≤ last))
  pub get_finds :
      (s : Server) (name : String) (k : ℕ) (b : List ℕ)
      → get_msg s name k ≡ found b
      → Mem (record { seq = k; body = b }) (stored s name)
  pub get_misses :
      (s : Server) (name : String) (k : ℕ) (e : Entry)
      → get_msg s name k ≡ not_found
      → Mem e (stored s name)
      → e.seq ≢ k
  pub delete_takes :
      (s : Server) (name : String) (k : ℕ)
      → (delete_msg s name k).1 ≡ deleted
      → stored (delete_msg s name k).0 name ≡ without_seq k (stored s name)
  pub delete_misses :
      (s : Server) (name : String) (k : ℕ)
      → (delete_msg s name k).1 ≡ no_message
      → stored (delete_msg s name k).0 name ≡ stored s name
  pub delete_elsewhere :
      (s : Server) (name other : String) (k : ℕ)
      → name ≢ other
      → stored (delete_msg s name k).0 other ≡ stored s other

-- `json.Marshal` of a task and `json.Unmarshal` into one; `none` is an error.
pub record TaskCodec : Type 0 where
  pub marshal : Task → Option (List ℕ)
  pub unmarshal : List ℕ → Option Task
  pub round_trip : (t : Task) (b : List ℕ) → marshal t ≡ some b → unmarshal b ≡ some t
