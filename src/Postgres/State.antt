-- ===== src/Postgres/State.antt =====
-- postgres_workqueue/workqueue.go: the configuration, the state in memory and its wake channels. A
-- channel is a number; those below `channels` have been made.
use workqueue_modules.Prelude.{
  ℕ, suc, ◌*◌, ◌≡◌, refl, String, str_append, Bool, true, false, Option, none, some, List, [], ◌∷◌,
  ◌==◌, str_eq, if◌then◌else◌, lookup, insert, inl, inr, Bool-cases, arith,
}
use workqueue_modules.Prelude.Int.{pos, leb_ℤ}
use workqueue_modules.Workqueue.{Duration}
use workqueue_modules.Workqueue.Options.{second}

pub record Config : Type 0 where
  pub table_name : String
  pub poll_interval : Duration
  pub lease_duration : Duration
  pub notify_channel : String
  pub listen_dsn : String

default_table_name : String
default_table_name = "workqueue_tasks"

default_poll_interval : Duration
default_poll_interval = pos (30 * second)

default_lease_duration : Duration
default_lease_duration = pos (5 * 60 * second)

table_or_default : String → String
unfolding default_table_name
table_or_default name = if str_eq name "" then default_table_name else name

unfoldable pub with_defaults : Config → Config
unfolding table_or_default default_table_name default_poll_interval default_lease_duration
with_defaults c = record {
  table_name = table_or_default c.table_name;
  poll_interval = if leb_ℤ c.poll_interval (pos 0) then default_poll_interval else c.poll_interval;
  lease_duration =
      if leb_ℤ c.lease_duration (pos 0) then default_lease_duration else c.lease_duration;
  notify_channel =
      if str_eq c.notify_channel ""
      then str_append (table_or_default c.table_name) "_wakeup"
      else c.notify_channel;
  listen_dsn = c.listen_dsn;
}

-- `db` is nil until OnStart resolves the handle.
pub record PostgresWorkQueue (D : Type 0) : Type 0 where
  pub db : Option D
  pub config : Config
  pub notifies : List (String × ℕ)
  pub channels : ℕ
  pub closed : ℕ → Bool

unfoldable pub close : ℕ → (ℕ → Bool) → ℕ → Bool
close ch closed c = if c == ch then true else closed c

unfoldable pub close_found : Option ℕ → (ℕ → Bool) → ℕ → Bool
close_found none closed = closed
close_found (some ch) closed = close ch closed

-- The loop of broadcastAll over the entries of the map.
unfoldable pub close_all : List (String × ℕ) → ℕ → (ℕ → Bool) → List (String × ℕ) × ℕ × (ℕ → Bool)
unfolding close
close_all [] fresh closed = ([], fresh, closed)
close_all ((name, ch) ∷ entries) fresh closed =
    let (entries', fresh', closed') = close_all entries (suc fresh) (close ch closed) in
    ((name, fresh) ∷ entries', fresh', closed')

module _ {D : Type 0} where
  unfoldable pub new : Option D → Config → PostgresWorkQueue D
  new db config = record {
    db = db;
    config = with_defaults config;
    notifies = [];
    channels = 0;
    closed = λ c. false;
  }

  unfoldable pub notify : PostgresWorkQueue D → String → PostgresWorkQueue D × ℕ
  notify q name = elim (lookup name q.notifies) [
    | some ch ↦ (q, ch)
    | none ↦ (
      record q { notifies = insert name q.channels q.notifies; channels = suc q.channels },
      q.channels,
    )
  ]

  unfoldable pub broadcast_local : PostgresWorkQueue D → String → PostgresWorkQueue D
  unfolding close close_found
  broadcast_local q name = record q {
    notifies = insert name q.channels q.notifies;
    channels = suc q.channels;
    closed = close_found (lookup name q.notifies) q.closed;
  }

  unfoldable pub broadcast_all : PostgresWorkQueue D → PostgresWorkQueue D
  broadcast_all q =
      let (entries, fresh, closed) = close_all q.notifies q.channels q.closed in
      record q { notifies = entries; channels = fresh; closed = closed }

close-keeps : (ch : ℕ) (closed : ℕ → Bool) (c : ℕ) → closed c ≡ true → close ch closed c ≡ true
unfolding close
close-keeps ch closed c h = ground arith

close-closes : (ch : ℕ) (closed : ℕ → Bool) (c : ℕ) → ch ≡ c → close ch closed c ≡ true
unfolding close
close-closes ch closed c h = ground arith

close_found-keeps :
    (o : Option ℕ) (closed : ℕ → Bool) (c : ℕ) → closed c ≡ true → close_found o closed c ≡ true
unfolding close_found
close_found-keeps none closed c h = h
close_found-keeps (some ch) closed c h = close-keeps ch closed c h

close_all-keeps :
    (entries : List (String × ℕ)) (fresh : ℕ) (closed : ℕ → Bool) (c : ℕ)
    → closed c ≡ true
    → (close_all entries fresh closed).2 c ≡ true
unfolding close_all
close_all-keeps [] fresh closed c h = h
close_all-keeps ((name, ch) ∷ entries) fresh closed c h =
    close_all-keeps entries (suc fresh) (close ch closed) c (close-keeps ch closed c h)

close_all-closes :
    (entries : List (String × ℕ)) (fresh : ℕ) (closed : ℕ → Bool) (name : String) (c : ℕ)
    → lookup name entries ≡ some c
    → (close_all entries fresh closed).2 c ≡ true
unfolding close_all lookup
close_all-closes [] fresh closed name c h = absurd (ground arith)
close_all-closes ((other, ch) ∷ entries) fresh closed name c h =
    elim (Bool-cases (str_eq other name)) [
      | inl e ↦
          close_all-keeps entries (suc fresh) (close ch closed) c
            (close-closes ch closed c (ground arith))
      | inr e ↦ close_all-closes entries (suc fresh) (close ch closed) name c (ground arith)
    ]

module _ {D : Type 0} where
  -- A closed channel stays closed.
  pub broadcast_local-keeps :
      (q : PostgresWorkQueue D) (name : String) (c : ℕ)
      → q.closed c ≡ true
      → (broadcast_local q name).closed c ≡ true
  unfolding broadcast_local
  broadcast_local-keeps q name c h = close_found-keeps (lookup name q.notifies) q.closed c h

  pub broadcast_all-keeps :
      (q : PostgresWorkQueue D) (c : ℕ) → q.closed c ≡ true → (broadcast_all q).closed c ≡ true
  unfolding broadcast_all
  broadcast_all-keeps q c h = close_all-keeps q.notifies q.channels q.closed c h

  -- broadcastAll closes the channel of every queue, and broadcastLocal that of its queue.
  pub broadcast_all-closes :
      (q : PostgresWorkQueue D) (name : String) (c : ℕ)
      → lookup name q.notifies ≡ some c
      → (broadcast_all q).closed c ≡ true
  unfolding broadcast_all
  broadcast_all-closes q name c h = close_all-closes q.notifies q.channels q.closed name c h

  pub broadcast_local-closes :
      (q : PostgresWorkQueue D) (name : String) (c : ℕ)
      → lookup name q.notifies ≡ some c
      → (broadcast_local q name).closed c ≡ true
  unfolding broadcast_local close close_found
  broadcast_local-closes q name c h = rw h (ground arith)

  pub broadcast_local-db :
      (q : PostgresWorkQueue D) (name : String) → (broadcast_local q name).db ≡ q.db
  unfolding broadcast_local
  broadcast_local-db q name = refl
