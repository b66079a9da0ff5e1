-- ===== src/Postgres/Listener.antt =====
-- postgres_workqueue/listener.go: the connection that listens, and what its notifications wake.
use workqueue_modules.Prelude.{
  ◌*◌, String, Bool, true, false, not, ◌&&◌, Option, none, some, List, [], ◌∷◌, str_eq,
  if◌then◌else◌,
}
use workqueue_modules.Prelude.Int.{pos, ◌*ℤ◌, ltb_ℤ, wrap64}
use workqueue_modules.Workqueue.{Duration}
use workqueue_modules.Workqueue.Options.{second}
use workqueue_modules.Postgres.State.{Config, PostgresWorkQueue, broadcast_local, broadcast_all}

abbrev pub or_empty : Option String → String
or_empty none = ""
or_empty (some dsn) = dsn

-- What a connection does: it does not connect or subscribe, or it receives these payloads until it
-- breaks or the listener is closed.
pub data Connection : Type 0 where
  refused : Connection
  receives : List String → Connection

-- startListener: the data source name and the channel of the listener, or none for polling only.
-- `dialector` is the name that GORM's dialector has, if it is PostgreSQL's with a configuration.
unfoldable pub start_listener : Config → Option String → Option (String × String)
start_listener config dialector =
    let dsn = if str_eq config.listen_dsn "" then or_empty dialector else config.listen_dsn in
    if str_eq dsn "" then none else some (dsn, config.notify_channel)

module _ {D : Type 0} where
  -- The function `onWake` that startListener gives the listener.
  unfoldable pub on_wake : PostgresWorkQueue D → String → PostgresWorkQueue D
  on_wake q payload = if str_eq payload "" then broadcast_all q else broadcast_local q payload

  unfoldable pub wake_each : PostgresWorkQueue D → List String → PostgresWorkQueue D
  wake_each q [] = q
  wake_each q (payload ∷ payloads) = wake_each (on_wake q payload) payloads

  -- listenOnce, which returns an error on every path.
  unfoldable pub listen_once : PostgresWorkQueue D → Connection → PostgresWorkQueue D
  unfolding wake_each
  listen_once q refused = q
  listen_once q (receives payloads) = wake_each (on_wake q "") payloads

-- The error of listenOnce is not nil: the loop over the notifications ends by one only.
abbrev pub fails : Connection → Bool
fails refused = true
fails (receives payloads) = true

abbrev pub min_backoff : Duration
min_backoff = pos second

abbrev pub max_backoff : Duration
max_backoff = pos (30 * second)

-- A round of the loop of `run`, with the backoff at hand: the state, the delay that is waited if the
-- listener was not closed meanwhile, and the next backoff.
unfoldable pub listen_round :
    {D : Type 0}
    → PostgresWorkQueue D
    → Duration
    → Connection
    → Bool
    → PostgresWorkQueue D × Option Duration × Duration
listen_round q backoff connection closing =
    let q' = listen_once q connection in
    let doubled = wrap64 (backoff *ℤ pos 2) in
    if fails connection && not closing
    then (q', some backoff, if ltb_ℤ doubled max_backoff then doubled else max_backoff)
    else (q', none, min_backoff)

-- The delays between the connections, until the listener is closed.
unfoldable pub delays :
    {D : Type 0} → PostgresWorkQueue D → Duration → List Connection → List Duration
delays q backoff [] = []
delays q backoff (connection ∷ connections) =
    let (q', wait, next) = listen_round q backoff connection false in
    elim wait [ none ↦ [] | some w ↦ w ∷ delays q' next connections ]
