-- ===== src/Lib.antt =====
-- A verification library for workqueue-modules: task queues behind one interface, with an in-memory
-- backend, backends on a database table and one on NATS JetStream.
--
-- The parts, and where they are modelled:
--
-- * Workqueue models workqueue/workqueue.go (Task, Handler) and, in its children, workqueue/options.go:
--   Workqueue.Options has NewEnqueueOptions, NewConsumeOptions and the With... options, an option
--   being a function on the options record, and Workqueue.Backoff has RetryBackoff.
--   Workqueue.Contract says what the interface WorkQueue promises of one queue, with the tasks that wait
--   as a bag (Workqueue.Bag, a quotient of lists).
-- * Memory models memory_workqueue/workqueue.go. Memory.Store holds the state (queues, wake channels),
--   Memory.Pending the heap items with their Less, Memory.Heap the calls of container/heap, and
--   Memory itself Enqueue, claim, complete, a round of worker, ListDeadTasks, RequeueDeadTask and
--   DeleteDeadTask. Every method holds the mutex, so Memory.Calls runs the goroutines as sequences of
--   whole calls, and Memory.World does so with the tasks that the workers have claimed. Memory.Refines
--   compares the calls with Workqueue.Contract, and Memory.Life follows one task under one worker, as
--   workqueuetest/suite.go does.
-- * Sql and Gorm model gorm_workqueue. Sql has the row and toTask of gorm_workqueue/model.go, and the
--   task table behind GORM and encoding/json as records of operations and laws; Sql.Meaning says
--   what the conditions of the statements mean in the columns. Gorm.Rows has the conditions and
--   assignments of the statements, Gorm.Claim the claim with what other processes do between its
--   statements, and Gorm the other methods of gorm_workqueue/workqueue.go. Gorm.Calls runs the
--   calls of all processes on the table as sequences.
-- * Postgres models postgres_workqueue. Postgres.Store has what PostgreSQL does beyond the table as a
--   record of operations and laws: the SKIP LOCKED claim, NOTIFY and transactions. Postgres.State has
--   the configuration and the wake channels, on which Sql.Channels and Postgres.Channels have the
--   lemmas, Postgres.Claim claim and reapExpiredLeases,
--   Postgres.Quoting quotedTable, Postgres.Listener startListener and the rounds of listener.go,
--   Postgres.Model model.go, and Postgres the other methods of workqueue.go. Postgres.Transactions has
--   the lemmas on its transactions, Postgres.Calls the calls that run statements, Postgres.Ends which
--   of their endings broadcast, and Postgres.Wakeup the histories of calls, workers and notifications
--   that reach the wake channels of one process.
-- * Shared models one table on which processes of both database backends work: Shared.Protocol has what
--   a call may do to the rows, Shared.FromGorm and Shared.FromPostgres compare it with the calls of
--   Gorm.Calls and Postgres.Calls, and Shared.History has the histories of such calls.
-- * Nats models nats_workqueue/workqueue.go. Nats.Broker has the JetStream server and encoding/json as
--   records of operations and laws, Nats.Names the names of streams, subjects and consumers,
--   Nats.State the configuration and the handle, Nats.Streams ensureQueue and publishTask,
--   Nats.Handling Enqueue and handleMsg, and Nats.Scan scanDeadTasks and the calls on dead tasks.
--   Nats.Heartbeat has the deadline of a delivery under the heartbeats. Nats.Walk, Nats.Listing and
--   Nats.DeadLetters compare the scan with the messages as a list.
-- * Workqueue.Pool models Consume, worker, Stop and Done of memory_workqueue/workqueue.go as a state
--   machine, a step relation on the workers, the stop channel and the done channel; gorm_workqueue and
--   postgres_workqueue repeat that code, and Rounds compares the rounds of their workers with the steps.
--   Nats.Subscription models the subscription of nats_workqueue, whose workers are the slots of a
--   semaphore, and Nats.Consume its Consume.
-- * Sql.ListTable, Postgres.InMemory and Nats.InMemory are a table, a PostgreSQL and a JetStream server
--   in memory, for the tests; the last one is made of Nats.Log and Nats.Server, and Nats.Scenario has a
--   task on it.
-- * Prelude has the shared helpers, with Go's 64-bit integers in Prelude.Int.
--
-- Conventions. A `time.Time` is its number of nanoseconds since Go's zero time, so times before the
-- year 1 are left out. An `int` and a `time.Duration` are integers; where the code adds, doubles or
-- counts, `wrap64` writes out the wrap-around. Readings of the clock, identifiers drawn by the uuid
-- package and outcomes of handlers are arguments. A nil map or slice and an empty one are the same
-- value. A slice of pointers has fewer than 2^60 slots, since its bytes fit an `int`. The loops of container/heap recur on fuel, the length of the slice, which is enough for them
-- to end by their tests, since each round goes to a parent or a child. The loop of
-- RetryBackoff recurs on the rounds that are left, and so does the loop of scanDeadTasks, whose rounds
-- are the sequence numbers from the first to the last one.
--
-- Not modelled: the fx, viper and zap glue, AutoMigrate, and the test suite workqueuetest, which waits for
-- the backends in real time.
pub mod Prelude
pub mod Workqueue
pub mod Memory
pub mod Sql
pub mod Gorm
pub mod Postgres
pub mod Nats
pub mod Rounds
pub mod Shared
