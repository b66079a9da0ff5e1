-- ===== src/Nats.antt =====
-- nats_workqueue/workqueue.go: the backend on NATS JetStream.
pub mod Names
pub mod Broker
pub mod Entries
pub mod State
pub mod Heartbeat
pub mod Streams
pub mod Handling
pub mod HandOff
pub mod Provisioning
pub mod Ensured
pub mod Outcomes
pub mod Duplicates
pub mod Walk
pub mod Ends
pub mod Scan
pub mod Listing
pub mod DeadLetters
pub mod Requeue
pub mod Subscription
pub mod Consume
pub mod Log
pub mod Server
pub mod InMemory
pub mod Scenario
mod Tests
mod DeadTests
