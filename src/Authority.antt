-- ===== src/Authority.antt =====
-- The SQLite authority of the Host: packages/host/src/store.ts over the tables of
-- packages/host/src/authority-schema.ts.
pub mod Schema
pub mod Result
pub mod States
pub mod Insert
pub mod Attention
pub mod Query
pub mod Command
pub mod Runs
pub mod Interactions
pub mod Control
pub mod Settlement
pub mod Sessions
pub mod Fork
pub mod ForkCopy
pub mod ForkHistory
pub mod ForkFrame
pub mod ForkResult
pub mod Timeline
pub mod Synchronization
pub mod Maintenance
pub mod Recovery
pub mod Operation
pub mod Replay
pub mod ReceiptFrame
pub mod Frame
pub mod ChangeLog
pub mod LogFrame
pub mod LogHistory
pub mod Following
pub mod FollowFrame
pub mod FollowHistory
pub mod Compaction
pub mod Lifecycle
pub mod RunTable
pub mod RunQueue
pub mod RunEnd
pub mod RunOrder
pub mod RunRecovery
pub mod RunHistory
pub mod RunSettlement
pub mod StopEffect
pub mod BlobSafety
mod Fixture
mod Tests
mod LogTests
mod RunTests
mod StorageTests
mod ForkTests
pub mod ReplayControl
pub mod ReplayHistory
