-- ===== src/Control.antt =====
-- internal/control: the campaign state machine, the loops of the leader, and the outbox dispatcher.
pub mod Campaign
pub mod Retry
pub mod Loops
pub mod Walk
pub mod Maintenance
pub mod Kept
pub mod Retention
pub mod Expiry
pub mod Drained
pub mod Paging
pub mod OnePass
pub mod Ticks
pub mod Promotion
pub mod Schedule
pub mod Evolution
pub mod Lifecycle
pub mod LoopSteps
pub mod Interleaving
pub mod Completion
pub mod Chunks
pub mod Cancels
pub mod Dispatch
pub mod DeadLetter
