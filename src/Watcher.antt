-- ===== src/Watcher.antt =====
-- internal/watcher: follows the other chain and notices when an output it watches is spent.
pub mod Types
pub mod Classify
pub mod Targets
pub mod Scan
pub mod State
pub mod Record
pub mod Blocks
pub mod Reorg
pub mod Tip
pub mod Sweep
pub mod Mempool
pub mod Coverage
pub mod Finding
pub mod Keeping
pub mod Recorded
pub mod Settled
pub mod BlockDone
pub mod Answered
pub mod Framed
pub mod Attempts
pub mod Marks
pub mod Kept
pub mod KeptTip
pub mod KeptSweep
pub mod Shapes
pub mod Sweeping
pub mod Replaced
mod Samples
mod Tests
