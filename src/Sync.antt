-- ===== src/Sync.antt =====
-- kernel/src/sync: `WaitCondition` and `WaitQueue`, over the contexts that they block and unblock.
pub mod WaitCondition
pub mod WaitQueue
mod Tests
