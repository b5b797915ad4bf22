-- ===== src/Memory.antt =====
-- kernel/src/memory: the virtual page allocator (valloc.rs), the recycling frame allocator
-- (recycle.rs) and the bump allocator under it (bump.rs).
pub mod Blocks
pub mod Merge
pub mod Takes
pub mod Valloc
pub mod FrameAllocator
pub mod Bump
pub mod Recycle
pub mod Pages
pub mod Frames
mod Tests
