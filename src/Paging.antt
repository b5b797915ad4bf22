-- ===== src/Paging.antt =====
-- The page tables of kernel/src/arch/x86_64/paging: entries, tables, and the mapper over them.
pub mod Entry
pub mod Table
pub mod Mapper
pub mod Ranges
pub mod Samples
mod Tests
