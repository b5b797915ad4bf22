-- ===== src/Syscall.antt =====
-- kernel/src/syscall: the check of addresses that come from a user's function; and the results of
-- the crate in kernel/syscall.
pub mod Validate
pub mod Error
mod Tests
