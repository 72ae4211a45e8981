-- ===== src/Stackful.antt =====
-- stackful/: coroutines with a stack of their own, whose system calls are replaced by ones that wait
-- without blocking the thread.
mod Tests
pub mod FdTable
pub mod Hook
pub mod Storage
pub mod Versions
pub mod Stack
