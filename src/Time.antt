-- ===== src/Time.antt =====
-- time/cort_timeout_waiter.h and .cpp: the heap of timeouts, the coroutines with a timeout, and the
-- coroutines that wait for a file.
pub mod Timer
pub mod FdWaiter
pub mod Waiter
pub mod Loop
mod Tests
